-- ===== src/Logs/Lines/Cleanup.antt =====
-- A clean-up of the store of wounds and the lines of a log that follow it.
use mbsquad.Prelude.{
  ℕ, ◌+◌, ◌≤◌, Bool, true, false, List, [], ◌∷◌, Option, none, some, leb, if◌then◌else◌, ◌≡◌, refl,
  ap, sym, subst, ◌∙◌, arith, All, Bool-cases, Option-cases, inl, inr,
}
use mbsquad.Prelude.Bytes.{Bytes}
use mbsquad.Prelude.Maps.{
  lookup, insert, remove, bytes_key, lookup-insert_self, lookup-insert, lookup-remove, Distinct,
  only_if, lookup-keep_values,
}
use mbsquad.Logs.Names.{trim_blanks, preprocess_invalid_ids}
use mbsquad.Logs.Patterns.{Std, Match, group, die, wound}
use mbsquad.Logs.Wounds.{
  Windows, WoundRecord, Wounds, wound_record, is_live, store_match, store_wound, cleanup,
}
use mbsquad.Logs.Events.{ParsedLine}
use mbsquad.Logs.Kills.{Attacker, attacker_of, credited, used_up, outcome, die_event}
use mbsquad.Logs.Lines.{is_death, is_wound, keep_wound, wound_line, wound_event, process_line}
use mbsquad.Logs.Lines.Store.{left}

module _ (std : Std) where
  -- The parsed lines of a call.
  abbrev pub parsed_lines : Option (List ParsedLine × Wounds std) → Option (List ParsedLine)
  parsed_lines none = none
  parsed_lines (some r) = some r.0

  -- What is parsed of the lines of a log, each with the time at which it is read; a call that throws
  -- leaves the store as it was.
  unfoldable pub parse_all :
      Windows → List (ℕ × Bytes) → Wounds std → List (Option (List ParsedLine))
  parse_all w [] wounds = []
  parse_all w ((now, line) ∷ lines) wounds =
      let r = process_line std w now line wounds in
      parsed_lines r ∷ parse_all w lines (left std wounds r)

  credited-cleanup :
      (w : Windows) (now earlier : ℕ) (a : Attacker) (o : Option (WoundRecord std))
      → earlier ≤ now
      → credited std w now (only_if (is_live std w earlier) o) a ≡ credited std w now o a
  unfolding credited
  credited-cleanup w now earlier a none h = refl
  credited-cleanup w now earlier a (some r) h = elim (Bool-cases (leb now (r.time + w.expiry))) [
    | inl live ↦
        let was : leb earlier (r.time + w.expiry) ≡ true = ground (arith, live, h) in rw was refl
    | inr old ↦ elim (Bool-cases (leb earlier (r.time + w.expiry))) [
      | inl was ↦ rw was refl
      | inr gone ↦ rw gone (rw old refl)
    ]
  ]

  only_if_twice :
      (p : WoundRecord std → Bool) (o : Option (WoundRecord std))
      → only_if p (only_if p o) ≡ only_if p o
  only_if_twice p none = refl
  only_if_twice p (some r) = elim (Bool-cases (p r)) [
    | inl kept ↦ rw kept (rw kept refl)
    | inr gone ↦ rw gone refl
  ]

  module _ (w : Windows) (earlier : ℕ) where
    abbrev live : Option (WoundRecord std) → Option (WoundRecord std)
    live = only_if (is_live std w earlier)

    -- Stores that differ only in wounds that were over at the time of the clean-up.
    abbrev Alike : Wounds std → Wounds std → Type 0
    Alike xs ys = (v : Bytes) → live (lookup v xs) ≡ live (lookup v ys)

    abbrev AlikeCalls :
        Wounds std
        → Wounds std
        → Option (List ParsedLine × Wounds std)
        → Option (List ParsedLine × Wounds std)
        → Type 0
    AlikeCalls xs ys r s = (parsed_lines r ≡ parsed_lines s) × Alike (left std xs r) (left std ys s)

    cleanup-Alike :
        (wounds : Wounds std) → Distinct wounds → Alike (cleanup std w earlier wounds) wounds
    unfolding cleanup
    cleanup-Alike wounds h = λ v.
        ap live (lookup-keep_values (is_live std w earlier) v wounds h)
        ∙ only_if_twice (is_live std w earlier) (lookup v wounds)

    insert-Alike :
        (v : Bytes) (r : WoundRecord std) (xs ys : Wounds std)
        → Alike xs ys
        → Alike (insert v r xs) (insert v r ys)
    insert-Alike v r xs ys h = λ u.
        rw (lookup-insert v u r xs)
          (rw (lookup-insert v u r ys) (if_live (bytes_key.eqb v u) (some r) _ _ (h u)))
      where
        if_live :
            (b : Bool) (o x y : Option (WoundRecord std))
            → live x ≡ live y
            → live (if b then o else x) ≡ live (if b then o else y)
        if_live true o x y e = refl
        if_live false o x y e = e

    remove-Alike :
        (v : Bytes) (xs ys : Wounds std) → Alike xs ys → Alike (remove v xs) (remove v ys)
    remove-Alike v xs ys h = λ u.
        rw (lookup-remove v u xs)
          (rw (lookup-remove v u ys) (if_live (bytes_key.eqb v u) _ _ (h u)))
      where
        if_live :
            (b : Bool) (x y : Option (WoundRecord std))
            → live x ≡ live y
            → live (if b then none else x) ≡ live (if b then none else y)
        if_live true x y e = refl
        if_live false x y e = e

    used_up-Alike :
        (b : Bool) (v : Bytes) (xs ys : Wounds std)
        → Alike xs ys
        → Alike (used_up std b v xs) (used_up std b v ys)
    used_up-Alike true v xs ys h = remove-Alike v xs ys h
    used_up-Alike false v xs ys h = h

    credited-Alike :
        (now : ℕ) (a : Attacker) (v : Bytes) (xs ys : Wounds std)
        → earlier ≤ now
        → Alike xs ys
        → credited std w now (lookup v xs) a ≡ credited std w now (lookup v ys) a
    credited-Alike now a v xs ys order h =
        sym (credited-cleanup w now earlier a (lookup v xs) order)
        ∙ ap (λ o. credited std w now o a) (h v)
        ∙ credited-cleanup w now earlier a (lookup v ys) order

    die_event-Alike :
        (now : ℕ) (o : Option Match) (xs ys : Wounds std)
        → earlier ≤ now
        → Alike xs ys
        → AlikeCalls xs ys (some (die_event std w now o xs)) (some (die_event std w now o ys))
    unfolding die_event
    die_event-Alike now none xs ys order h = (refl, h)
    die_event-Alike now (some m) xs ys order h =
        let v = trim_blanks (group m 3) in
        let x = credited std w now (lookup v xs) (attacker_of m) in
        let same = credited-Alike now (attacker_of m) v xs ys order h in
        (
          ap (λ c. some (outcome std m xs c).0) same,
          subst (λ (c : Attacker × Bool). Alike (used_up std x.1 v xs) (used_up std c.1 v ys)) same
              (used_up-Alike x.1 v xs ys h),
        )

    keep_wound-Alike :
        (now : ℕ) (o : Option Match) (xs ys : Wounds std)
        → Alike xs ys
        → AlikeCalls xs ys
            (keep_wound std o (store_match std now o xs))
            (keep_wound std o (store_match std now o ys))
    unfolding keep_wound wound_event
    keep_wound-Alike now none xs ys h = (refl, h)
    keep_wound-Alike now (some m) xs ys h = elim (Option-cases (std.stod (group m 4))) [
      | inl unread ↦ rw unread (refl, h)
      | inr (damage, read) ↦
          let v = trim_blanks (group m 3) in
          let r = wound_record std now m damage in
          rw read (
            ap (λ o. some (wound_line std o))
                (lookup-insert_self v r xs ∙ sym (lookup-insert_self v r ys)),
            insert-Alike v r xs ys h,
          )
    ]

    process_line-Alike :
        (now : ℕ) (line : Bytes) (xs ys : Wounds std)
        → earlier ≤ now
        → Alike xs ys
        → AlikeCalls xs ys (process_line std w now line xs) (process_line std w now line ys)
    unfolding process_line store_wound
    process_line-Alike now line xs ys order h =
        let s = preprocess_invalid_ids line in
        elim (Bool-cases (is_death s)) [
          | inl own ↦ rw own (die_event-Alike now (std.search die s) xs ys order h)
          | inr other ↦ elim (Bool-cases (is_wound s)) [
            | inl own ↦ rw other (rw own (keep_wound-Alike now (std.search wound s) xs ys h))
            | inr neither ↦ rw other (rw neither (refl, h))
          ]
        ]

    cons_eq :
        (a b : Option (List ParsedLine)) (xs ys : List (Option (List ParsedLine)))
        → a ≡ b
        → xs ≡ ys
        → a ∷ xs ≡ b ∷ ys
    cons_eq a b xs ys h hs = ap (λ o. o ∷ xs) h ∙ ap (◌∷◌ b) hs

    parse_all-Alike :
        (lines : List (ℕ × Bytes)) (xs ys : Wounds std)
        → All (λ l. earlier ≤ l.0) lines
        → Alike xs ys
        → parse_all w lines xs ≡ parse_all w lines ys
    unfolding parse_all
    parse_all-Alike [] xs ys order h = refl
    parse_all-Alike ((now, line) ∷ lines) xs ys (order, later) h =
        let call = process_line-Alike now line xs ys order h in
        cons_eq _ _ _ _ call.0 (
          parse_all-Alike lines (left std xs (process_line std w now line xs))
            (left std ys (process_line std w now line ys)) later call.1)

  -- A clean-up of a store in which each player has at most one wound changes nothing of what is parsed
  -- of the lines that are read from then on, however many they are and whatever they store.
  pub parse_all-cleanup :
      (w : Windows) (earlier : ℕ) (lines : List (ℕ × Bytes)) (wounds : Wounds std)
      → Distinct wounds
      → All (λ l. earlier ≤ l.0) lines
      → parse_all w lines (cleanup std w earlier wounds) ≡ parse_all w lines wounds
  parse_all-cleanup w earlier lines wounds h later =
      parse_all-Alike w earlier lines (cleanup std w earlier wounds) wounds later
        (cleanup-Alike w earlier wounds h)
