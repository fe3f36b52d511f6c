-- ===== src/Logs/Lines/Store.antt =====
-- The store of wounds over the lines of a log: each player has one wound.
use mbsquad.Prelude.{
  ℕ, Bool, true, false, List, Option, none, some, if◌then◌else◌, Option-cases, inl, inr,
  both_branches,
}
use mbsquad.Prelude.Bytes.{Bytes}
use mbsquad.Prelude.Maps.{lookup, bytes_key, Distinct, insert-Distinct, remove-Distinct}
use mbsquad.Logs.Names.{trim_blanks, preprocess_invalid_ids}
use mbsquad.Logs.Patterns.{Std, Match, group, die, wound}
use mbsquad.Logs.Wounds.{Windows, Wounds, wound_record, store_match, store_wound}
use mbsquad.Logs.Events.{ParsedLine, plain_event}
use mbsquad.Logs.Kills.{attacker_of, credited, used_up, die_event}
use mbsquad.Logs.Lines.{is_death, is_wound, keep_wound, process_line}

module _ (std : Std) where
  -- What a call leaves in the store; the store itself where the call throws.
  abbrev pub left : Wounds std → Option (List ParsedLine × Wounds std) → Wounds std
  left wounds none = wounds
  left wounds (some r) = r.1

  used_up-Distinct :
      (b : Bool) (v : Bytes) (wounds : Wounds std)
      → Distinct wounds
      → Distinct (used_up std b v wounds)
  used_up-Distinct true v wounds h = remove-Distinct v wounds h
  used_up-Distinct false v wounds h = h

  die_event-Distinct :
      (w : Windows) (now : ℕ) (o : Option Match) (wounds : Wounds std)
      → Distinct wounds
      → Distinct (die_event std w now o wounds).1
  unfolding die_event
  die_event-Distinct w now none wounds h = h
  die_event-Distinct w now (some m) wounds h =
      used_up-Distinct
        (credited std w now (lookup (trim_blanks (group m 3)) wounds) (attacker_of m)).1
        (trim_blanks (group m 3)) wounds h

  keep_wound-Distinct :
      (now : ℕ) (o : Option Match) (wounds : Wounds std)
      → Distinct wounds
      → Distinct (left wounds (keep_wound std o (store_match std now o wounds)))
  unfolding keep_wound
  keep_wound-Distinct now none wounds h = h
  keep_wound-Distinct now (some m) wounds h = elim (Option-cases (std.stod (group m 4))) [
    | inl e ↦ rw e h
    | inr (damage, e) ↦
        rw e (insert-Distinct (trim_blanks (group m 3)) (wound_record std now m damage) wounds h)
  ]

  -- Whatever the line is, and also where its number cannot be read, a store in which each player has at
  -- most one wound stays one.
  pub process_line-Distinct :
      (w : Windows) (now : ℕ) (line : Bytes) (wounds : Wounds std)
      → Distinct wounds
      → Distinct (left wounds (process_line std w now line wounds))
  unfolding process_line store_wound
  process_line-Distinct w now line wounds h =
      let s = preprocess_invalid_ids line in
      let P = λ (o : Option (List ParsedLine × Wounds std)). Distinct (left wounds o) in
      both_branches P (is_death s) (some (die_event std w now (std.search die s) wounds))
        (if is_wound s
          then keep_wound std (std.search wound s) (store_match std now (std.search wound s) wounds)
          else some (plain_event std s, wounds))
        (die_event-Distinct w now (std.search die s) wounds h)
        (both_branches P (is_wound s)
          (keep_wound std (std.search wound s) (store_match std now (std.search wound s) wounds))
          (some (plain_event std s, wounds)) (keep_wound-Distinct now (std.search wound s) wounds h)
          h)
