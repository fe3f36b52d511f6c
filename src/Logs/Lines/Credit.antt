-- ===== src/Logs/Lines/Credit.antt =====
-- Who is named for a death, over a line of a wound and a later line of the death.
use mbsquad.Prelude.{
  ℕ, ◌+◌, ◌≤◌, true, false, [], ◌∷◌, some, leb, if◌then◌else◌, ◌≡◌, refl, ap, sym, ◌∙◌, ◌>>=◌,
  arith,
}
use mbsquad.Prelude.Bytes.{Bytes, codes, contains}
use mbsquad.Prelude.Maps.{lookup, insert, remove, bytes_key, lookup-insert_self, remove-insert_self}
use mbsquad.Logs.Names.{
  trim_blanks, strip_class, strip_suffix, or_unknown, extract_weapon, preprocess_invalid_ids,
}
use mbsquad.Logs.Patterns.{Std, Match, group, die, wound}
use mbsquad.Logs.Wounds.{Windows, WoundRecord, Wounds, wound_record, store_wound}
use mbsquad.Logs.Lines.{is_death, is_wound, keep_wound, process_line}
use mbsquad.Logs.Kills.{
  Attacker, is_empty, attacker_of, is_null, has_id, shown_name, death_line, with_wound, credited,
  outcome, die_event,
}

is_empty-or_unknown : (s : Bytes) → is_empty (or_unknown s) ≡ false
is_empty-or_unknown [] = refl
is_empty-or_unknown (c ∷ s) = refl

is_empty-extract_weapon : (s : Bytes) → is_empty (extract_weapon s) ≡ false
unfolding extract_weapon
is_empty-extract_weapon [] = refl
is_empty-extract_weapon (c ∷ s) = is_empty-or_unknown (strip_class (strip_suffix (c ∷ s)))

module _ (std : Std) where
  -- A record of the victim that is not too old gives the attacker, and is used up.
  pub die_event-live :
      (w : Windows) (now : ℕ) (m : Match) (r : WoundRecord std) (wounds : Wounds std)
      → lookup (trim_blanks (group m 3)) wounds ≡ some r
      → now ≤ r.time + w.expiry
      → die_event std w now (some m) wounds ≡ (
        death_line (is_null (attacker_of m)) m (with_wound std r (attacker_of m)) ∷ [],
        remove (trim_blanks (group m 3)) wounds,
      )
  unfolding die_event credited
  die_event-live w now m r wounds found live =
      let young : leb now (r.time + w.expiry) ≡ true = ground (arith, live) in
      ap (λ o. outcome std m wounds (credited std w now o (attacker_of m))) found
      ∙ ap
          (λ b.
            outcome std m wounds
              (if b then (with_wound std r (attacker_of m), true) else (attacker_of m, false)))
          young

  -- The line is one of a wound, with that match.
  abbrev pub IsWoundLine : Bytes → Match → Type 0
  IsWoundLine line m =
      (is_death (preprocess_invalid_ids line) ≡ false)
      × (is_wound (preprocess_invalid_ids line) ≡ true)
      × (std.search wound (preprocess_invalid_ids line) ≡ some m)

  abbrev pub IsDeathLine : Bytes → Match → Type 0
  IsDeathLine line m =
      (is_death (preprocess_invalid_ids line) ≡ true)
      × (std.search die (preprocess_invalid_ids line) ≡ some m)

  process_line-IsWoundLine :
      (w : Windows) (now : ℕ) (line : Bytes) (m : Match) (damage : std.Double) (wounds : Wounds std)
      → IsWoundLine line m
      → std.stod (group m 4) ≡ some damage
      → process_line std w now line wounds
        ≡ keep_wound std
            (std.search wound (preprocess_invalid_ids line))
            (some (insert (trim_blanks (group m 3)) (wound_record std now m damage) wounds))
  unfolding process_line store_wound
  process_line-IsWoundLine w now line m damage wounds (other, own, found) read =
      rw other (rw own (rw found (rw read refl)))

  process_line-IsDeathLine :
      (w : Windows) (now : ℕ) (line : Bytes) (m : Match) (wounds : Wounds std)
      → IsDeathLine line m
      → process_line std w now line wounds ≡ some (die_event std w now (some m) wounds)
  unfolding process_line
  process_line-IsDeathLine w now line m wounds (own, found) = rw own (rw found refl)

  -- The line of a wound and, not later than the expiry time, the line of the same player's death.
  two_lines :
      (w : Windows) (now later : ℕ) (wounding dying : Bytes) (wm dm : Match) (damage : std.Double)
      (wounds : Wounds std)
      → IsWoundLine wounding wm
      → std.stod (group wm 4) ≡ some damage
      → IsDeathLine dying dm
      → trim_blanks (group dm 3) ≡ trim_blanks (group wm 3)
      → later ≤ now + w.expiry
      → (process_line std w now wounding wounds >>= λ r. process_line std w later dying r.1)
        ≡ some (
          death_line
                (is_null (attacker_of dm))
                dm
                (with_wound std (wound_record std now wm damage) (attacker_of dm))
              ∷ [],
          remove (trim_blanks (group dm 3)) wounds,
        )
  unfolding keep_wound wound_record
  two_lines w now later wounding dying wm dm damage wounds hw read hd same recent =
      let victim = trim_blanks (group wm 3) in
      let r = wound_record std now wm damage in
      let stored = insert victim r wounds in
      let found : lookup (trim_blanks (group dm 3)) stored ≡ some r =
        ap (λ v. lookup v stored) same ∙ lookup-insert_self victim r wounds in
      let cleared : remove (trim_blanks (group dm 3)) stored
          ≡ remove (trim_blanks (group dm 3)) wounds =
        ap (λ v. remove v stored) same
        ∙ remove-insert_self victim r wounds
        ∙ ap (λ v. remove v wounds) (sym same) in
      ap (λ o. o >>= λ r. process_line std w later dying r.1)
        (process_line-IsWoundLine w now wounding wm damage wounds hw read)
      ∙ process_line-IsDeathLine w later dying dm stored hd
      ∙ ap some (die_event-live w later dm r stored found recent)
      ∙ ap
          (λ s.
            some (
              death_line (is_null (attacker_of dm)) dm (with_wound std r (attacker_of dm)) ∷ [],
              s,
            ))
          cleared

  with_wound-wound_record :
      (now : ℕ) (wm : Match) (damage : std.Double) (a : Attacker)
      → has_id (group wm 7) ≡ true
      → contains (codes "PlayerController") a.controller ≡ true
      → with_wound std (wound_record std now wm damage) a ≡ record {
        controller = trim_blanks (group wm 5);
        steam_id = group wm 7;
        eos_id = group wm 6;
        weapon = extract_weapon (group wm 9);
      }
  unfolding with_wound wound_record
  with_wound-wound_record now wm damage a real named =
      rw named (rw real (rw (is_empty-extract_weapon (group wm 9)) refl))

  -- A death line after a wound line of the same player, at most the expiry time later: where the
  -- death line names an attacker, and the name is a controller's, and the wound line has the attacker's
  -- id, one kill is parsed, with the name, ids and weapon of the wound line, and the victim's wound is gone.
  pub process_line-kill :
      (w : Windows) (now later : ℕ) (wounding dying : Bytes) (wm dm : Match) (damage : std.Double)
      (wounds : Wounds std)
      → IsWoundLine wounding wm
      → std.stod (group wm 4) ≡ some damage
      → IsDeathLine dying dm
      → trim_blanks (group dm 3) ≡ trim_blanks (group wm 3)
      → later ≤ now + w.expiry
      → is_null (attacker_of dm) ≡ false
      → contains (codes "PlayerController") (trim_blanks (group dm 5)) ≡ true
      → has_id (group wm 7) ≡ true
      → (process_line std w now wounding wounds >>= λ r. process_line std w later dying r.1)
        ≡ some (
          record {
            type = codes "kill";
            fields =
                (codes "killerName", trim_blanks (group wm 5))
                ∷ (codes "killerSteamId", group wm 7)
                ∷ (codes "killerEosId", group wm 6)
                ∷ (codes "victimName", shown_name (trim_blanks (group dm 3)))
                ∷ (codes "victimSteamId", [])
                ∷ (codes "weapon", extract_weapon (group wm 9))
                ∷ (codes "damage", group dm 4)
                ∷ [];
          }
              ∷ [],
          remove (trim_blanks (group dm 3)) wounds,
        )
  unfolding death_line
  process_line-kill w now later wounding dying wm dm damage wounds hw read hd same recent other
        named real =
      two_lines w now later wounding dying wm dm damage wounds hw read hd same recent
      ∙ ap
          (λ b. some (
            death_line b dm (with_wound std (wound_record std now wm damage) (attacker_of dm)) ∷ [],
            remove (trim_blanks (group dm 3)) wounds,
          ))
          other
      ∙ ap (λ a. some (death_line false dm a ∷ [], remove (trim_blanks (group dm 3)) wounds))
          (with_wound-wound_record now wm damage (attacker_of dm) real named)

  with_wound-null :
      (now : ℕ) (wm : Match) (damage : std.Double) (a : Attacker)
      → has_id (group wm 7) ≡ true
      → ((with_wound std (wound_record std now wm damage) a).steam_id ≡ group wm 7)
        × ((with_wound std (wound_record std now wm damage) a).eos_id ≡ group wm 6)
        × ((with_wound std (wound_record std now wm damage) a).weapon ≡ extract_weapon (group wm 9))
  unfolding with_wound wound_record
  with_wound-null now wm damage a real =
      (rw real refl, rw real refl, rw (is_empty-extract_weapon (group wm 9)) refl)

  -- A death line that names no attacker, after a wound line of the same player, at most the expiry time
  -- later, whose attacker has an id: one suicide is parsed, and its victim's ids are those of the player
  -- who did the wounding; the victim's wound is gone.
  pub process_line-suicide :
      (w : Windows) (now later : ℕ) (wounding dying : Bytes) (wm dm : Match) (damage : std.Double)
      (wounds : Wounds std)
      → IsWoundLine wounding wm
      → std.stod (group wm 4) ≡ some damage
      → IsDeathLine dying dm
      → trim_blanks (group dm 3) ≡ trim_blanks (group wm 3)
      → later ≤ now + w.expiry
      → is_null (attacker_of dm) ≡ true
      → has_id (group wm 7) ≡ true
      → (process_line std w now wounding wounds >>= λ r. process_line std w later dying r.1)
        ≡ some (
          record {
            type = codes "suicide";
            fields =
                (codes "victimName", shown_name (trim_blanks (group dm 3)))
                ∷ (codes "victimSteamId", group wm 7)
                ∷ (codes "victimEosId", group wm 6)
                ∷ (codes "weapon", extract_weapon (group wm 9))
                ∷ (codes "damage", group dm 4)
                ∷ [];
          }
              ∷ [],
          remove (trim_blanks (group dm 3)) wounds,
        )
  unfolding death_line
  process_line-suicide w now later wounding dying wm dm damage wounds hw read hd same recent no_one
        real =
      let (steam, eos, weapon) = with_wound-null now wm damage (attacker_of dm) real in
      two_lines w now later wounding dying wm dm damage wounds hw read hd same recent
      ∙ rw no_one (rw steam (rw eos (rw weapon refl)))
