-- ===== src/Logs/Kills.antt =====
-- The death branch of `LogParser::processLine`: the attacker of a death is the one of the victim's last
-- wound, where that is recent.

use mbsquad.Prelude.{
  ℕ, Bool, true, false, not, ◌&&◌, ◌||◌, List, [], ◌∷◌, Option, none, some, if◌then◌else◌,
}
use mbsquad.Prelude.Bytes.{Bytes, codes, equal, contains}
use mbsquad.Prelude.Maps.{lookup, remove, bytes_key}
use mbsquad.Logs.Names.{trim_blanks, clean_player_name, extract_weapon}
use mbsquad.Logs.Patterns.{Std, Match, group}
use mbsquad.Logs.Wounds.{Windows, WoundRecord, Wounds, is_live}
use mbsquad.Logs.Events.{ParsedLine}

pub record Attacker : Type 0 where
  pub controller : Bytes
  pub steam_id : Bytes
  pub eos_id : Bytes
  pub weapon : Bytes

abbrev pub zero_steam_id : Bytes
zero_steam_id = codes "00000000000000000"

abbrev pub is_empty : Bytes → Bool
is_empty [] = true
is_empty (c ∷ s) = false

-- `isNullAttacker`
unfoldable pub is_null : Attacker → Bool
is_null a =
    equal a.steam_id zero_steam_id
    || equal a.controller (codes "nullptr")
    || equal a.controller (codes "None")
    || is_empty a.controller

unfoldable pub has_id : Bytes → Bool
has_id s = not (is_empty s) && not (equal s zero_steam_id)

abbrev pub attacker_of : Match → Attacker
attacker_of m = record {
  controller = trim_blanks (group m 5);
  steam_id = group m 7;
  eos_id = group m 6;
  weapon = extract_weapon (group m 9);
}

or_name : Bytes → Bytes → Bytes
or_name name [] = name
or_name name (c ∷ cleaned) = c ∷ cleaned

-- The victim's name as it is shown: the cleaned one, if anything is left of it.
pub shown_name : Bytes → Bytes
shown_name name = or_name name (clean_player_name name)

unfoldable pub death_line : Bool → Match → Attacker → ParsedLine
death_line true m a = record {
  type = codes "suicide";
  fields =
      (codes "victimName", shown_name (trim_blanks (group m 3)))
      ∷ (codes "victimSteamId", a.steam_id)
      ∷ (codes "victimEosId", a.eos_id)
      ∷ (codes "weapon", a.weapon)
      ∷ (codes "damage", group m 4)
      ∷ [];
}
death_line false m a = record {
  type = codes "kill";
  fields =
      (codes "killerName", a.controller)
      ∷ (codes "killerSteamId", a.steam_id)
      ∷ (codes "killerEosId", a.eos_id)
      ∷ (codes "victimName", shown_name (trim_blanks (group m 3)))
      ∷ (codes "victimSteamId", [])
      ∷ (codes "weapon", a.weapon)
      ∷ (codes "damage", group m 4)
      ∷ [];
}

module _ (std : Std) where
  unfoldable pub with_wound : WoundRecord std → Attacker → Attacker
  with_wound r a = record {
    controller =
        if contains (codes "PlayerController") a.controller
        then r.attacker_controller
        else a.controller;
    steam_id = if has_id r.attacker_steam_id then r.attacker_steam_id else a.steam_id;
    eos_id = if has_id r.attacker_steam_id then r.attacker_eos_id else a.eos_id;
    weapon = if is_empty r.weapon then a.weapon else r.weapon;
  }

  -- The attacker after the look into the store, and whether the record there is used up.
  unfoldable pub credited : Windows → ℕ → Option (WoundRecord std) → Attacker → Attacker × Bool
  credited w now none a = (a, false)
  credited w now (some r) a = if is_live std w now r then (with_wound r a, true) else (a, false)

  abbrev pub used_up : Bool → Bytes → Wounds std → Wounds std
  used_up true victim wounds = remove victim wounds
  used_up false victim wounds = wounds

  abbrev pub outcome : Match → Wounds std → Attacker × Bool → List ParsedLine × Wounds std
  outcome m wounds c = (
    death_line (is_null (attacker_of m)) m c.0 ∷ [],
    used_up c.1 (trim_blanks (group m 3)) wounds,
  )

  unfoldable pub die_event : Windows → ℕ → Option Match → Wounds std → List ParsedLine × Wounds std
  die_event w now none wounds = ([], wounds)
  die_event w now (some m) wounds =
      outcome m wounds (credited w now (lookup (trim_blanks (group m 3)) wounds) (attacker_of m))
