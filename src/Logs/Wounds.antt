-- ===== src/Logs/Wounds.antt =====
-- The store of wounds of `LogParser`: `storeWound`, `getRecentWounds` and `cleanup`. The clock is an
-- argument of each call, in milliseconds, and the two settings are the record Windows.
use mbsquad.Prelude.{ℕ, ◌+◌, Bool, List, Option, none, some, ltb, leb, map, keep}
use mbsquad.Prelude.Bytes.{Bytes}
use mbsquad.Prelude.Maps.{insert, keep_values, bytes_key}
use mbsquad.Logs.Names.{preprocess_invalid_ids, trim_blanks, extract_weapon}
use mbsquad.Logs.Patterns.{wound, Match, group, Std}

-- `WOUND_DEDUP_WINDOW_MS` and `WOUND_EXPIRY_MS`
pub record Windows : Type 0 where
  pub dedup : ℕ
  pub expiry : ℕ

module _ (std : Std) where
  open std use {Double, stod, search}

  pub record WoundRecord : Type 0 where
    pub victim_name : Bytes
    pub damage : Double
    pub attacker_controller : Bytes
    pub attacker_steam_id : Bytes
    pub attacker_eos_id : Bytes
    pub weapon : Bytes
    pub time : ℕ

  abbrev pub Wounds : Type 0
  Wounds = List (Bytes × WoundRecord)

  unfoldable pub wound_record : ℕ → Match → Double → WoundRecord
  wound_record now m damage = record {
    victim_name = trim_blanks (group m 3);
    damage = damage;
    attacker_controller = trim_blanks (group m 5);
    attacker_steam_id = group m 7;
    attacker_eos_id = group m 6;
    weapon = extract_weapon (group m 9);
    time = now;
  }

  abbrev pub store_number : ℕ → Match → Option Double → Wounds → Option Wounds
  store_number now m none wounds = none
  store_number now m (some damage) wounds =
      some (insert (trim_blanks (group m 3)) (wound_record now m damage) wounds)

  abbrev pub store_match : ℕ → Option Match → Wounds → Option Wounds
  store_match now none wounds = some wounds
  store_match now (some m) wounds = store_number now m (stod (group m 4)) wounds

  -- None where the damage is no number and `stod` throws.
  unfoldable pub store_wound : ℕ → Bytes → Wounds → Option Wounds
  store_wound now line wounds = store_match now (search wound (preprocess_invalid_ids line)) wounds

  abbrev pub is_recent : Windows → ℕ → WoundRecord → Bool
  is_recent w now r = ltb now (r.time + w.dedup)

  pub record WoundEvent : Type 0 where
    pub victim_name : Bytes
    pub attacker_name : Bytes
    pub attacker_steam_id : Bytes
    pub attacker_eos_id : Bytes
    pub weapon : Bytes
    pub damage : Double

  event_of : WoundRecord → WoundEvent
  event_of r = record {
    victim_name = r.victim_name;
    attacker_name = r.attacker_controller;
    attacker_steam_id = r.attacker_steam_id;
    attacker_eos_id = r.attacker_eos_id;
    weapon = r.weapon;
    damage = r.damage;
  }

  pub get_recent_wounds : Windows → ℕ → Wounds → List WoundEvent
  get_recent_wounds w now wounds = map (λ e. event_of e.1) (keep (λ e. is_recent w now e.1) wounds)

  abbrev pub is_live : Windows → ℕ → WoundRecord → Bool
  is_live w now r = leb now (r.time + w.expiry)

  unfoldable pub cleanup : Windows → ℕ → Wounds → Wounds
  cleanup w now wounds = keep_values (is_live w now) wounds
