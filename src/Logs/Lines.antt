-- ===== src/Logs/Lines.antt =====
-- `LogParser::processLine`, and the readers of chat messages and online ids of src/core/log_parser.cpp.
pub mod Credit
pub mod Store
pub mod Cleanup
use mbsquad.Prelude.{
  ℕ, Bool, true, false, not, ◌&&◌, List, [], ◌∷◌, Option, none, some, if◌then◌else◌,
}
use mbsquad.Prelude.Bytes.{Bytes, codes, equal}
use mbsquad.Prelude.Int.{ℤ}
use mbsquad.Prelude.Maps.{lookup, bytes_key}
use mbsquad.Core.Numbers.{stoi}
use mbsquad.Logs.Names.{trim_blanks, preprocess_invalid_ids, split_parts}
use mbsquad.Logs.Patterns.{Std, Match, group, die, wound, chat_relay, online_ids, player}
use mbsquad.Logs.Wounds.{Windows, WoundRecord, Wounds, store_wound}
use mbsquad.Logs.Events.{ParsedLine, plain_event, finds}
use mbsquad.Logs.Kills.{die_event}

unfoldable pub is_death : Bytes → Bool
is_death s = finds s (codes "Die()") && finds s (codes "LogSquadTrace")

unfoldable pub is_wound : Bytes → Bool
is_wound s = finds s (codes "Wound()") && finds s (codes "LogSquadTrace")

module _ (std : Std) where
  pub wound_line : Option (WoundRecord std) → List ParsedLine
  wound_line none = []
  wound_line (some r) =
      record {
        type = codes "wound";
        fields =
            (codes "victimName", r.victim_name)
            ∷ (codes "attackerName", r.attacker_controller)
            ∷ (codes "attackerSteamId", r.attacker_steam_id)
            ∷ (codes "attackerEosId", r.attacker_eos_id)
            ∷ (codes "weapon", r.weapon)
            ∷ (codes "damage", std.double_text r.damage)
            ∷ [];
      }
      ∷ []

  unfoldable pub wound_event : Option Match → Wounds std → List ParsedLine
  wound_event none wounds = []
  wound_event (some m) wounds = wound_line (lookup (trim_blanks (group m 3)) wounds)

  unfoldable pub keep_wound :
      Option Match → Option (Wounds std) → Option (List ParsedLine × Wounds std)
  keep_wound m none = none
  keep_wound m (some wounds) = some (wound_event m wounds, wounds)

  -- None where `stod` throws; the store is then what it was.
  unfoldable pub process_line :
      Windows → ℕ → Bytes → Wounds std → Option (List ParsedLine × Wounds std)
  process_line w now line wounds =
      let s = preprocess_invalid_ids line in
      if is_death s
      then some (die_event std w now (std.search die s) wounds)
      else if is_wound s
      then keep_wound (std.search wound s) (store_wound std now line wounds)
      else some (plain_event std s, wounds)

pub record ChatEvent : Type 0 where
  pub chat_type : Bytes
  pub eos_id : Bytes
  pub steam_id : Bytes
  pub player_name : Bytes
  pub message : Bytes

-- Groups 4 and 5 are `[name] message`, groups 6 and 7 `name : message`.
chat_texts : Bytes → Match → Bytes × Bytes
chat_texts [] m = (trim_blanks (group m 6), trim_blanks (group m 7))
chat_texts (c ∷ name) m = (trim_blanks (c ∷ name), trim_blanks (group m 5))

chat_if : Bool → ChatEvent → Option ChatEvent
chat_if usable e = if usable then some e else none

chat_of : Match → Bytes × Bytes → Option ChatEvent
chat_of m texts = chat_if (not (equal (group m 3) []) && not (equal texts.1 [])) (record {
  chat_type = group m 1;
  eos_id = group m 2;
  steam_id = group m 3;
  player_name = texts.0;
  message = texts.1;
})

chat_match : Option Match → Option ChatEvent
chat_match none = none
chat_match (some m) = chat_of m (chat_texts (group m 4) m)

-- None for false, in which case the callers do not read the event.
pub parse_chat_raw : Std → Bytes → Option ChatEvent
parse_chat_raw std [] = none
parse_chat_raw std (c ∷ raw) = chat_match (std.search chat_relay (c ∷ raw))

ids_match : Option Match → List (Bytes × Bytes)
ids_match none = []
ids_match (some m) = (codes "eosId", group m 1) ∷ (codes "steamId", group m 2) ∷ []

pub parse_online_ids : Std → Bytes → List (Bytes × Bytes)
parse_online_ids std [] = []
parse_online_ids std (c ∷ ids) = ids_match (std.search online_ids (c ∷ ids))
