-- ===== src/Tests/Events.antt =====
-- Runs of the event routes.
use mbsquad.Prelude.{
  ℕ, ◌+◌, false, List, [], ◌∷◌, Option, none, some, if◌then◌else◌, ◌≡◌, refl, ap, ◌∙◌, arith,
}
use mathlib.Core.Option.{some-injective}
use mbsquad.Prelude.Bytes.{Bytes, codes, equal, contains, strip_prefix}
use mbsquad.Prelude.Find.{find}
use mbsquad.Prelude.Int.{pos, pos_part, eqb_ℤ}
use mbsquad.Prelude.Maps.{bytes_key, lookup}
use mbsquad.Core.Numbers.{safe_stoi, stoi, read_digits, digits_value, in_range}
use mbsquad.Logs.Names.{trim_blanks, preprocess_invalid_ids, replace_ids}
use mbsquad.Logs.Patterns.{Pattern, die, Match, Std}
use mbsquad.Logs.Kills.{is_null, credited, death_line, die_event}
use mbsquad.Logs.Lines.{is_death, process_line}
use mbsquad.Logs.Players.{PlayerInfo}
use mbsquad.Events.{
  Module, ChatRow, Keys, validate_relay_api_key, validate_relay_server_access, both_on_team,
  is_team_kill, update_team_map,
}
use mbsquad.Events.Kills.{Counts, on_kill}
use mbsquad.Events.Lines.{Clock, Times, on_event, on_events, processed, run_lines, handle_raw}
use mbsquad.Events.Access.{Owns, handle_raw-unowned}
use mbsquad.Events.Teams.{last_entry, is_team_kill-update_team_map}
use mbsquad.Events.Counted.{broadcasts, total, handle_raw-total}

abbrev died : Match
died =
    []
    ∷ []
    ∷ []
    ∷ codes "Bo"
    ∷ codes "90.0"
    ∷ codes "Al"
    ∷ codes "00b"
    ∷ codes "76561198000000002"
    ∷ codes "c1"
    ∷ codes "BP_Knife_C"
    ∷ []

abbrev only_deaths : Pattern → Bytes → Option Match
only_deaths die s = some died
only_deaths _ s = none

abbrev parser : Std
parser = record { Double = ℕ; stod = λ _. none; double_text = λ _. []; search = only_deaths }

abbrev empty_module : Module
empty_module = record {
  settings = [];
  team_map = [];
  live_cache = [];
  last_suicide_time = [];
  players = [];
  chat_logs = [];
  effects = [];
}

abbrev times : Times
times = record {
  clock = record { utc = 1000; local = 29800 };
  steady = 5000;
  suicide_window = 10000;
  windows = record { dedup = 3000; expiry = 30000 };
}

abbrev keys : Keys
keys = (codes "k1", codes "1") ∷ (codes "k2", codes "2") ∷ []

abbrev one_death : List Bytes
one_death = codes "LogSquadTrace: Die()" ∷ []

abbrev one_kill : Counts
one_kill = record { kill = 1; wound = 0; revive = 0; chat = 0 }

handled :
    (handle_raw parser keys times (codes "1") (codes "k1") none one_death [] empty_module).0
    ≡ processed one_kill
unfolding handle_raw validate_relay_server_access validate_relay_api_key lookup equal eqb_ℤ
    safe_stoi stoi read_digits digits_value in_range run_lines process_line is_death contains
    strip_prefix preprocess_invalid_ids replace_ids find die_event credited death_line is_null
    trim_blanks on_events on_event on_kill
handled = refl

handle_raw-total_example :
    broadcasts
      (handle_raw parser keys times
        (codes "1")
        (codes "k1")
        none
        one_death
        []
        empty_module).2.effects
    ≡ broadcasts [] + total one_kill
handle_raw-total_example =
    handle_raw-total parser keys times (codes "1") (codes "k1") none one_death [] empty_module
      one_kill handled

other_key : Owns keys (codes "k2") (safe_stoi (codes "1") (pos 0)) → ⊥
unfolding lookup equal safe_stoi stoi read_digits digits_value in_range
other_key (id, found, same) =
    let second : codes "2" ≡ id = some-injective (codes "2") id found in
    let number : pos 2 ≡ pos 1 = ap (λ s. safe_stoi s (pos 0)) second ∙ same in
    omega (arith, ap pos_part number)

handle_raw-unowned_example :
    ((handle_raw parser keys times (codes "1") (codes "k2") none one_death [] empty_module).1 ≡ [])
    × ((handle_raw parser keys times (codes "1") (codes "k2") none one_death [] empty_module).2
        ≡ empty_module)
handle_raw-unowned_example =
    handle_raw-unowned parser keys times (codes "1") (codes "k2") none one_death [] empty_module
      other_key

abbrev listed : Bytes → Bytes → PlayerInfo
listed id team = record {
  rcon_id = pos 1;
  eos_id = [];
  steam_id = id;
  name = id;
  team_id = team;
  squad_id = [];
  is_leader = false;
  role = [];
}

abbrev squad : List PlayerInfo
squad = listed (codes "7") (codes "1") ∷ listed (codes "8") (codes "1") ∷ []

is_team_kill-update_team_map_example :
    is_team_kill (update_team_map (pos 1) squad empty_module) (pos 1) (codes "7") (codes "8") ≡ (
      if eqb_ℤ (pos 1) (pos 1)
      then both_on_team (last_entry (codes "7") squad none) (last_entry (codes "8") squad none)
      else is_team_kill empty_module (pos 1) (codes "7") (codes "8"))
is_team_kill-update_team_map_example =
    is_team_kill-update_team_map (pos 1) (pos 1) squad empty_module (codes "7") (codes "8")

abbrev message : ChatRow
message = record {
  server_id = pos 1;
  player_name = codes "p";
  steam_id = codes "7";
  message = codes "qd";
  type = codes "all";
  timestamp = 0;
}

-- Two hours later, with a local time eight hours ahead.
abbrev clock_at : ℕ → Clock
clock_at utc = record { utc = utc; local = utc + 28800 }
