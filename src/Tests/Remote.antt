-- ===== src/Tests/Remote.antt =====
-- Runs of the poller of src/core/remote_api_poller.cpp.
use mbsquad.Prelude.{
  arith, ◌+◌, ◌≤◌, Bool, List, ◌≡◌, refl, true, false, [], ◌∷◌, Option, none, some, if◌then◌else◌,
}
use mbsquad.Prelude.Bytes.{Bytes, codes, equal, split_at}
use mbsquad.Prelude.Maps.{lookup}
use mbsquad.Prelude.Int.{pos}
use mbsquad.Remote.Fields.{Values, resolve_field, resolve_loop}
use mbsquad.Remote.Fields.Paths.{dotted, follow, resolve_field-dotted}
use mbsquad.Remote.Leaderboard.{PlayerInfo, fetch_plugin_leaderboard}
use mbsquad.Remote.Leaderboard.Rounds.{Ends, fetch_plugin_leaderboard-Ends}
use mbsquad.Remote.Poller.{id_key, Tables, RemoteApiPoller, Round, process_players, poll_loop}
use mbsquad.Remote.Poller.Players.{row_after, last_name, lookup-process_players}
use mbsquad.Remote.Poller.Pings.{log_failures, poll_loop-pings}

-- A value is an object with one key, or a text.
data Value : Type 0 where
  object : Bytes → Value → Value
  text : Bytes → Value

abbrev get : Value → Bytes → Option Value
get (object key v) k = if equal key k then some v else none
get (text s) k = none

abbrev text_of : Value → Option Bytes
text_of (object key v) = none
text_of (text s) = some s

abbrev values : Values Value
values = record {
  null = text [];
  is_null = λ j. false;
  get = get;
  items = λ j. some (j ∷ []);
  text = text_of;
  number = λ j. none;
  dump = λ j. [];
  parse = λ s. some (object (codes "leaderboard") (text s));
  value = λ j key default. some default;
  number_value = λ j key default. some default;
  flag_value = λ j key default. some true;
}

abbrev nested : Value
nested = object (codes "data") (object (codes "list") (text (codes "end")))

nested_path : resolve_field values nested (codes "data.list") ≡ text (codes "end")
unfolding resolve_field resolve_loop split_at equal
nested_path = refl

resolve_field-dotted_example :
    resolve_field values nested (dotted (codes "data" ∷ codes "list" ∷ []))
    ≡ follow values (codes "data" ∷ codes "list" ∷ []) nested
resolve_field-dotted_example =
    resolve_field-dotted values (codes "data" ∷ codes "list" ∷ []) nested (
      ((λ e. absurd (cc e)), (refl, (refl, (refl, (refl, tt))))),
      (((λ e. absurd (cc e)), (refl, (refl, (refl, (refl, tt))))), tt),
    )

fetch_plugin_leaderboard-Ends_example : Ends 3 (
    fetch_plugin_leaderboard values
      (λ j. some (codes "7656"))
      (λ path. codes "{}")
      (codes "key")
      (codes "1")
      100
      3)
fetch_plugin_leaderboard-Ends_example =
    fetch_plugin_leaderboard-Ends values (λ j. some (codes "7656")) (λ path. codes "{}")
      (codes "key") (codes "1") 100 3

abbrev ann : PlayerInfo
ann = record {
  steam_id = codes "7656";
  name = codes "Ann";
  points = pos 5;
  team_id = pos 1;
  squad_id = pos 2;
}

abbrev tables : Tables
tables = record {
  players =
      (
        (1, codes "7656"),
        record {
          name = codes "Anna";
          playtime = 60;
          first_seen = codes "2024-01-01";
          last_seen = codes "2024-01-02";
          last_ip = some (codes "10.0.0.1");
        },
      )
      ∷ [];
  points = [];
  logs = [];
  sent = [];
}

lookup-process_players_example :
    lookup (1, codes "7656") (process_players 1 (codes "2024-02-01") (ann ∷ []) tables).players
    ≡ row_after
        (codes "2024-02-01")
        (last_name (codes "7656") (ann ∷ []))
        (lookup (1, codes "7656") tables.players)
lookup-process_players_example =
    lookup-process_players 1 (codes "2024-02-01") (ann ∷ []) tables (codes "7656")

abbrev poller : RemoteApiPoller
poller = record { server_id = 1; last_event_time = []; fail_count = 0; pings = 0 }

-- Nothing answers, and once the message of a handler cannot be written either.
abbrev failing : Bool → Round
failing log_throws = record {
  pong = none;
  players = none;
  events = λ since. none;
  leaderboard = none;
  log_throws = log_throws;
  now = codes "2024-02-01";
}

abbrev rounds : List Round
rounds = failing false ∷ failing true ∷ failing false ∷ []

poll_loop-pings_example :
    ((poll_loop rounds (poller, tables)).0.pings ≡ 0)
    × ((poll_loop rounds (poller, tables)).0.fail_count ≤ 0 + log_failures rounds)
unfolding log_failures
poll_loop-pings_example = poll_loop-pings rounds (poller, tables) (omega arith)
