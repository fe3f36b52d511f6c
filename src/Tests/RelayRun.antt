-- ===== src/Tests/RelayRun.antt =====
-- Runs of the relay, relay/main.cpp: its lines, its process, its connection and its settings.
use mbsquad.Prelude.{◌≡◌, refl, Bool, true, false, List, [], ◌∷◌, ◌++◌, Option, none, some, arith}
use mbsquad.Prelude.Bytes.{Bytes, codes, equal, strip_prefix, split_at}
use mbsquad.Prelude.Maps.{bytes_key}
use mbsquad.Prelude.Find.{find}
use mbsquad.Prelude.Int.{ℤ}
use mbsquad.Relay.Files.{Disk, trim, skip_blanks, drop_blanks}
use mbsquad.Relay.Entries.{Outcome, returns}
use mbsquad.Relay.Requests.{request_key, c_string, parse_req, unban_connection}
use mbsquad.Relay.Requests.Key.{KeyChecked, unban_connection-KeyChecked}
use mbsquad.Relay.Sender.{LineDedup, SenderStep, added, flushed, add, flush, run, new_sender}
use mbsquad.Relay.Sender.Order.{offered, IsInOrder, run-IsInOrder}
use mbsquad.Relay.Process.{
  GameSvr, terminated, default_game, config, Answers, Event, started, ended, start, try_restart,
  process_ended, game_event, run_events,
}
use mbsquad.Relay.Process.Threads.{run_events-terminated}
use mbsquad.Relay.Life.{Turn, of_main, of_startup, of_signal, started_with, run_turns}
use mbsquad.Relay.Life.Ends.{IsIdle, run_turns-IsIdle}
use mbsquad.Relay.Link.{Link, Network, pack, exec, parse_chat}
use mbsquad.Relay.Link.Exec.{exec-single_packet}
use mbsquad.Relay.Settings.{Json, default_config, to_json, load_cfg, save_cfg}
use mbsquad.Relay.Settings.RoundTrip.{IsLawful, load_cfg-save_cfg}

abbrev steps : List SenderStep
steps =
    added (codes "first line")
    ∷ added (codes "short")
    ∷ added (codes "second line")
    ∷ added (codes "third line")
    ∷ flushed true
    ∷ []

-- A flush takes one batch; what is left is sent by the next one, if there is one.
run-steps : (run steps (new_sender 2)).buf ≡ codes "third line" ∷ []
unfolding run add flush
run-steps = refl

run-IsInOrder_example : IsInOrder 2 (offered steps) (run steps (new_sender 2))
run-IsInOrder_example = run-IsInOrder 2 steps

abbrev no_lines : LineDedup
no_lines = record { seen = []; max = 2 }

abbrev found : Answers
found = record { now = 100; exe_exists = true; created = true }

abbrev events : List Event
events = started found ∷ ended found ∷ []

abbrev running_game : GameSvr
running_game = record default_game {
  exe = codes "squad";
  auto_r = true;
  running = true;
  st = codes "running";
  start_t = 100;
  out_joinable = true;
  mon_joinable = true;
  launched = 1;
}

-- The restart that is asked for by the settings ends the relay.
restart_run : run_events events (config (codes "squad") [] true 3 300 5 default_game) ≡ terminated
unfolding run_events start process_ended try_restart equal
restart_run = refl

-- The end of the first process, which the monitor starts again.
run_events-terminated_example : game_event (ended found) running_game ≡ terminated
unfolding run_events start process_ended equal
run_events-terminated_example =
    run_events-terminated (started found ∷ []) (codes "squad") [] true 3 300 5 true running_game
      (ended found) refl refl (refl, refl, refl, omega arith, refl, refl, refl)

abbrev turns : List Turn
turns =
    of_main true false ∷ of_main true true ∷ of_startup true ∷ of_signal ∷ of_main true true ∷ []

run_turns-IsIdle_example : IsIdle (run_turns turns (started_with true))
run_turns-IsIdle_example = run_turns-IsIdle turns true

abbrev link : Link
link = record {
  connected = true;
  ok = true;
  id = 2;
  pass = [];
  reconnect_enabled = true;
  reconnect_interval_sec = 30;
  last_reconnect_attempt = 0;
  unread = [];
  sent = [];
}

abbrev network : Network
network = record {
  reachable = true;
  greeting = [];
  send_ok = true;
  arrives = pack 0 2 (codes "players") ++ [];
  now = 100;
}

exec-single_packet_example :
    ((exec network (codes "ListPlayers") link).0 ≡ [])
    × ((exec network (codes "ListPlayers") link).1.ok ≡ true)
exec-single_packet_example =
    exec-single_packet network (codes "ListPlayers") link 0 2 (codes "players") [] refl refl refl
      refl (omega arith) (omega arith)

-- Where the name is missing, the rest of the line is taken for it.
nameless :
    parse_chat (codes "[ChatAll] [Steam:7656 ] : hi")
    ≡ some (record {
      chat_type = codes "ChatAll";
      player_name = codes ": hi";
      message = codes "hi";
      steam_id = codes "7656";
    })
unfolding parse_chat split_at find strip_prefix trim skip_blanks drop_blanks
nameless = refl

data Value : Type 0 where
  text : Bytes → Value
  number : ℤ → Value
  flag : Bool → Value

abbrev as_text : Value → Option Bytes
as_text (text s) = some s
as_text _ = none

abbrev as_int : Value → Option ℤ
as_int (number n) = some n
as_int _ = none

abbrev as_flag : Value → Option Bool
as_flag (flag b) = some b
as_flag _ = none

abbrev values : Json Value
values = record {
  of_text = text;
  of_int = number;
  of_flag = flag;
  as_text = as_text;
  as_int = as_int;
  as_flag = as_flag;
  dump = λ o. codes "{}";
  parse = λ s. none;
}

-- A library that writes and reads these settings.
abbrev library : Json Value
library = record values { parse = λ s. some (to_json values default_config) }

library-IsLawful : IsLawful library
library-IsLawful = record { texts = λ s. refl; ints = λ n. refl; flags = λ b. refl }

abbrev empty_disk : Disk
empty_disk = record { files = []; writable = λ p. true }

load_cfg-save_cfg_example :
    load_cfg library
      (save_cfg library empty_disk (codes "relay-config.json") default_config)
      (codes "relay-config.json")
    ≡ default_config
load_cfg-save_cfg_example =
    load_cfg-save_cfg library library-IsLawful empty_disk (codes "relay-config.json") default_config
      refl (λ e. absurd (cc e)) refl

abbrev request : Bytes
request = codes "POST /api/unban HTTP/1.1\r\nX-API-Key: secret\r\n\r\n{}"

abbrev unbanned_id : Bytes → Bytes → Outcome Bytes
unbanned_id body key = returns (codes "7656")

-- The key of the request is the stored one.
request_key-secret : request_key request ≡ codes "secret"
unfolding request_key find strip_prefix trim skip_blanks drop_blanks
request_key-secret = refl

unban_connection-KeyChecked_example :
    KeyChecked unbanned_id
      (codes "/squad/Saved/Logs")
      (codes "secret")
      empty_disk
      request
      (parse_req (c_string request))
      (unban_connection unbanned_id (codes "/squad/Saved/Logs") (codes "secret") empty_disk request)
unban_connection-KeyChecked_example =
    unban_connection-KeyChecked unbanned_id (codes "/squad/Saved/Logs") (codes "secret") empty_disk
      request
