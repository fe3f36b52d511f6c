-- ===== src/Relay/Life.antt =====
-- relay/main.cpp, the program as a whole: `main`, `httpServer`, `startRelay` and `shutdownAll`, as
-- the turns that the threads take on `g_running`. What the sockets and the panel answer is an argument
-- of each turn.
pub mod Ends
use mbsquad.Prelude.{ℕ, suc, Bool, true, false, List, [], ◌∷◌, if◌then◌else◌}

-- Where the main thread stands: before `httpServer` has its socket, before the test of its loop, before
-- `accept`, before the last `shutdownAll`, and at the end.
pub data MainAt : Type 0 where
  opening : MainAt
  looping : MainAt
  accepting : MainAt
  closing : MainAt
  returned : MainAt

-- Where the startup thread stands, if there is one: in its sleep, before `startRelay`, at its end.
pub data StartupAt : Type 0 where
  absent : StartupAt
  sleeping : StartupAt
  relaying : StartupAt
  finished : StartupAt

pub record Life : Type 0 where
  pub main_at : MainAt
  pub startup_at : StartupAt
  pub g_running : Bool
  pub g_relay_started : Bool
  -- The connections that were handed to a thread.
  pub served : ℕ

-- The start of `main`; the thread is made where the stored configuration has a token and a key.
abbrev pub started_with : Bool → Life
started_with configured = record {
  main_at = opening;
  startup_at = if configured then sleeping else absent;
  g_running = false;
  g_relay_started = false;
  served = 0;
}

-- It also stops and joins what runs, which is not followed here.
abbrev pub shutdown_all : Life → Life
shutdown_all s = record s { g_running = false }

-- The call in `POST /api/config` makes a new startup thread.
abbrev pub serve : Bool → Life → Life
serve posts_config s = record s {
  main_at = looping;
  startup_at = if posts_config then sleeping else s.startup_at;
  served = suc s.served;
}

-- A turn of the main thread; the first answer is that of the socket, the second whether the request
-- that comes in stores a configuration.
abbrev pub main_turn : Bool → Bool → MainAt → Life → Life
main_turn ok posts_config opening s = record s { main_at = if ok then looping else closing }
main_turn ok posts_config looping s = record s {
  main_at = if s.g_running then accepting else closing;
}
main_turn ok posts_config accepting s =
    if ok then serve posts_config s else record s { main_at = closing }
main_turn ok posts_config closing s = record (shutdown_all s) { main_at = returned }
main_turn ok posts_config returned s = s

-- `startRelay`, up to where it sets `g_running`; the answer is whether the panel takes the key.
abbrev pub start_relay : Bool → Life → Life
start_relay authorized s =
    if s.g_relay_started
    then s
    else if authorized
    then record s { g_relay_started = true; g_running = true }
    else s

abbrev pub startup_turn : Bool → StartupAt → Life → Life
startup_turn authorized absent s = s
startup_turn authorized sleeping s = record s {
  startup_at = if s.g_running then relaying else finished;
}
startup_turn authorized relaying s = record (start_relay authorized s) { startup_at = finished }
startup_turn authorized finished s = s

pub data Turn : Type 0 where
  of_main : Bool → Bool → Turn
  of_startup : Bool → Turn
  of_signal : Turn

unfoldable pub take_turn : Turn → Life → Life
take_turn (of_main ok posts_config) s = main_turn ok posts_config s.main_at s
take_turn (of_startup authorized) s = startup_turn authorized s.startup_at s
take_turn of_signal s = shutdown_all s

unfoldable pub run_turns : List Turn → Life → Life
run_turns [] s = s
run_turns (t ∷ ts) s = run_turns ts (take_turn t s)
