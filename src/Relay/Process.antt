-- ===== src/Relay/Process.antt =====
-- relay/main.cpp, the game server's process: `GameSvr`. What the system answers is an argument of
-- each call: the time, whether the program is there, and whether its process can be made. Assigning to
-- a `std::thread` that is joinable ends the program, as the standard library documents it.
pub mod Threads
use mbsquad.Prelude.{
  ℕ, suc, ◌+◌, ◌-◌, ◌*◌, Bool, true, false, not, ◌&&◌, ◌||◌, List, [], ◌∷◌, ltb, ◌==◌,
  if◌then◌else◌,
}
use mbsquad.Prelude.Bytes.{Bytes, codes, equal}

pub record GameSvr : Type 0 where
  pub exe : Bytes
  pub params : Bytes
  pub auto_r : Bool
  pub running : Bool
  pub stopping : Bool
  pub st : Bytes
  pub rc : ℕ
  pub lct : ℕ
  pub start_t : ℕ
  pub max_restart_attempts : ℕ
  pub restart_cooldown_sec : ℕ
  pub restart_base_delay_sec : ℕ
  -- Whether `outT_` and `monT_` are joinable, and the processes made so far.
  pub out_joinable : Bool
  pub mon_joinable : Bool
  pub launched : ℕ

-- The whole program, with what the call answers, or its end by `std::terminate`.
pub data Program : Type 0 where
  alive : Bool → GameSvr → Program
  terminated : Program

abbrev pub default_game : GameSvr
default_game = record {
  exe = [];
  params = [];
  auto_r = false;
  running = false;
  stopping = false;
  st = codes "stopped";
  rc = 0;
  lct = 0;
  start_t = 0;
  max_restart_attempts = 3;
  restart_cooldown_sec = 300;
  restart_base_delay_sec = 5;
  out_joinable = false;
  mon_joinable = false;
  launched = 0;
}

abbrev pub config : Bytes → Bytes → Bool → ℕ → ℕ → ℕ → GameSvr → GameSvr
config e p a max_rst cooldown base_delay g = record g {
  exe = e;
  params = p;
  auto_r = a;
  max_restart_attempts = max_rst;
  restart_cooldown_sec = cooldown;
  restart_base_delay_sec = base_delay;
}

abbrev pub set_status : Bytes → GameSvr → GameSvr
set_status s g = record g { st = s }

pub record Answers : Type 0 where
  pub now : ℕ
  pub exe_exists : Bool
  pub created : Bool

abbrev pub is_nil : Bytes → Bool
is_nil [] = true
is_nil (c ∷ s) = false

-- The two assignments of the threads.
abbrev pub start_threads : GameSvr → Program
start_threads g =
    if g.out_joinable || g.mon_joinable
    then terminated
    else alive true (record g { out_joinable = true; mon_joinable = true })

abbrev pub launch : ℕ → GameSvr → Program
launch now g = start_threads (
    set_status (codes "running")
      (record g { running = true; stopping = false; start_t = now; launched = suc g.launched }))

unfoldable pub start : Answers → GameSvr → Program
start a g =
    if g.running || equal g.st (codes "starting")
    then alive false g
    else if is_nil g.exe || not a.exe_exists
    then alive false g
    else if a.created
    then launch a.now (set_status (codes "starting") g)
    else alive false (set_status (codes "crashed") (set_status (codes "starting") g))

-- It only asks the process to end.
abbrev pub stop : GameSvr → GameSvr
stop g = if g.running then record g { stopping = true } else g

abbrev pub attempt : ℕ → GameSvr → GameSvr
attempt now g = record g {
  rc = suc (if not (g.lct == 0) && ltb g.restart_cooldown_sec (now - g.lct) then 0 else g.rc);
  lct = now;
}

abbrev pub restart_delay : GameSvr → ℕ
restart_delay g = g.restart_base_delay_sec * g.rc

abbrev pub restart_after : Answers → GameSvr → Program
restart_after a g =
    if ltb g.max_restart_attempts g.rc
    then alive false g
    else start (record a { now = a.now + restart_delay g }) (set_status (codes "restarting") g)

unfoldable pub try_restart : Answers → GameSvr → Program
try_restart a g = restart_after a (attempt a.now g)

-- The rest of the monitor thread, once the process has ended: it joins the thread of the output.
unfoldable pub process_ended : Answers → GameSvr → Program
process_ended a g =
    let ended = record g { running = false; out_joinable = false } in
    if g.stopping
    then alive true (set_status (codes "stopped") ended)
    else if g.auto_r
    then try_restart a (set_status (codes "crashed") ended)
    else alive true (set_status (codes "crashed") ended)

-- What happens to the process, one event after the other. `ended` is the end of a running process.
pub data Event : Type 0 where
  started : Answers → Event
  stopped : Event
  ended : Answers → Event

abbrev pub game_event : Event → GameSvr → Program
game_event (started a) g = start a g
game_event stopped g = alive true (stop g)
game_event (ended a) g = if g.running then process_ended a g else alive true g

abbrev pub after_event : (GameSvr → Program) → Program → Program
after_event next terminated = terminated
after_event next (alive answer g) = next g

-- The answer of the last event is the run's.
unfoldable pub run_events : List Event → GameSvr → Program
run_events [] g = alive true g
run_events (e ∷ es) g = after_event (run_events es) (game_event e g)
