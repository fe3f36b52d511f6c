-- ===== src/Relay/Life/Ends.antt =====
-- What becomes of the program of relay/main.cpp when it is started.
use mbsquad.Prelude.{
  ℕ, suc, ◌+◌, ◌≤◌, ◌≡◌, refl, ap, min, Bool, true, false, List, [], ◌∷◌, arith, if◌then◌else◌,
}
use mbsquad.Relay.Life.{
  MainAt, opening, looping, accepting, closing, returned, StartupAt, absent, sleeping, relaying,
  finished, Life, started_with, shutdown_all, main_turn, startup_turn, Turn, of_main, of_startup,
  of_signal, take_turn, run_turns,
}

-- How far the main thread is on the way that does not go round the loop.
abbrev pub progress : MainAt → ℕ
progress opening = 0
progress looping = 1
progress accepting = 1
progress closing = 2
progress returned = 3

abbrev pub is_accepting : MainAt → Bool
is_accepting accepting = true
is_accepting _ = false

abbrev pub is_relaying : StartupAt → Bool
is_relaying relaying = true
is_relaying _ = false

abbrev pub main_turns : List Turn → ℕ
main_turns [] = 0
main_turns (of_main ok posts ∷ ts) = suc (main_turns ts)
main_turns (of_startup a ∷ ts) = main_turns ts
main_turns (of_signal ∷ ts) = main_turns ts

-- The relay is idle.
pub record IsIdle (s : Life) : Type 0 where
  pub stopped : s.g_running ≡ false
  pub not_started : s.g_relay_started ≡ false
  pub none_served : s.served ≡ 0
  pub not_accepting : is_accepting s.main_at ≡ false
  pub not_relaying : is_relaying s.startup_at ≡ false

moved-IsIdle :
    (s : Life) (m : MainAt) (t : StartupAt)
    → is_accepting m ≡ false
    → is_relaying t ≡ false
    → IsIdle s
    → IsIdle (record s { main_at = m; startup_at = t })
moved-IsIdle s m t hm ht h = record {
  stopped = h.stopped;
  not_started = h.not_started;
  none_served = h.none_served;
  not_accepting = hm;
  not_relaying = ht;
}

shutdown_all-IsIdle : (s : Life) → IsIdle s → IsIdle (shutdown_all s)
shutdown_all-IsIdle s h = record {
  stopped = refl;
  not_started = h.not_started;
  none_served = h.none_served;
  not_accepting = h.not_accepting;
  not_relaying = h.not_relaying;
}

main_turn-IsIdle :
    (ok posts : Bool) (m : MainAt) (s : Life)
    → s.main_at ≡ m
    → IsIdle s
    → IsIdle (main_turn ok posts m s)
main_turn-IsIdle true posts opening s e h =
    moved-IsIdle s looping s.startup_at refl h.not_relaying h
main_turn-IsIdle false posts opening s e h =
    moved-IsIdle s closing s.startup_at refl h.not_relaying h
main_turn-IsIdle ok posts looping s e h =
    moved-IsIdle s (if s.g_running then accepting else closing) s.startup_at (rw h.stopped refl)
      h.not_relaying h
main_turn-IsIdle ok posts accepting s e h = absurd (cc (e, h.not_accepting))
main_turn-IsIdle ok posts closing s e h =
    let s' = shutdown_all s in
    moved-IsIdle s' returned s'.startup_at refl h.not_relaying (shutdown_all-IsIdle s h)
main_turn-IsIdle ok posts returned s e h = h

startup_turn-IsIdle :
    (authorized : Bool) (t : StartupAt) (s : Life)
    → s.startup_at ≡ t
    → IsIdle s
    → IsIdle (startup_turn authorized t s)
startup_turn-IsIdle authorized absent s e h = h
startup_turn-IsIdle authorized sleeping s e h =
    moved-IsIdle s s.main_at (if s.g_running then relaying else finished) h.not_accepting
      (rw h.stopped refl) h
startup_turn-IsIdle authorized relaying s e h = absurd (cc (e, h.not_relaying))
startup_turn-IsIdle authorized finished s e h = h

take_turn-IsIdle : (t : Turn) (s : Life) → IsIdle s → IsIdle (take_turn t s)
unfolding take_turn
take_turn-IsIdle (of_main ok posts) s h = main_turn-IsIdle ok posts s.main_at s refl h
take_turn-IsIdle (of_startup authorized) s h = startup_turn-IsIdle authorized s.startup_at s refl h
take_turn-IsIdle of_signal s h = shutdown_all-IsIdle s h

run_from-IsIdle : (ts : List Turn) (s : Life) → IsIdle s → IsIdle (run_turns ts s)
unfolding run_turns
run_from-IsIdle [] s h = h
run_from-IsIdle (t ∷ ts) s h = run_from-IsIdle ts (take_turn t s) (take_turn-IsIdle t s h)

started_with-IsIdle : (configured : Bool) → IsIdle (started_with configured)
started_with-IsIdle true = record {
  stopped = refl;
  not_started = refl;
  none_served = refl;
  not_accepting = refl;
  not_relaying = refl;
}
started_with-IsIdle false = record {
  stopped = refl;
  not_started = refl;
  none_served = refl;
  not_accepting = refl;
  not_relaying = refl;
}

-- In whatever order the threads and a signal come, whatever they are answered, and whether or not there
-- is a stored configuration: the relay is never started, and no connection is ever served.
pub run_turns-IsIdle :
    (ts : List Turn) (configured : Bool) → IsIdle (run_turns ts (started_with configured))
run_turns-IsIdle ts configured = run_from-IsIdle ts _ (started_with-IsIdle configured)

main_turn-progress :
    (ok posts : Bool) (m : MainAt) (s : Life)
    → s.main_at ≡ m
    → IsIdle s
    → min 3 (suc (progress m)) ≤ progress (main_turn ok posts m s).main_at
main_turn-progress true posts opening s e h = omega arith
main_turn-progress false posts opening s e h = omega arith
main_turn-progress ok posts looping s e h = rw h.stopped (omega arith)
main_turn-progress ok posts accepting s e h = absurd (cc (e, h.not_accepting))
main_turn-progress ok posts closing s e h = omega arith
main_turn-progress ok posts returned s e h = omega (arith, ap progress e)

startup_turn-main_at :
    (authorized : Bool) (t : StartupAt) (s : Life)
    → s.startup_at ≡ t
    → IsIdle s
    → (startup_turn authorized t s).main_at ≡ s.main_at
startup_turn-main_at authorized absent s e h = refl
startup_turn-main_at authorized sleeping s e h = refl
startup_turn-main_at authorized relaying s e h = absurd (cc (e, h.not_relaying))
startup_turn-main_at authorized finished s e h = refl

take_turn-progress :
    (t : Turn) (s : Life)
    → IsIdle s
    → min 3 (main_turns (t ∷ []) + progress s.main_at) ≤ progress (take_turn t s).main_at
unfolding take_turn
take_turn-progress (of_main ok posts) s h =
    omega (arith, main_turn-progress ok posts s.main_at s refl h)
take_turn-progress (of_startup authorized) s h =
    omega (arith, ap progress (startup_turn-main_at authorized s.startup_at s refl h))
take_turn-progress of_signal s h = omega arith

main_turns-cons :
    (t : Turn) (ts : List Turn) → main_turns (t ∷ ts) ≡ main_turns (t ∷ []) + main_turns ts
main_turns-cons (of_main ok posts) ts = omega arith
main_turns-cons (of_startup authorized) ts = omega arith
main_turns-cons of_signal ts = omega arith

run_turns-progress :
    (ts : List Turn) (s : Life)
    → IsIdle s
    → min 3 (main_turns ts + progress s.main_at) ≤ progress (run_turns ts s).main_at
unfolding run_turns
run_turns-progress [] s h = omega arith
run_turns-progress (t ∷ ts) s h = omega (
  arith,
  main_turns-cons t ts,
  take_turn-progress t s h,
  run_turns-progress ts (take_turn t s) (take_turn-IsIdle t s h),
)

at_the_end : (m : MainAt) → 3 ≤ progress m → m ≡ returned
at_the_end opening h = ground arith
at_the_end looping h = ground arith
at_the_end accepting h = ground arith
at_the_end closing h = ground arith
at_the_end returned h = refl

-- Among the other threads and signals, three turns of the main thread are its last ones.
pub run_turns-returned :
    (ts : List Turn) (configured : Bool)
    → 3 ≤ main_turns ts
    → (run_turns ts (started_with configured)).main_at ≡ returned
run_turns-returned ts configured h = at_the_end _ (
    omega (arith, run_turns-progress ts (started_with configured) (started_with-IsIdle configured)))
