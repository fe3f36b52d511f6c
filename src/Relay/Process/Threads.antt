-- ===== src/Relay/Process/Threads.antt =====
-- The threads of `GameSvr` in relay/main.cpp: what a second start comes to.
use mbsquad.Prelude.{
  ℕ, suc, ◌+◌, ◌≤◌, ◌≡◌, refl, ap, subst, ◌∙◌, Bool, true, false, not, ◌||◌, List, [], ◌∷◌, ltb,
  arith, if◌then◌else◌, Bool-cases, inl, inr, both_branches,
}
use mbsquad.Prelude.Bytes.{Bytes, codes, equal}
use mbsquad.Relay.Process.{
  GameSvr, Program, default_game, is_nil, alive, terminated, config, set_status, Answers,
  start_threads, start, attempt, restart_delay, try_restart, process_ended, Event, started, stopped,
  ended, game_event, after_event, run_events,
}

-- As many processes as there are monitor threads, and no output thread but with a process.
pub record IsOnce (g : GameSvr) : Type 0 where
  pub counted : g.launched ≡ (if g.mon_joinable then 1 else 0)
  pub run_once : g.running ≡ true → g.mon_joinable ≡ true
  pub settled : equal g.st (codes "starting") ≡ false

unlaunched-IsOnce :
    (g g' : GameSvr)
    → g'.launched ≡ g.launched
    → g'.mon_joinable ≡ g.mon_joinable
    → (g'.running ≡ true → g.running ≡ true)
    → equal g'.st (codes "starting") ≡ false
    → IsOnce g
    → IsOnce g'
unlaunched-IsOnce g g' el em er es h = record {
  counted = el ∙ rw em h.counted;
  run_once = λ r. em ∙ h.run_once (er r);
  settled = es;
}

abbrev pub Alive : (GameSvr → Type 0) → Program → Type 0
Alive P terminated = Unit
Alive P (alive answer g) = P g

start_threads-IsOnce :
    (g : GameSvr)
    → g.launched ≡ suc (if g.mon_joinable then 1 else 0)
    → equal g.st (codes "starting") ≡ false
    → Alive IsOnce (start_threads g)
start_threads-IsOnce g h hs = elim (Bool-cases g.out_joinable) [
  | inl e ↦ rw e tt
  | inr e ↦ rw e (elim (Bool-cases g.mon_joinable) [
    | inl m ↦ rw m tt
    | inr m ↦ rw m (record { counted = h ∙ rw m refl; run_once = λ r. refl; settled = hs })
  ])
]

start-IsOnce : (a : Answers) (g : GameSvr) → IsOnce g → Alive IsOnce (start a g)
unfolding start equal
start-IsOnce a g h =
    let failed : IsOnce (set_status (codes "crashed") g) =
      unlaunched-IsOnce g _ refl refl (λ r. r) refl h in
    both_branches (Alive IsOnce) (g.running || equal g.st (codes "starting")) _ _ h (
      both_branches (Alive IsOnce) (is_nil g.exe || not a.exe_exists) _ _ h (
        both_branches (Alive IsOnce) a.created _ _ (start_threads-IsOnce _ (ap suc h.counted) refl)
          failed))

try_restart-IsOnce : (a : Answers) (g : GameSvr) → IsOnce g → Alive IsOnce (try_restart a g)
unfolding try_restart equal
try_restart-IsOnce a g h =
    both_branches (Alive IsOnce) (ltb g.max_restart_attempts (attempt a.now g).rc) _ _
      (unlaunched-IsOnce g (attempt a.now g) refl refl (λ r. r) h.settled h)
      (start-IsOnce _ _ (
        unlaunched-IsOnce g (set_status (codes "restarting") (attempt a.now g)) refl refl (λ r. r)
          refl h))

process_ended-IsOnce : (a : Answers) (g : GameSvr) → IsOnce g → Alive IsOnce (process_ended a g)
unfolding process_ended equal
process_ended-IsOnce a g h =
    let ended = record g { running = false; out_joinable = false } in
    let crashed : IsOnce (set_status (codes "crashed") ended) =
      unlaunched-IsOnce g _ refl refl (λ e. absurd (cc e)) refl h in
    both_branches (Alive IsOnce) g.stopping _ _
      (unlaunched-IsOnce g (set_status (codes "stopped") ended) refl refl (λ e. absurd (cc e)) refl
        h)
      (both_branches (Alive IsOnce) g.auto_r _ _ (try_restart-IsOnce a _ crashed) crashed)

game_event-IsOnce : (e : Event) (g : GameSvr) → IsOnce g → Alive IsOnce (game_event e g)
game_event-IsOnce (started a) g h = start-IsOnce a g h
game_event-IsOnce stopped g h =
    both_branches IsOnce g.running _ _
      (unlaunched-IsOnce g (record g { stopping = true }) refl refl (λ r. r) h.settled h) h
game_event-IsOnce (ended a) g h =
    both_branches (Alive IsOnce) g.running _ _ (process_ended-IsOnce a g h) h

after_event-IsOnce :
    (next : GameSvr → Program) (p : Program)
    → ((g : GameSvr) → IsOnce g → Alive IsOnce (next g))
    → Alive IsOnce p
    → Alive IsOnce (after_event next p)
after_event-IsOnce next terminated hn h = tt
after_event-IsOnce next (alive answer g) hn h = hn g h

run_events-IsOnce : (es : List Event) (g : GameSvr) → IsOnce g → Alive IsOnce (run_events es g)
unfolding run_events
run_events-IsOnce [] g h = h
run_events-IsOnce (e ∷ es) g h =
    after_event-IsOnce (run_events es) (game_event e g) (run_events-IsOnce es)
      (game_event-IsOnce e g h)

Alive-map :
    (P Q : GameSvr → Type 0) (p : Program) → ((g : GameSvr) → P g → Q g) → Alive P p → Alive Q p
Alive-map P Q terminated f h = tt
Alive-map P Q (alive answer g) f h = f g h

new_game-IsOnce :
    (e p : Bytes) (a : Bool) (attempts cooldown delay : ℕ)
    → IsOnce (config e p a attempts cooldown delay default_game)
unfolding equal
new_game-IsOnce e p a attempts cooldown delay = record {
  counted = refl;
  run_once = λ r. absurd (cc r);
  settled = refl;
}

launched-le : (g : GameSvr) → IsOnce g → g.launched ≤ 1
launched-le g h = ground (arith, h.counted)

-- However the process of the game is started, stopped, ended by itself and started again by the
-- monitor, as long as the relay is alive it has made at most one process.
pub run_events-launched :
    (es : List Event) (e p : Bytes) (a : Bool) (attempts cooldown delay : ℕ)
    → Alive
        (λ g. g.launched ≤ 1)
        (run_events es (config e p a attempts cooldown delay default_game))
run_events-launched es e p a attempts cooldown delay =
    Alive-map IsOnce (λ g. g.launched ≤ 1) (run_events es _) launched-le
      (run_events-IsOnce es _ (new_game-IsOnce e p a attempts cooldown delay))

-- The events at which the game's process is made: a start of a game that does not run, and the end of a
-- running one that the monitor thread starts again.
abbrev pub Launches : GameSvr → Event → Type 0
Launches g (started a) =
    (g.running ≡ false) × (is_nil g.exe ≡ false) × (a.exe_exists ≡ true) × (a.created ≡ true)
Launches g stopped = ⊥
Launches g (ended a) =
    (g.running ≡ true)
    × (g.stopping ≡ false)
    × (g.auto_r ≡ true)
    × (suc g.rc ≤ g.max_restart_attempts)
    × (is_nil g.exe ≡ false)
    × (a.exe_exists ≡ true)
    × (a.created ≡ true)

started_again :
    (a : Answers) (g : GameSvr)
    → g.mon_joinable ≡ true
    → equal g.st (codes "starting") ≡ false
    → Launches g (started a)
    → start a g ≡ terminated
unfolding start
started_again a g m settled (hr, he, hx, hc) = ground (arith, settled, m, hr, he, hx, hc)

restarted :
    (a : Answers) (g : GameSvr)
    → g.mon_joinable ≡ true
    → suc g.rc ≤ g.max_restart_attempts
    → (g.running ≡ false) × (is_nil g.exe ≡ false) × (a.exe_exists ≡ true) × (a.created ≡ true)
    → try_restart a g ≡ terminated
unfolding try_restart equal
restarted a g m few h =
    let g' = attempt a.now g in
    let within : ltb g.max_restart_attempts g'.rc ≡ false = ground (arith, few) in
    rw within (
      started_again (record a { now = a.now + restart_delay g' })
        (set_status (codes "restarting") g') m refl h)

third :
    (r s u : Bool) (w x y z : Program)
    → r ≡ true
    → s ≡ false
    → u ≡ true
    → (if r then (if s then x else if u then y else z) else w) ≡ y
third r s u w x y z hr hs hu = rw hr (rw hs (rw hu refl))

event_again :
    (e : Event) (g : GameSvr)
    → IsOnce g
    → g.launched ≡ 1
    → Launches g e
    → game_event e g ≡ terminated
unfolding process_ended
event_again (started a) g h hl now = started_again a g (ground (arith, h.counted, hl)) h.settled now
event_again stopped g h hl now = elim now [ ]
event_again (ended a) g h hl (hr, hs, ha, few, he, hx, hc) =
    let crashed =
      set_status (codes "crashed") (record g { running = false; out_joinable = false }) in
    third g.running g.stopping g.auto_r _ _ _ _ hr hs ha
    ∙ restarted a crashed (ground (arith, h.counted, hl)) few (refl, he, hx, hc)

-- Once a process was made, the next event that makes one ends the relay itself: a start of a game that
-- does not run, and, where restarts are set, the end of a running process, which the monitor starts
-- again while attempts are left.
pub run_events-terminated :
    (es : List Event) (e p : Bytes) (r : Bool) (attempts cooldown delay : ℕ) (answer : Bool)
    (g : GameSvr) (next : Event)
    → run_events es (config e p r attempts cooldown delay default_game) ≡ alive answer g
    → g.launched ≡ 1
    → Launches g next
    → game_event next g ≡ terminated
run_events-terminated es e p r attempts cooldown delay answer g next h = event_again next g (
    subst (Alive IsOnce) h (run_events-IsOnce es _ (new_game-IsOnce e p r attempts cooldown delay)))
