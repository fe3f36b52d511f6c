-- ===== src/Remote/Poller/Pings.antt =====
-- When the poller of src/core/remote_api_poller.cpp asks whether a panel is there.
use mbsquad.Prelude.{
  ℕ, ◌+◌, ◌%◌, ◌≤◌, ◌<◌, ◌≡◌, refl, ap, ◌∙◌, Bool, true, false, ◌&&◌, List, [], ◌∷◌, Option, none,
  some, ltb, ◌==◌, arith, Bool-cases, inl, inr,
}
use mbsquad.Remote.Leaderboard.{PlayerInfo, EventInfo}
use mbsquad.Remote.Poller.{
  World, Round, Part, goes, escapes, handled, take_players, take_events, take_leaders, after_part,
  poll_once, counted, poll_round, poll_loop,
}

-- A part of a round asks nothing and counts nothing, and only the log lets an exception out of it.
abbrev Keeps : Round → World → Part → Type 0
Keeps r v (goes w) = (w.0.pings ≡ v.0.pings) × (w.0.fail_count ≡ v.0.fail_count)
Keeps r v (escapes w) =
    (w.0.pings ≡ v.0.pings) × (w.0.fail_count ≡ v.0.fail_count) × (r.log_throws ≡ true)

handled-Keeps : (r : Round) (w : World) → Keeps r w (handled r w)
handled-Keeps r w = elim (Bool-cases r.log_throws) [
  | inl bad ↦ rw bad (refl, refl, refl)
  | inr good ↦ rw good (refl, refl)
]

take_players-Keeps :
    (r : Round) (o : Option (List PlayerInfo)) (w : World) → Keeps r w (take_players r o w)
take_players-Keeps r none w = handled-Keeps r w
take_players-Keeps r (some ps) w = (refl, refl)

take_events-Keeps :
    (r : Round) (o : Option (List EventInfo)) (w : World) → Keeps r w (take_events r o w)
take_events-Keeps r none w = handled-Keeps r w
take_events-Keeps r (some es) w = (refl, refl)

take_leaders-Keeps :
    (r : Round) (o : Option (List PlayerInfo)) (w : World) → Keeps r w (take_leaders r o w)
take_leaders-Keeps r none w = handled-Keeps r w
take_leaders-Keeps r (some []) w = (refl, refl)
take_leaders-Keeps r (some (p ∷ ps)) w = (refl, refl)

Keeps-trans : (r : Round) (v w : World) (q : Part) → Keeps r v (goes w) → Keeps r w q → Keeps r v q
Keeps-trans r v w (goes u) (hp, hf) (kp, kf) = (kp ∙ hp, kf ∙ hf)
Keeps-trans r v w (escapes u) (hp, hf) (kp, kf, bad) = (kp ∙ hp, kf ∙ hf, bad)

after_part-Keeps :
    (r : Round) (v : World) (q : Part) (next : World → Part)
    → Keeps r v q
    → ((w : World) → Keeps r w (next w))
    → Keeps r v (after_part q next)
after_part-Keeps r v (escapes w) next h hn = h
after_part-Keeps r v (goes w) next h hn = Keeps-trans r v w (next w) h (hn w)

poll_once-Keeps : (r : Round) (w : World) → Keeps r w (poll_once r w)
unfolding poll_once
poll_once-Keeps r w =
    after_part-Keeps r w _ _
      (after_part-Keeps r w (take_players r r.players w) _ (take_players-Keeps r r.players w)
        (λ w1. take_events-Keeps r (r.events w1.0.last_event_time) w1))
      (take_leaders-Keeps r r.leaderboard)

abbrev pub as_number : Bool → ℕ
as_number true = 1
as_number false = 0

-- The rounds in which writing to the log throws.
unfoldable pub log_failures : List Round → ℕ
log_failures [] = 0
log_failures (r ∷ rs) = as_number r.log_throws + log_failures rs

counted-Keeps :
    (r : Round) (v : World) (q : Part)
    → Keeps r v q
    → ((counted q).0.pings ≡ v.0.pings)
      × ((counted q).0.fail_count ≤ v.0.fail_count + as_number r.log_throws)
unfolding counted
counted-Keeps r v (goes w) (hp, hf) = (hp, omega arith)
counted-Keeps r v (escapes w) (hp, hf, bad) = (hp, rw bad (omega (arith, hf)))

no_ping : (n : ℕ) → n < 5 → (ltb 0 n && n % 5 == 0) ≡ false
no_ping n h = ground (arith, h)

poll_round-counted :
    (r : Round) (w : World) → w.0.fail_count < 5 → poll_round r w ≡ counted (poll_once r w)
unfolding poll_round
poll_round-counted r w h = rw (no_ping w.0.fail_count h) refl

-- Whatever the adapter answers and throws, as long as the count of failures and the rounds in which
-- writing to the log throws are together less than five: the count grows by at most those rounds, and
-- the adapter is never asked whether it is there.
pub poll_loop-pings :
    (rs : List Round) (w : World)
    → w.0.fail_count + log_failures rs < 5
    → ((poll_loop rs w).0.pings ≡ w.0.pings)
      × ((poll_loop rs w).0.fail_count ≤ w.0.fail_count + log_failures rs)
unfolding poll_loop log_failures
poll_loop-pings [] w few = (refl, omega arith)
poll_loop-pings (r ∷ rs) w few =
    let round = poll_round-counted r w (omega arith) in
    let kept = counted-Keeps r w (poll_once r w) (poll_once-Keeps r w) in
    let one : (poll_round r w).0.fail_count ≤ w.0.fail_count + as_number r.log_throws =
      rw round kept.1 in
    let later = poll_loop-pings rs (poll_round r w) (omega (arith, few, one)) in
    (later.0 ∙ ap (λ v. v.0.pings) round ∙ kept.0, omega (arith, later.1, one))
