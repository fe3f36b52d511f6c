-- ===== src/Plugins/Chat/SignIn.antt =====
-- The reward for signing in, over two messages of a player.
use mbsquad.Prelude.{
  ℕ, ◌≤◌, Bool, true, ◌&&◌, List, [], ◌∷◌, Option, none, some, ◌==◌, if◌then◌else◌, max, ◌≡◌, refl,
  ap, sym, subst, ◌∙◌, arith, All, Bool-cases, Option-cases, inl, inr,
}
use mathlib.Core.Option.{some-injective}
use mbsquad.Prelude.Bytes.{Bytes, codes, equal, equal_refl}
use mbsquad.Prelude.Int.{ℤ, pos, ltb_ℤ, ◌-ℤ◌}
use mbsquad.Core.Settings.{get_setting_int}
use mbsquad.Points.{PointsRow, find_points}
use mbsquad.Plugins.Chat.{
  Tables, Caller, ChatLog, send_console, warn, add_log, add_to_points, add_balance, is_reward,
  later_of, last_reward, cooldown_left, since, remaining,
}
use mbsquad.Plugins.Chat.Commands.{
  Outside, is_sign_in_reason, sign_in_reason, sign_in_after, do_sign_in,
}

add_to_points_logs :
    (p : Caller) (amount : ℤ) (o : Option (ℕ × PointsRow)) (t : Tables)
    → ((add_to_points p amount o t).logs ≡ t.logs)
      × ((add_to_points p amount o t).settings ≡ t.settings)
add_to_points_logs p amount none t = (refl, refl)
add_to_points_logs p amount (some (id, row)) t = (refl, refl)

abbrev pub PastLogs : ℕ → List ChatLog → Type 0
PastLogs now = All (λ l. l.created_at ≤ now)

last_reward_le :
    (test : Bytes → Bool) (p : Caller) (now : ℕ) (logs : List ChatLog) (a : ℕ)
    → PastLogs now logs
    → last_reward test p logs ≡ some a
    → a ≤ now
unfolding last_reward
last_reward_le test p now [] a h e = cc
last_reward_le test p now (l ∷ logs) a (hl, h) e = elim (Bool-cases (is_reward test p l)) [
  | inr other ↦ last_reward_le test p now logs a h (
      ap
        (λ b.
          if b then later_of l.created_at (last_reward test p logs) else last_reward test p logs)
        (sym other)
      ∙ e)
  | inl own ↦
      let e' : later_of l.created_at (last_reward test p logs) ≡ some a =
        ap
          (λ b.
            if b then later_of l.created_at (last_reward test p logs) else last_reward test p logs)
          (sym own)
        ∙ e in
      elim (Option-cases (last_reward test p logs)) [
        | inl first ↦
            let same =
              some-injective l.created_at a (ap (later_of l.created_at) (sym first) ∙ e') in
            omega (arith, same, hl)
        | inr (b, before) ↦
            let same =
              some-injective (max l.created_at b) a
                (ap (later_of l.created_at) (sym before) ∙ e') in
            omega (arith, same, hl, last_reward_le test p now logs b h before)
      ]
]

later_of_past :
    (now : ℕ) (o : Option ℕ) → ((a : ℕ) → o ≡ some a → a ≤ now) → later_of now o ≡ some now
later_of_past now none h = refl
later_of_past now (some a) h = ap some (omega (arith, h a refl))

-- A reward that is given now is the last one.
last_reward-add_log :
    (p : Caller) (amount : ℤ) (logs : List ChatLog)
    → PastLogs p.now logs
    → last_reward is_sign_in_reason p (add_log p amount sign_in_reason logs) ≡ some p.now
unfolding last_reward
last_reward-add_log p amount logs h =
    let own : (equal p.steam_id p.steam_id
          && p.server_id == p.server_id
          && is_sign_in_reason sign_in_reason)
        ≡ true =
      ground (arith, equal_refl p.steam_id, equal_refl sign_in_reason) in
    ap
      (λ b.
        if b
        then later_of p.now (last_reward is_sign_in_reason p logs)
        else last_reward is_sign_in_reason p logs)
      own
    ∙ later_of_past p.now (last_reward is_sign_in_reason p logs)
        (λ a e. last_reward_le is_sign_in_reason p p.now logs a h e)

abbrev pub cooldown : Tables → ℤ
cooldown t = get_setting_int t.settings (codes "sign_in_cooldown") (pos 86400)

abbrev pub later_caller : Caller → ℕ → Caller
later_caller p later = record p { now = later }

-- The tables after a sign-in that was granted.
abbrev granted : Caller → ℤ → Tables → Tables
granted p reward t = sign_in_after p reward t none

remaining-granted :
    (outside : Outside) (p : Caller) (reward : ℤ) (t : Tables) (later : ℕ)
    → PastLogs p.now t.logs
    → remaining outside.elapsed is_sign_in_reason
        (cooldown (granted p reward t))
        (later_caller p later)
        (granted p reward t)
      ≡ cooldown_left (cooldown t) (some (outside.elapsed later p.now))
unfolding sign_in_after warn send_console add_balance remaining last_reward
remaining-granted outside p reward t later h =
    let same = add_to_points_logs p reward (find_points p.server_id p.steam_id t.points) t in
    ap
      (λ s. cooldown_left (get_setting_int s (codes "sign_in_cooldown") (pos 86400)) (
        since outside.elapsed later (
          last_reward is_sign_in_reason p (
            add_log p reward sign_in_reason
              (add_to_points p reward (find_points p.server_id p.steam_id t.points) t).logs))))
      same.1
    ∙ ap
        (λ l. cooldown_left (cooldown t) (
          since outside.elapsed later
            (last_reward is_sign_in_reason p (add_log p reward sign_in_reason l))))
        same.0
    ∙ ap (λ o. cooldown_left (cooldown t) (since outside.elapsed later o))
        (last_reward-add_log p reward t.logs h)

-- Both tables stay as they are.
abbrev Unpaid : Tables → Tables → Type 0
Unpaid t t' = (t'.points ≡ t.points) × (t'.logs ≡ t.logs)

do_sign_in-refused :
    (outside : Outside) (p : Caller) (reward : ℤ) (t : Tables) (left : ℤ)
    → remaining outside.elapsed is_sign_in_reason (cooldown t) p t ≡ some left
    → Unpaid t (do_sign_in outside p reward t)
unfolding do_sign_in sign_in_after warn send_console
do_sign_in-refused outside p reward t left e =
    subst (λ o. Unpaid t (sign_in_after p reward t o)) (sym e) (refl, refl)

do_sign_in-granted :
    (outside : Outside) (p : Caller) (reward : ℤ) (t : Tables)
    → remaining outside.elapsed is_sign_in_reason (cooldown t) p t ≡ none
    → do_sign_in outside p reward t ≡ granted p reward t
unfolding do_sign_in
do_sign_in-granted outside p reward t e = ap (sign_in_after p reward t) e

-- A player whose sign-in is granted and who signs in again on that server before the cooldown is over
-- gets nothing the second time: the points and the logs are those after the first. The logs are to be
-- no later than the first sign-in.
pub do_sign_in-once :
    (outside : Outside) (p : Caller) (reward again : ℤ) (t : Tables) (later : ℕ)
    → remaining outside.elapsed is_sign_in_reason (cooldown t) p t ≡ none
    → PastLogs p.now t.logs
    → ltb_ℤ (outside.elapsed later p.now) (cooldown t) ≡ true
    → ((do_sign_in outside (later_caller p later) again (do_sign_in outside p reward t)).points
        ≡ (do_sign_in outside p reward t).points)
      × ((do_sign_in outside (later_caller p later) again (do_sign_in outside p reward t)).logs
          ≡ (do_sign_in outside p reward t).logs)
do_sign_in-once outside p reward again t later first past early =
    let left : cooldown_left (cooldown t) (some (outside.elapsed later p.now))
        ≡ some (cooldown t -ℤ outside.elapsed later p.now) =
      ap (λ b. if b then some (cooldown t -ℤ outside.elapsed later p.now) else none) early in
    subst (λ t'. Unpaid t' (do_sign_in outside (later_caller p later) again t'))
      (sym (do_sign_in-granted outside p reward t first))
      (do_sign_in-refused outside (later_caller p later) again (granted p reward t) _
        (remaining-granted outside p reward t later past ∙ left))
