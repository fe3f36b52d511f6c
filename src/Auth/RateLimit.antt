-- ===== src/Auth/RateLimit.antt =====
-- `checkRateLimit` of src/core/auth.cpp. The time in milliseconds is an argument of each call.
use mbsquad.Prelude.{
  ℕ, suc, ◌+◌, ◌-◌, ◌≤◌, ◌<◌, min, ◌≡◌, refl, ap, ◌∙◌, Bool, true, false, not, List, [], ◌∷◌,
  Option, none, some, arith, ltb, leb, if◌then◌else◌, All, leb→le, leb_false→lt, ltb_of_le,
  Bool-cases, inl, inr,
}
use mbsquad.Prelude.Bytes.{Bytes, equal, equal_iff, equal_refl}
use mbsquad.Prelude.Maps.{lookup, insert, lookup-insert, bytes_key}

-- `RATE_LIMIT_WINDOW_MS` and `RATE_LIMIT_MAX_ATTEMPTS`
pub record Limits : Type 0 where
  pub window : ℕ
  pub max_attempts : ℕ

-- For each address the attempts counted and the time at which its window began.
abbrev pub RateLimits : Type 0
RateLimits = List (Bytes × (ℕ × ℕ))

module _ (limits : Limits) where
  open limits use {window, max_attempts}

  -- The decision for one address. A clock that went back gives a negative age, within the window.
  unfoldable pub count_attempt : Option (ℕ × ℕ) → ℕ → Bool × (ℕ × ℕ)
  count_attempt none now = (true, (1, now))
  count_attempt (some (count, start)) now =
      if ltb (start + window) now
      then (true, (1, now))
      else if leb max_attempts count
      then (false, (count, start))
      else (true, (count + 1, start))

  unfoldable pub check_rate_limit : Bytes → ℕ → RateLimits → Bool × RateLimits
  check_rate_limit ip now m =
      let (admitted, entry) = count_attempt (lookup ip m) now in (admitted, insert ip entry m)

  -- The attempts that are admitted to one address among calls from any addresses.
  pub admitted_to : Bytes → List (Bytes × ℕ) → RateLimits → ℕ
  admitted_to ip [] m = 0
  admitted_to ip ((from, now) ∷ calls) m =
      let rest = admitted_to ip calls (check_rate_limit from now m).1 in
      if equal from ip then (if (check_rate_limit from now m).0 then suc rest else rest) else rest

  abbrev pub calls_of : Bytes → List (Bytes × ℕ) → ℕ
  calls_of ip [] = 0
  calls_of ip ((from, now) ∷ calls) =
      if equal from ip then suc (calls_of ip calls) else calls_of ip calls

  abbrev pub WithinWindow : Bytes → ℕ → List (Bytes × ℕ) → Type 0
  WithinWindow ip start = All (λ c. equal c.0 ip ≡ true → c.1 ≤ start + window)

  lookup-check_rate_limit :
      (from ip : Bytes) (now : ℕ) (m : RateLimits)
      → lookup ip (check_rate_limit from now m).1
        ≡ (if equal from ip then some (count_attempt (lookup from m) now).1 else lookup ip m)
  unfolding check_rate_limit
  lookup-check_rate_limit from ip now m =
      lookup-insert from ip (count_attempt (lookup from m) now).1 m

  count_attempt_within :
      (count start now : ℕ)
      → now ≤ start + window
      → count_attempt (some (count, start)) now
        ≡ (if leb max_attempts count then (false, (count, start)) else (true, (count + 1, start)))
  unfolding count_attempt
  count_attempt_within count start now h = rw (ltb_of_le now (start + window) h, count_attempt)

  own_attempt :
      (from ip : Bytes) (now : ℕ) (m : RateLimits) (count start : ℕ)
      → equal from ip ≡ true
      → lookup ip m ≡ some (count, start)
      → now ≤ start + window
      → ((check_rate_limit from now m).0 ≡ not (leb max_attempts count))
        × (lookup ip (check_rate_limit from now m).1
            ≡ some ((if leb max_attempts count then count else count + 1), start))
  own_attempt from ip now m count start own e w =
      let found : lookup from m ≡ some (count, start) =
        ap (λ x. lookup x m) ((equal_iff from ip).0 own) ∙ e in
      let attempt = count_attempt_within count start now w in
      (
        unfold check_rate_limit in rw found (rw attempt (ground arith)),
        lookup-check_rate_limit from ip now m ∙ rw own (rw found (rw attempt (ground arith))),
      )

  -- Inside the window of an address the calls from other addresses do not count, and of its own
  -- calls exactly those are admitted that the limit leaves.
  pub admitted_to_window :
      (ip : Bytes) (calls : List (Bytes × ℕ)) (m : RateLimits) (count start : ℕ)
      → lookup ip m ≡ some (count, start)
      → WithinWindow ip start calls
      → admitted_to ip calls m ≡ min (calls_of ip calls) (max_attempts - count)
  unfolding admitted_to
  admitted_to_window ip [] m count start e w = omega arith
  admitted_to_window ip ((from, now) ∷ calls) m count start e (w, ws) =
      elim (Bool-cases (equal from ip)) [
        | inr other ↦ rw other (
            admitted_to_window ip calls (check_rate_limit from now m).1 count start
              (lookup-check_rate_limit from ip now m ∙ rw other e) ws)
        | inl own ↦
            let (decided, after) = own_attempt from ip now m count start own e (w own) in
            let next : RateLimits = (check_rate_limit from now m).1 in
            elim (Bool-cases (leb max_attempts count)) [
              | inl full ↦
                  let left = admitted_to_window ip calls next count start (rw full at after) ws in
                  rw own (rw decided (rw full (omega (arith, left, leb→le _ _ full))))
              | inr room ↦
                  let left =
                    admitted_to_window ip calls next (count + 1) start (rw room at after) ws in
                  rw own (rw decided (rw room (omega (arith, left, leb_false→lt _ _ room))))
            ]
      ]

  -- No window is open for the address at that time.
  abbrev pub Closed : Option (ℕ × ℕ) → ℕ → Type 0
  Closed none now = Unit
  Closed (some (count, start)) now = start + window < now

  opening_attempt :
      (o : Option (ℕ × ℕ)) (now : ℕ) → Closed o now → count_attempt o now ≡ (true, (1, now))
  unfolding count_attempt
  opening_attempt none now h = refl
  opening_attempt (some (count, start)) now h = ground arith

  -- The call that opens a window is admitted, and of the calls from the same address until the
  -- window ends all but the first `max_attempts - 1` are refused, whatever other addresses do.
  pub admitted_to_opening :
      (ip : Bytes) (now : ℕ) (calls : List (Bytes × ℕ)) (m : RateLimits)
      → Closed (lookup ip m) now
      → WithinWindow ip now calls
      → admitted_to ip ((ip, now) ∷ calls) m ≡ suc (min (calls_of ip calls) (max_attempts - 1))
  unfolding admitted_to
  admitted_to_opening ip now calls m closed w =
      let opened = opening_attempt (lookup ip m) now closed in
      let after =
        lookup-check_rate_limit ip ip now m
        ∙ rw (equal_refl ip) (ap (λ (r : Bool × (ℕ × ℕ)). some r.1) opened) in
      let left = admitted_to_window ip calls (check_rate_limit ip now m).1 1 now after w in
      let decided : (check_rate_limit ip now m).0 ≡ true =
        unfold check_rate_limit in ap (λ (r : Bool × (ℕ × ℕ)). r.0) opened in
      rw (equal_refl ip) (rw decided (ap suc left))
