-- ===== src/Plugins/Balance/Even.antt =====
-- How many players the balance moves, and whom.
use mbsquad.Prelude.{
  ℕ, zero, suc, ◌+◌, ◌-◌, ◌/◌, ◌≤◌, min, Bool, true, false, List, [], ◌∷◌, ◌++◌, ltb, leb,
  if◌then◌else◌, length, take, map, ◌≡◌, refl, sym, ap, ◌∙◌, arith, All, Bool-cases, inl, inr,
  leb→le, max, length-take, length-append, leb_false→lt,
}
use mbsquad.Prelude.Bytes.{Bytes, equal}
use mbsquad.Prelude.Int.{ℤ, pos, eqb_ℤ_iff, ltb_ℤ}
use mbsquad.Plugins.Balance.{
  Player, in_team, count_teams, distance, candidates, switch_command, switch_players, switch_both,
  rebalance,
}

abbrev pub commands : List Player → List Bytes
commands = map switch_command

abbrev nobody : List Player
nobody = []

take_nil : (n : ℕ) → take n nobody ≡ nobody
take_nil zero = refl
take_nil (suc n) = refl

switch_players-take :
    (to_move moved : ℕ) (players : List Player)
    → moved ≤ to_move
    → ((switch_players to_move moved players).0 ≡ commands (take (to_move - moved) players))
      × ((switch_players to_move moved players).1 ≡ moved + min (to_move - moved) (length players))
unfolding switch_players
switch_players-take to_move moved [] h =
    (ap commands (sym (take_nil (to_move - moved))), omega arith)
switch_players-take to_move moved (p ∷ players) h = elim (Bool-cases (leb to_move moved)) [
  | inl full ↦
      let none_left : to_move - moved ≡ 0 = omega (arith, leb→le _ _ full) in
      rw full (rw none_left (refl, omega arith))
  | inr room ↦
      let below = leb_false→lt to_move moved room in
      let one_left : to_move - moved ≡ suc (to_move - (moved + 1)) = omega (arith, below) in
      let (listed, counted) =
        switch_players-take to_move (moved + 1) players (omega (arith, below)) in
      rw room (
        ap (◌∷◌ (switch_command p)) listed
            ∙ ap (λ n. commands (take n (p ∷ players))) (sym one_left),
        omega (arith, counted, below),
      )
]

take-append :
    (n : ℕ) (xs ys : List Player) → take n xs ++ take (n - min n (length xs)) ys ≡ take n (xs ++ ys)
take-append zero xs ys =
    let none_left : 0 - min 0 (length xs) ≡ 0 = omega arith in ap (λ k. take k ys) none_left
take-append (suc n) [] ys =
    let all_left : suc n - min (suc n) 0 ≡ suc n = omega arith in ap (λ k. take k ys) all_left
take-append (suc n) (x ∷ xs) ys = ap (◌∷◌ x) (
    let same_left : suc n - min (suc n) (suc (length xs)) ≡ n - min n (length xs) = omega arith in
    ap (λ k. take n xs ++ take k ys) same_left ∙ take-append n xs ys)

map-append : (xs ys : List Player) → commands (xs ++ ys) ≡ commands xs ++ commands ys
map-append [] ys = refl
map-append (x ∷ xs) ys = ap (◌∷◌ (switch_command x)) (map-append xs ys)

-- The two loops send a command for the first `to_move` players, those without a squad first.
pub switch_both-take :
    (to_move : ℕ) (unsorted sorted : List Player)
    → switch_both to_move (unsorted, sorted) ≡ commands (take to_move (unsorted ++ sorted))
unfolding switch_both
switch_both-take to_move unsorted sorted =
    let (first, moved) = switch_players-take to_move 0 unsorted (omega arith) in
    let later = switch_players-take to_move (min to_move (length unsorted)) sorted (omega arith) in
    let whole : to_move - 0 ≡ to_move = omega arith in
    let begun : commands (take (to_move - 0) unsorted) ≡ commands (take to_move unsorted) =
      ap (λ n. commands (take n unsorted)) whole in
    let used : (switch_players to_move 0 unsorted).1 ≡ min to_move (length unsorted) =
      omega (arith, moved) in
    rw (first, begun, used)
      (rw (later.0) (
        sym (
          map-append (take to_move unsorted)
            (take (to_move - min to_move (length unsorted)) sorted))
        ∙ ap commands (take-append to_move unsorted sorted)))

abbrev pub HasId : Player → Type 0
HasId p = equal p.steam_id [] ≡ false

one_team : (p : Player) → in_team 1 p ≡ true → in_team 2 p ≡ false
unfolding in_team
one_team p h = ground (arith, eqb_ℤ_iff p.team_index (pos 1), eqb_ℤ_iff p.team_index (pos 2))

candidates_count :
    (b : Bool) (players : List Player)
    → All HasId players
    → length (candidates b players).0 + length (candidates b players).1
      ≡ (if b then (count_teams players).0 else (count_teams players).1)
unfolding candidates count_teams
candidates_count true [] hs = refl
candidates_count false [] hs = refl
candidates_count true (p ∷ players) (h, hs) = ground (arith, h, candidates_count true players hs)
candidates_count false (p ∷ players) (h, hs) =
    ground (arith, h, one_team p, candidates_count false players hs)

length-commands : (players : List Player) → length (commands players) ≡ length players
length-commands [] = refl
length-commands (p ∷ players) = ap suc (length-commands players)

length-switch_both :
    (to_move : ℕ) (both : List Player × List Player)
    → length (switch_both to_move both) ≡ min to_move (length both.0 + length both.1)
length-switch_both to_move (unsorted, sorted) =
    ap length (switch_both-take to_move unsorted sorted)
    ∙ length-commands (take to_move (unsorted ++ sorted))
    ∙ length-take to_move (unsorted ++ sorted)
    ∙ ap (min to_move) (length-append unsorted sorted)

larger_team : (a b : ℕ) → (if ltb b a then a else b) ≡ max a b
larger_team a b = ground arith

length-rebalance :
    (threshold : ℤ) (players : List Player) (t₁ t₂ : ℕ)
    → All HasId players
    → count_teams players ≡ (t₁, t₂)
    → ltb_ℤ (pos (distance t₁ t₂)) threshold ≡ false
    → length (rebalance threshold players (t₁, t₂)) ≡ distance t₁ t₂ / 2
unfolding rebalance
length-rebalance threshold players t₁ t₂ hs e far =
    let counted =
      candidates_count (ltb t₂ t₁) players hs
      ∙ ap (λ (c : ℕ × ℕ). if ltb t₂ t₁ then c.0 else c.1) e
      ∙ larger_team t₁ t₂ in
    rw far (
      length-switch_both (distance t₁ t₂ / 2) (candidates (ltb t₂ t₁) players)
      ∙ omega (arith, counted))

-- When the teams differ by the threshold or more, and every player has an id, the commands are as
-- many as half the difference, and after as many switches the teams differ by at most one.
pub rebalance_even :
    (threshold : ℤ) (players : List Player) (t₁ t₂ : ℕ)
    → All HasId players
    → count_teams players ≡ (t₁, t₂)
    → ltb_ℤ (pos (distance t₁ t₂)) threshold ≡ false
    → (length (rebalance threshold players (t₁, t₂)) ≡ distance t₁ t₂ / 2)
      × (distance
            (max t₁ t₂ - length (rebalance threshold players (t₁, t₂)))
            (min t₁ t₂ + length (rebalance threshold players (t₁, t₂)))
          ≤ 1)
rebalance_even threshold players t₁ t₂ hs e far =
    let n = length-rebalance threshold players t₁ t₂ hs e far in (n, omega (arith, n))

-- Without that condition there are at most half as many commands as the difference, so that the
-- larger team never becomes the smaller one.
pub rebalance_at_most_half :
    (threshold : ℤ) (players : List Player) (t₁ t₂ : ℕ)
    → length (rebalance threshold players (t₁, t₂)) ≤ distance t₁ t₂ / 2
unfolding rebalance
rebalance_at_most_half threshold players t₁ t₂ =
    let n = length-switch_both (distance t₁ t₂ / 2) (candidates (ltb t₂ t₁) players) in
    elim (Bool-cases (ltb_ℤ (pos (distance t₁ t₂)) threshold)) [
      | inl near ↦ rw near (omega arith)
      | inr far ↦ rw far (omega (arith, n))
    ]
