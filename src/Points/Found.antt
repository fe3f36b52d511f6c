-- ===== src/Points/Found.antt =====
-- What the search for the points of a player finds, and what it finds after a change.
use mbsquad.Prelude.{
  ℕ, Bool, true, false, List, [], ◌∷◌, Option, none, some, ◌≡◌, refl, ap, ◌∙◌, arith, All,
  both_branches, Bool-cases, Option-cases, inl, inr, ◌==◌,
}
use mbsquad.Prelude.Bytes.{Bytes}
use mbsquad.Prelude.Maps.{insert, nat_key}
use mbsquad.Prelude.Int.{ℤ}
use mbsquad.Points.{PointsRow, of_server, find_row, first_of, find_points}

abbrev pub Found : (PointsRow → Type 0) → Option (ℕ × PointsRow) → Type 0
Found P none = Unit
Found P (some (id, row)) = P row

find_row-Found :
    (P : PointsRow → Type 0) (test : PointsRow → Bool) (rows : List (ℕ × PointsRow))
    → All (λ e. P e.1) rows
    → Found P (find_row test rows)
unfolding find_row
find_row-Found P test [] hs = tt
find_row-Found P test ((id, row) ∷ rows) (h, hs) =
    both_branches (Found P) (test row) (some (id, row)) (find_row test rows) h
      (find_row-Found P test rows hs)

first_of-Found :
    (P : PointsRow → Type 0) (o later : Option (ℕ × PointsRow))
    → Found P o
    → Found P later
    → Found P (first_of o later)
unfolding first_of
first_of-Found P none later h hl = hl
first_of-Found P (some (id, row)) later h hl = h

pub find_points-Found :
    (P : PointsRow → Type 0) (sid : ℕ) (steam_id : Bytes) (rows : List (ℕ × PointsRow))
    → All (λ e. P e.1) rows
    → Found P (find_points sid steam_id rows)
unfolding find_points
find_points-Found P sid steam_id rows hs =
    first_of-Found P _ _ (find_row-Found P (of_server (some sid) steam_id) rows hs)
      (find_row-Found P (of_server none steam_id) rows hs)

-- A search that finds nothing, or the row with the id.
abbrev OnlyAt : ℕ → Option (ℕ × PointsRow) → Type 0
OnlyAt id none = Unit
OnlyAt id (some (j, row)) = j ≡ id

find_row-insert :
    (test : PointsRow → Bool) (id : ℕ) (row : PointsRow) (rows : List (ℕ × PointsRow))
    → test row ≡ true
    → OnlyAt id (find_row test rows)
    → find_row test (insert id row rows) ≡ some (id, row)
unfolding find_row insert
find_row-insert test id row [] h at_id = rw h refl
find_row-insert test id row ((j, w) ∷ rows) h at_id = elim (Bool-cases (j == id)) [
  | inl own ↦ rw own (rw h refl)
  | inr other ↦ elim (Bool-cases (test w)) [
    | inl hit ↦ absurd (ground (arith, hit, other, at_id))
    | inr miss ↦ rw other (rw miss (find_row-insert test id row rows h (rw miss at at_id)))
  ]
]

find_row-insert-none :
    (test : PointsRow → Bool) (id : ℕ) (row : PointsRow) (rows : List (ℕ × PointsRow))
    → test row ≡ false
    → find_row test rows ≡ none
    → find_row test (insert id row rows) ≡ none
unfolding find_row insert
find_row-insert-none test id row [] h hn = rw h refl
find_row-insert-none test id row ((j, w) ∷ rows) h hn = elim (Bool-cases (test w)) [
  | inl hit ↦ absurd (cc (rw hit at hn))
  | inr miss ↦
      let later : find_row test rows ≡ none = rw miss at hn in
      elim (Bool-cases (j == id)) [
        | inl own ↦ rw own (rw h later)
        | inr other ↦ rw other (rw miss (find_row-insert-none test id row rows h later))
      ]
]

find_row-test :
    (test : PointsRow → Bool) (rows : List (ℕ × PointsRow))
    → Found (λ w. test w ≡ true) (find_row test rows)
unfolding find_row
find_row-test test [] = tt
find_row-test test ((id, row) ∷ rows) = elim (Bool-cases (test row)) [
  | inl hit ↦ rw hit hit
  | inr miss ↦ rw miss (find_row-test test rows)
]

-- A row of no server is none of a server.
of_no_server :
    (sid : ℕ) (steam_id : Bytes) (row : PointsRow)
    → of_server none steam_id row ≡ true
    → of_server (some sid) steam_id row ≡ false
of_no_server sid steam_id row h = ground (arith, h)

abbrev pub updated : PointsRow → ℤ → ℤ → Bytes → PointsRow
updated row balance lifetime name = record row {
  balance = balance;
  lifetime_earned = lifetime;
  player_name = name;
}

module _ (sid : ℕ) (steam_id : Bytes) (rows : List (ℕ × PointsRow)) where
  -- A change of a row that is found, which keeps the server and the player, is found in its place.
  pub find_points-insert :
      (id : ℕ) (row : PointsRow) (balance lifetime : ℤ) (name : Bytes)
      → find_points sid steam_id rows ≡ some (id, row)
      → find_points sid steam_id (insert id (updated row balance lifetime name) rows)
        ≡ some (id, updated row balance lifetime name)
  unfolding find_points first_of
  find_points-insert id row balance lifetime name h =
      let new = updated row balance lifetime name in
      elim (Option-cases (find_row (of_server (some sid) steam_id) rows)) [
        | inr (r, e) ↦
            let at_id : find_row (of_server (some sid) steam_id) rows ≡ some (id, row) =
              e ∙ (rw e at h) in
            let hit : of_server (some sid) steam_id row ≡ true =
              rw at_id at (find_row-test (of_server (some sid) steam_id) rows) in
            ap (λ o. first_of o (find_row (of_server none steam_id) (insert id new rows)))
              (find_row-insert (of_server (some sid) steam_id) id new rows hit (rw at_id refl))
        | inl e ↦
            let at_id : find_row (of_server none steam_id) rows ≡ some (id, row) = rw e at h in
            let hit : of_server none steam_id row ≡ true =
              rw at_id at (find_row-test (of_server none steam_id) rows) in
            ap (λ o. first_of o (find_row (of_server none steam_id) (insert id new rows)))
              (find_row-insert-none (of_server (some sid) steam_id) id new rows
                (of_no_server sid steam_id row hit) e)
            ∙ find_row-insert (of_server none steam_id) id new rows hit (rw at_id refl)
      ]

  -- A new row of the player on the server is found.
  pub find_points-new :
      (id : ℕ) (row : PointsRow)
      → find_points sid steam_id rows ≡ none
      → of_server (some sid) steam_id row ≡ true
      → find_points sid steam_id (insert id row rows) ≡ some (id, row)
  unfolding find_points first_of
  find_points-new id row h hit =
      elim (Option-cases (find_row (of_server (some sid) steam_id) rows)) [
        | inr (r, e) ↦ absurd (cc (rw e at h))
        | inl e ↦
            ap (λ o. first_of o (find_row (of_server none steam_id) (insert id row rows)))
              (find_row-insert (of_server (some sid) steam_id) id row rows hit (rw e tt))
      ]
