-- ===== src/Ws/Diff/Apply.antt =====
-- A client that applies the difference to what it had holds the new list.
use mbsquad.Prelude.{
  Bool, true, false, not, ◌&&◌, ◌≡◌, refl, sym, ap, ◌∙◌, ◌⊎◌, inl, inr, List, [], ◌∷◌, Option, none,
  some, arith, if◌then◌else◌, keep, Bool-cases, Option-cases,
}
use mathlib.Core.Option.{some-injective}
use mbsquad.Prelude.Bytes.{Bytes, equal, equal_iff}
use mbsquad.Prelude.Maps.{lookup, insert, remove, lookup-insert, lookup-remove, bytes_key}
use mbsquad.Ws.Diff.{PlayerSnapshot, PlayerDiff, same, add_all, by_id, is_new, differs, differences}

-- The map of a client: the players that left are erased, those that joined or changed are put in.
unfoldable pub drop_all :
    List PlayerSnapshot → List (Bytes × PlayerSnapshot) → List (Bytes × PlayerSnapshot)
drop_all [] m = m
drop_all (p ∷ players) m = drop_all players (remove p.steam_id m)

unfoldable pub apply_diff :
    PlayerDiff → List (Bytes × PlayerSnapshot) → List (Bytes × PlayerSnapshot)
apply_diff d m = add_all d.changed (add_all d.joined (drop_all d.left m))

-- The last player of a list with an id.
unfoldable pub find_last :
    Bytes → List PlayerSnapshot → Option PlayerSnapshot → Option PlayerSnapshot
find_last id [] found = found
find_last id (p ∷ players) found =
    find_last id players (if equal p.steam_id id then some p else found)

lookup-add_all :
    (id : Bytes) (players : List PlayerSnapshot) (m : List (Bytes × PlayerSnapshot))
    → lookup id (add_all players m) ≡ find_last id players (lookup id m)
unfolding add_all find_last
lookup-add_all id [] m = refl
lookup-add_all id (p ∷ players) m =
    lookup-add_all id players (insert p.steam_id p m)
    ∙ ap (find_last id players) (lookup-insert p.steam_id id p m)

pub lookup-by_id :
    (id : Bytes) (players : List PlayerSnapshot)
    → lookup id (by_id players) ≡ find_last id players none
lookup-by_id id players = lookup-add_all id players [] ∙ unfold lookup in refl

-- Whether a list holds a player with that id.
abbrev pub holds : Bytes → List PlayerSnapshot → Bool
holds id [] = false
holds id (p ∷ players) = if equal p.steam_id id then true else holds id players

lookup-drop_all :
    (id : Bytes) (players : List PlayerSnapshot) (m : List (Bytes × PlayerSnapshot))
    → lookup id (drop_all players m) ≡ (if holds id players then none else lookup id m)
unfolding drop_all
lookup-drop_all id [] m = refl
lookup-drop_all id (p ∷ players) m =
    lookup-drop_all id players (remove p.steam_id m) ∙ ground (arith, lookup-remove p.steam_id id m)

-- No two players of the list have one id.
abbrev pub Distinct : List PlayerSnapshot → Type 0
Distinct [] = Unit
Distinct (p ∷ players) = (holds p.steam_id players ≡ false) × Distinct players

pub find_last_absent :
    (id : Bytes) (players : List PlayerSnapshot) (found : Option PlayerSnapshot)
    → holds id players ≡ false
    → find_last id players found ≡ found
unfolding find_last
find_last_absent id [] found h = refl
find_last_absent id (p ∷ players) found h = ground (arith, find_last_absent id players found)

holds-keep :
    (id : Bytes) (test : PlayerSnapshot → Bool) (players : List PlayerSnapshot)
    → holds id players ≡ false
    → holds id (keep test players) ≡ false
holds-keep id test [] h = refl
holds-keep id test (p ∷ players) h = ground (arith, holds-keep id test players)

-- What is kept of the player with an id.
abbrev kept :
    (PlayerSnapshot → Bool) → Option PlayerSnapshot → Option PlayerSnapshot → Option PlayerSnapshot
kept test none found = found
kept test (some p) found = if test p then some p else found

find_last-keep :
    (id : Bytes) (test : PlayerSnapshot → Bool) (players : List PlayerSnapshot)
    (found : Option PlayerSnapshot)
    → Distinct players
    → find_last id (keep test players) found ≡ kept test (find_last id players none) found
unfolding find_last
find_last-keep id test [] found h = refl
find_last-keep id test (p ∷ players) found (fresh, h) = elim (Bool-cases (equal p.steam_id id)) [
  | inr other ↦ rw other (elim (Bool-cases (test p)) [
    | inl yes_ ↦ rw yes_ (rw (other, find_last) (find_last-keep id test players found h))
    | inr no_ ↦ rw no_ (find_last-keep id test players found h)
  ])
  | inl own ↦
      let absent : holds id players ≡ false = rw (← (equal_iff p.steam_id id).0 own) fresh in
      rw own (
        rw (find_last_absent id players (some p) absent) (elim (Bool-cases (test p)) [
          | inl yes_ ↦ rw yes_ (
              rw (own, find_last)
                (find_last_absent id (keep test players) (some p)
                  (holds-keep id test players absent)))
          | inr no_ ↦
              rw no_
                (find_last_absent id (keep test players) found (holds-keep id test players absent))
        ]))
]

-- A client sees the same as the server: no player on both sides, or two with equal fields.
abbrev pub SameView : Option PlayerSnapshot → Option PlayerSnapshot → Type 0
SameView none none = Unit
SameView (some p) (some q) = (p ≡ q) ⊎ (same p q ≡ true)
SameView _ _ = ⊥

-- The id of what is found is the one searched for.
find_last_id :
    (id : Bytes) (players : List PlayerSnapshot) (found : Option PlayerSnapshot)
    (p : PlayerSnapshot)
    → find_last id players found ≡ some p
    → (found ≡ some p) ⊎ (p.steam_id ≡ id)
unfolding find_last
find_last_id id [] found p h = inl h
find_last_id id (q ∷ players) found p h = elim (Bool-cases (equal q.steam_id id)) [
  | inr other ↦ find_last_id id players found p (rw other at h)
  | inl own ↦ elim (find_last_id id players (some q) p (rw own at h)) [
    | inr e ↦ inr e
    | inl e ↦
        inr (ap (λ r. r.steam_id) (sym (some-injective q p e)) ∙ (equal_iff q.steam_id id).0 own)
  ]
]

is_new-find_last :
    (id : Bytes) (players : List PlayerSnapshot) (found : Option PlayerSnapshot)
    → is_new (find_last id players found) ≡ (not (holds id players) && is_new found)
unfolding find_last
is_new-find_last id [] found = refl
is_new-find_last id (p ∷ players) found = elim (Bool-cases (equal p.steam_id id)) [
  | inl own ↦ rw own (is_new-find_last id players (some p) ∙ ground arith)
  | inr other ↦ rw other (is_new-find_last id players found)
]

holds-keep_by_id :
    (id : Bytes) (test : PlayerSnapshot → Bool) (b : Bool) (players : List PlayerSnapshot)
    → ((q : PlayerSnapshot) → q.steam_id ≡ id → test q ≡ b)
    → holds id (keep test players) ≡ (holds id players && b)
holds-keep_by_id id test b [] agree = refl
holds-keep_by_id id test b (p ∷ players) agree = elim (Bool-cases (equal p.steam_id id)) [
  | inl own ↦
      ground
        (arith, agree p ((equal_iff p.steam_id id).0 own), holds-keep_by_id id test b players agree)
  | inr other ↦ ground (arith, holds-keep_by_id id test b players agree)
]

-- What the client holds for an id, from what it had (`old`) and what the new list has (`now`).
abbrev merged : Option PlayerSnapshot → Option PlayerSnapshot → Option PlayerSnapshot
merged old none = if not (is_new old) && true then none else old
merged old (some p) =
    if differs old p
    then some p
    else if is_new old
    then some p
    else if not (is_new old) && false
    then none
    else old

kept-merged :
    (old now : Option PlayerSnapshot)
    → kept
        (differs old)
        now
        (kept (λ _. is_new old) now (if not (is_new old) && is_new now then none else old))
      ≡ merged old now
kept-merged old none = refl
kept-merged old (some p) = refl

merged-SameView : (old now : Option PlayerSnapshot) → SameView (merged old now) now
merged-SameView none none = tt
merged-SameView (some q) none = tt
merged-SameView none (some p) = inl refl
merged-SameView (some q) (some p) = elim (Bool-cases (same q p)) [
  | inl equal_fields ↦ rw equal_fields (inr equal_fields)
  | inr changed ↦ rw changed (inl refl)
]

module _ (id : Bytes) (cached current : List PlayerSnapshot) where
  kept_now :
      (test : PlayerSnapshot → Bool) (b : PlayerSnapshot → Bool) (found : Option PlayerSnapshot)
      → ((q : PlayerSnapshot) → q.steam_id ≡ id → test q ≡ b q)
      → kept test (find_last id current none) found ≡ kept b (find_last id current none) found
  kept_now test b found agree = elim (Option-cases (find_last id current none)) [
    | inl e ↦ rw e
    | inr (p, e) ↦ elim (find_last_id id current none p e) [
      | inl impossible ↦ cc
      | inr own ↦ rw e (rw (agree p own))
    ]
  ]

  old : Option PlayerSnapshot
  old = find_last id cached none

  now : Option PlayerSnapshot
  now = find_last id current none

  find_old : (q : PlayerSnapshot) → q.steam_id ≡ id → lookup q.steam_id (by_id cached) ≡ old
  unfolding old
  find_old q e = ap (λ k. lookup k (by_id cached)) e ∙ lookup-by_id id cached

  find_now : (q : PlayerSnapshot) → q.steam_id ≡ id → lookup q.steam_id (by_id current) ≡ now
  unfolding now
  find_now q e = ap (λ k. lookup k (by_id current)) e ∙ lookup-by_id id current

  changed_now :
      (found : Option PlayerSnapshot)
      → Distinct current
      → find_last id (differences cached current).changed found ≡ kept (differs old) now found
  unfolding differences now
  changed_now found distinct =
      find_last-keep id _ current found distinct
      ∙ kept_now _ (differs old) found (λ q e. ap (λ o. differs o q) (find_old q e))

  joined_now :
      (found : Option PlayerSnapshot)
      → Distinct current
      → find_last id (differences cached current).joined found ≡ kept (λ _. is_new old) now found
  unfolding differences now
  joined_now found distinct =
      find_last-keep id _ current found distinct
      ∙ kept_now _ (λ _. is_new old) found (λ q e. ap is_new (find_old q e))

  left_now : holds id (differences cached current).left ≡ (not (is_new old) && is_new now)
  unfolding differences old
  left_now =
      holds-keep_by_id id _ (is_new now) cached (λ q e. ap is_new (find_now q e))
      ∙ ap (λ b. b && is_new now) (ground (arith, is_new-find_last id cached none))

  -- Applied to the old list, the differences give for each id what the new list has.
  pub apply_differences :
      Distinct current
      → SameView
          (lookup id (apply_diff (differences cached current) (by_id cached)))
          (lookup id (by_id current))
  unfolding apply_diff
  apply_differences distinct =
      let result : lookup id (apply_diff (differences cached current) (by_id cached))
          ≡ merged old now =
        lookup-add_all id (differences cached current).changed _
        ∙ changed_now _ distinct
        ∙ ap (kept (differs old) now) (
            lookup-add_all id (differences cached current).joined _
            ∙ joined_now _ distinct
            ∙ ap (kept (λ _. is_new old) now) (
                lookup-drop_all id (differences cached current).left (by_id cached)
                ∙ rw left_now (rw (lookup-by_id id cached) (unfold old in refl))))
        ∙ kept-merged old now in
      rw (result, lookup-by_id id current) (unfold now in merged-SameView old now)
