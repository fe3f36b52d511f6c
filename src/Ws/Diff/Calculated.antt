-- ===== src/Ws/Diff/Calculated.antt =====
-- The two theorems on `calculateDiff` itself: what applying its result gives, and its result for a
-- list that is cached already.
use mbsquad.Prelude.{
  ℕ, Bool, true, false, not, ◌≡◌, refl, ap, ◌∙◌, inl, List, [], ◌∷◌, Option, none, some, keep,
  length, All, All-map,
}
use mbsquad.Prelude.Bytes.{Bytes, equal_refl}
use mbsquad.Prelude.Int.{eqb_ℤ_iff}
use mbsquad.Prelude.Maps.{lookup, bytes_key}
use mbsquad.Ws.Diff.{
  PlayerSnapshot, PlayerDiff, same, by_id, add_all, is_new, differs, differences, calculate_diff,
}
use mbsquad.Ws.Diff.Apply.{
  apply_diff, drop_all, find_last, find_last_absent, lookup-by_id, Distinct, SameView,
  apply_differences,
}

SameView-refl : (o : Option PlayerSnapshot) → SameView o o
SameView-refl none = tt
SameView-refl (some p) = inl refl

-- A client that applies the calculated difference to the cached list sees, for each id, what the
-- new list has for it, if no two players of the new list have one id.
pub apply_diff-calculate_diff :
    (id : Bytes) (cached current : List PlayerSnapshot)
    → Distinct current
    → SameView
        (lookup id (apply_diff (calculate_diff cached current) (by_id cached)))
        (lookup id (by_id current))
unfolding calculate_diff
apply_diff-calculate_diff id [] [] h = apply_differences id [] [] h
apply_diff-calculate_diff id [] (p ∷ current) h =
    unfold apply_diff drop_all add_all in SameView-refl (lookup id (by_id (p ∷ current)))
apply_diff-calculate_diff id (q ∷ cached) current h = apply_differences id (q ∷ cached) current h

find_last_self :
    (players : List PlayerSnapshot)
    → Distinct players
    → All
        (λ q. (found : Option PlayerSnapshot) → find_last q.steam_id players found ≡ some q)
        players
unfolding find_last
find_last_self [] h = tt
find_last_self (p ∷ players) (fresh, h) = (
  λ found.
      rw (equal_refl p.steam_id, find_last) (find_last_absent p.steam_id players (some p) fresh),
  All-map (λ q f found. f _) players (find_last_self players h),
)

keep_none {ℓ} :
    {A : Type ℓ} (test : A → Bool) (xs : List A) → All (λ x. test x ≡ false) xs → keep test xs ≡ []
keep_none test [] h = refl
keep_none test (x ∷ xs) (e, h) = rw e (keep_none test xs h)

same_refl : (p : PlayerSnapshot) → same p p ≡ true
unfolding same
same_refl p = rw (
  equal_refl p.steam_id,
  equal_refl p.name,
  equal_refl p.squad_id,
  (eqb_ℤ_iff p.team_id p.team_id).1 refl,
)

pub empty_diff : ℕ → PlayerDiff
empty_diff n = record { joined = []; left = []; changed = []; total_count = n }

-- For a list that is cached already nothing is reported, whatever the clients were told before.
pub calculate_diff_self :
    (players : List PlayerSnapshot)
    → Distinct players
    → calculate_diff players players ≡ empty_diff (length players)
unfolding calculate_diff differences empty_diff
calculate_diff_self [] h = refl
calculate_diff_self (p ∷ players) h =
    let found =
      All-map (λ q f. lookup-by_id q.steam_id (p ∷ players) ∙ f none) (p ∷ players)
        (find_last_self (p ∷ players) h) in
    let known =
      keep_none (λ q. is_new (lookup q.steam_id (by_id (p ∷ players)))) (p ∷ players)
        (All-map (λ q e. ap is_new e) (p ∷ players) found) in
    let unchanged =
      keep_none (λ q. differs (lookup q.steam_id (by_id (p ∷ players))) q) (p ∷ players)
        (All-map (λ q e. ap (λ o. differs o q) e ∙ ap not (same_refl q)) (p ∷ players) found) in
    λ i. record {
      joined = known i;
      left = known i;
      changed = unchanged i;
      total_count = length (p ∷ players);
    }
