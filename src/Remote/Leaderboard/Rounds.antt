-- ===== src/Remote/Leaderboard/Rounds.antt =====
-- The end of the loop of `fetchLeaderboard` in src/core/remote_api_poller.cpp.
use mbsquad.Prelude.{
  ℕ, zero, suc, ◌+◌, ◌-◌, ◌≤◌, ◌≡◌, refl, subst, ◌>>=◌, min, Bool, true, false, List, [], ◌∷◌, ◌++◌,
  Option, none, some, arith, ◌==◌, Bool-cases, inl, inr,
}
use mbsquad.Prelude.Bytes.{Bytes, codes}
use mbsquad.Remote.Leaderboard.{
  Page, PlayerInfo, stops, next_page, leaderboard_loop, fetch_leaderboard, read_page, page_of,
  successful, fetch_plugin_leaderboard,
}
use mbsquad.Remote.Fields.{Values}

-- A result, after so many requests at most.
abbrev pub Ends : ℕ → Option (List PlayerInfo × ℕ) → Type 0
Ends n o = (r : List PlayerInfo × ℕ) × ((o ≡ some r) × (r.1 ≤ n))

Ends-le : (n m : ℕ) (o : Option (List PlayerInfo × ℕ)) → n ≤ m → Ends n o → Ends m o
Ends-le n m o h (r, (e, hl)) = (r, (e, omega (arith, h, hl)))

module _ (request : ℕ → ℕ → Option Page) (page_size : ℕ) where
  HasEntries : Type 0
  HasEntries = (page size : ℕ) (p : Page) → request page size ≡ some p → 1 ≤ p.size

  -- The rounds that are left end.
  RestEnds : ℕ → Type 0
  RestEnds fuel =
      (page remaining : ℕ) (players : List PlayerInfo) (sent : ℕ)
      → remaining ≤ fuel
      → Ends (sent + remaining)
          (leaderboard_loop request page_size fuel page remaining players sent)

  next_page-Ends :
      (fuel page remaining : ℕ) (players : List PlayerInfo) (sent : ℕ) (o : Option Page)
      → HasEntries
      → RestEnds fuel
      → request page (min remaining page_size) ≡ o
      → (remaining == 0) ≡ false
      → remaining ≤ suc fuel
      → Ends (sent + remaining) (
          next_page request page_size
            (leaderboard_loop request page_size fuel)
            page
            remaining
            players
            sent
            o)
  unfolding HasEntries RestEnds
  next_page-Ends fuel page remaining players sent none h rest e hn hl =
      ((players, suc sent), (refl, ground arith))
  next_page-Ends fuel page remaining players sent (some p) h rest e hn hl =
      elim (Bool-cases (stops request page_size page remaining p)) [
        | inl s ↦ rw s ((players ++ p.infos, suc sent), (refl, ground arith))
        | inr s ↦
            let some_entries : 1 ≤ p.size = h page (min remaining page_size) p e in
            rw s (
              Ends-le (suc sent + (remaining - p.size)) (sent + remaining) _ (ground arith) (
                rest (suc page) (remaining - p.size) (players ++ p.infos) (suc sent)
                  (omega (arith, hl, some_entries))))
      ]

  leaderboard_loop-Ends : (fuel : ℕ) → HasEntries → RestEnds fuel
  unfolding leaderboard_loop HasEntries RestEnds
  leaderboard_loop-Ends zero h page remaining players sent hl =
      let e : remaining ≡ 0 = omega (arith, hl) in ((players, sent), (rw e refl, omega arith))
  leaderboard_loop-Ends (suc fuel) h page remaining players sent hl =
      elim (Bool-cases (remaining == 0)) [
        | inl e ↦ ((players, sent), (rw e refl, omega arith))
        | inr e ↦ rw e (
            next_page-Ends fuel page remaining players sent (request page (min remaining page_size))
              h (leaderboard_loop-Ends fuel h) refl e hl)
      ]

abbrev Sized : Option Page → Type 0
Sized none = Unit
Sized (some p) = 1 ≤ p.size

then-Sized {ℓ} :
    {A : Type ℓ} (o : Option A) (f : A → Option Page) → ((a : A) → Sized (f a)) → Sized (o >>= f)
then-Sized none f h = tt
then-Sized (some a) f h = h a

module _ {J : Type 0} (V : Values J) (id_value : J → Option Bytes) where
  page_of-Sized : (j : J) (lb : List J) → Sized (page_of V id_value j lb)
  page_of-Sized j [] = tt
  page_of-Sized j (entry ∷ lb) = ground arith

  successful-Sized : (j : J) (success : Bool) → Sized (successful V id_value j success)
  successful-Sized j false = tt
  successful-Sized j true = then-Sized _ (page_of V id_value j) (page_of-Sized j)

  read_page-Sized : (resp : Bytes) → Sized (read_page V id_value resp)
  unfolding read_page
  read_page-Sized [] = tt
  read_page-Sized (c ∷ resp) =
      then-Sized (V.parse (c ∷ resp)) _
        λ j. then-Sized (V.flag_value j (codes "success") false) _ (successful-Sized j)

  -- Whatever the service answers, the loop ends, with no more requests than players were asked for.
  pub fetch_plugin_leaderboard-Ends :
      (http_get : Bytes → Bytes) (api_key server_id : Bytes) (page_size limit : ℕ)
      → Ends limit (fetch_plugin_leaderboard V id_value http_get api_key server_id page_size limit)
  unfolding fetch_plugin_leaderboard fetch_leaderboard HasEntries RestEnds
  fetch_plugin_leaderboard-Ends http_get api_key server_id page_size limit =
      Ends-le (0 + limit) limit _ (omega arith) (
        leaderboard_loop-Ends _ page_size limit (λ page size p e. subst Sized e (read_page-Sized _))
          1 limit [] 0 (omega arith))
