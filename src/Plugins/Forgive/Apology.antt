-- ===== src/Plugins/Forgive/Apology.antt =====
-- What an apology in the chat does to the records.
use mbsquad.Prelude.{
  ℕ, Bool, true, false, List, [], ◌∷◌, ◌++◌, if◌then◌else◌, exists, map, ◌≡◌, ◌≢◌, ◌⊎◌, refl, sym,
  ap, ◌∙◌, arith, both_branches, Bool-cases, Option-cases, none, some, inl, inr,
}
use mbsquad.Prelude.Bytes.{
  Bytes, lower, equal, equal_iff, contains, strip_prefix, strip_prefix-append,
}
use mbsquad.Prelude.Int.{ℤ, pos, ltb_ℤ, eqb_ℤ_iff}
use mbsquad.Plugins.Forgive.{
  TkRow, TkTables, is_on, keywords_text, keywords, is_apology, is_active, forgive_row,
  forgive_active, handle_apology,
}

-- A record of a killer on a server that is neither forgiven nor punished, and still has time.
pub record IsOpen (now : ℕ) (server : ℤ) (killer : Bytes) (row : TkRow) : Type 0 where
  pub at_server : row.server_id ≡ server
  pub of_killer : row.killer_steam_id ≡ killer
  pub unforgiven : row.forgiven ≡ false
  pub unpunished : row.kicked ≡ false
  pub in_time : ltb_ℤ (pos now) row.expires_at ≡ true

is_active-IsOpen :
    (now : ℕ) (server : ℤ) (killer : Bytes) (row : TkRow)
    → is_active now server killer row ≡ true
    → IsOpen now server killer row
is_active-IsOpen now server killer row h = record {
  at_server = ground (arith, eqb_ℤ_iff row.server_id server, h);
  of_killer = ground (arith, equal_iff row.killer_steam_id killer, h);
  unforgiven = ground (arith, h);
  unpunished = ground (arith, h);
  in_time = ground (arith, h);
}

IsOpen-is_active :
    (now : ℕ) (server : ℤ) (killer : Bytes) (row : TkRow)
    → IsOpen now server killer row
    → is_active now server killer row ≡ true
IsOpen-is_active now server killer row o = rw ((eqb_ℤ_iff row.server_id server).1 o.at_server) (
    rw ((equal_iff row.killer_steam_id killer).1 o.of_killer)
      (rw o.unforgiven (rw o.unpunished (rw o.in_time refl))))

-- A record before and after: an open one is forgiven, any other is left as it was.
abbrev pub Answered : ℕ → ℤ → Bytes → TkRow → TkRow → Type 0
Answered now server killer old new =
    (IsOpen now server killer old × (new ≡ record old { forgiven = true }))
    ⊎ (¬ IsOpen now server killer old × (new ≡ old))

abbrev pub AllAnswered : ℕ → ℤ → Bytes → List TkRow → List TkRow → Type 0
AllAnswered now server killer [] [] = Unit
AllAnswered now server killer [] (new ∷ news) = ⊥
AllAnswered now server killer (old ∷ olds) [] = ⊥
AllAnswered now server killer (old ∷ olds) (new ∷ news) =
    Answered now server killer old new × AllAnswered now server killer olds news

forgive_active-AllAnswered :
    (now : ℕ) (server : ℤ) (killer : Bytes) (rows : List TkRow)
    → AllAnswered now server killer rows (forgive_active (is_active now server killer) rows)
unfolding forgive_active
forgive_active-AllAnswered now server killer [] = tt
forgive_active-AllAnswered now server killer (row ∷ rows) =
    let rest = forgive_active-AllAnswered now server killer rows in
    elim (Bool-cases (is_active now server killer row)) [
      | inl open_row ↦
          (inl (is_active-IsOpen now server killer row open_row, ap (pick row) open_row), rest)
      | inr closed ↦ (
        inr (
          λ o. absurd (cc (sym closed ∙ IsOpen-is_active now server killer row o)),
          ap (pick row) closed,
        ),
        rest,
      )
    ]
  where
    pick : TkRow → Bool → TkRow
    pick row b = if b then forgive_row row else row

contains_here :
    (p : Bytes) (y : ℕ) (s rest : Bytes)
    → strip_prefix p (y ∷ s) ≡ some rest
    → contains p (y ∷ s) ≡ true
unfolding contains
contains_here p y s rest h = ap (λ o. elim o [ none ↦ contains p s | some _ ↦ true ]) h

contains_later : (p : Bytes) (y : ℕ) (s : Bytes) → contains p s ≡ true → contains p (y ∷ s) ≡ true
unfolding contains
contains_later p y s h = elim (Option-cases (strip_prefix p (y ∷ s))) [
  | inl e ↦ ap (λ o. elim o [ none ↦ contains p s | some _ ↦ true ]) e ∙ h
  | inr (rest, e) ↦ contains_here p y s rest e
]

contains-append :
    (c : ℕ) (k front back : Bytes) → contains (c ∷ k) (front ++ ((c ∷ k) ++ back)) ≡ true
contains-append c k [] back =
    contains_here (c ∷ k) c (k ++ back) back (strip_prefix-append (c ∷ k) back)
contains-append c k (y ∷ front) back =
    contains_later (c ∷ k) y (front ++ ((c ∷ k) ++ back)) (contains-append c k front back)

exists-contains :
    (k msg : Bytes) (ks : List Bytes)
    → exists (equal k) ks ≡ true
    → contains k msg ≡ true
    → exists (λ k. contains k msg) ks ≡ true
exists-contains k msg [] h hc = absurd (cc h)
exists-contains k msg (j ∷ ks) h hc = elim (Bool-cases (equal k j)) [
  | inl same ↦ rw (ap (λ x. contains x msg) (sym ((equal_iff k j).0 same)) ∙ hc) refl
  | inr other ↦
      let rest = exists-contains k msg ks (rw other at h) hc in
      both_branches (λ b. b ≡ true) (contains j msg) true (exists (λ k. contains k msg) ks) refl
        rest
]

said_nothing : (c : ℕ) (k front back : Bytes) → equal (front ++ ((c ∷ k) ++ back)) [] ≡ false
unfolding equal
said_nothing c k [] back = refl
said_nothing c k (y ∷ front) back = refl

not_empty : (s t : Bytes) → map lower s ≡ t → equal t [] ≡ false → equal s [] ≡ false
unfolding equal
not_empty [] t e h = absurd (cc (ap (λ x. equal x []) e ∙ h))
not_empty (c ∷ s) t e h = refl

-- With the plugin on, a message of a named player that has one of the keywords anywhere in it, whatever
-- the case of its letters, forgives each open record of that player on that server, and leaves every
-- other record as it was.
pub handle_apology-AllAnswered :
    (now : ℕ) (server : ℤ) (killer msg front back : Bytes) (c : ℕ) (k : Bytes) (t : TkTables)
    → is_on t ≡ true
    → killer ≢ []
    → exists (equal (c ∷ k)) (keywords (keywords_text t)) ≡ true
    → map lower msg ≡ front ++ ((c ∷ k) ++ back)
    → AllAnswered now server killer t.tk_forgive (handle_apology now server killer msg t).tk_forgive
unfolding handle_apology
handle_apology-AllAnswered now server killer msg front back c k t on named key said =
    let apology : is_apology t msg ≡ true =
      exists-contains (c ∷ k) (map lower msg) (keywords (keywords_text t)) key
        (ap (contains (c ∷ k)) said ∙ contains-append c k front back) in
    let spoken : equal msg [] ≡ false = not_empty msg _ said (said_nothing c k front back) in
    let given : equal killer [] ≡ false = ground (arith, equal_iff killer [], named) in
    rw on (
      rw given (rw spoken (rw apology (forgive_active-AllAnswered now server killer t.tk_forgive))))
