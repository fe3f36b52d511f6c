-- ===== src/Prelude/Maps.antt =====
-- Association lists for `std::unordered_map`, with byte-string keys or number keys. The key test
-- is an argument, so both kinds share the lemmas.
use mathlib.Core.Path.{◌≡◌, refl, sym, ap, ◌∙◌}
use mathlib.Core.Logic.{◌↔◌, inl, inr}
use mathlib.Core.Bool.{Bool, true, false}
use mathlib.Core.Option.{Option, none, some}
use mathlib.Core.List.{List, [], ◌∷◌}
use native.Mathlib.Omega.{arith}
use Prim.Native.Nat.{ℕ}
use mbsquad.Prelude.Tests.{if◌then◌else◌, Bool-cases, ◌==◌, ==_iff, both_branches}
use mbsquad.Prelude.Lists.{All, keep}
use mbsquad.Prelude.Bytes.{Bytes, equal, equal_iff}

-- A key type with a decidable equality, as `std::hash` and `operator==` give one.
pub record Key {ℓ} (K : Type ℓ) : Type ℓ where
  pub eqb : K → K → Bool
  pub eqb_iff : (a b : K) → (eqb a b ≡ true) ↔ (a ≡ b)

instance abbrev pub nat_key : Key ℕ
nat_key = record { eqb = λ a b. a == b; eqb_iff = ==_iff }

instance abbrev pub bytes_key : Key Bytes
bytes_key = record { eqb = equal; eqb_iff = equal_iff }

pub eqb_refl {ℓ} : {K : Type ℓ} ⦃k : Key K⦄ (a : K) → k.eqb a a ≡ true
eqb_refl ⦃k⦄ a = (k.eqb_iff a a).1 refl

-- What a filter on the values leaves of a look-up.
abbrev pub only_if {κ} : {V : Type κ} → (V → Bool) → Option V → Option V
only_if p none = none
only_if p (some v) = if p v then some v else none

module _ {ℓ κ} {K : Type ℓ} {V : Type κ} ⦃k : Key K⦄ where
  -- `map.find(key)`; `none` is `map.end()`
  unfoldable pub lookup : K → List (K × V) → Option V
  lookup a [] = none
  lookup a ((j, v) ∷ m) = if k.eqb j a then some v else lookup a m

  -- `map[key] = value`
  unfoldable pub insert : K → V → List (K × V) → List (K × V)
  insert a v [] = (a, v) ∷ []
  insert a v ((j, w) ∷ m) = if k.eqb j a then (a, v) ∷ m else (j, w) ∷ insert a v m

  -- `map.erase(key)`
  unfoldable pub remove : K → List (K × V) → List (K × V)
  remove a [] = []
  remove a ((j, w) ∷ m) = if k.eqb j a then remove a m else (j, w) ∷ remove a m

  pub lookup-insert :
      (a b : K) (v : V) (m : List (K × V))
      → lookup b (insert a v m) ≡ (if k.eqb a b then some v else lookup b m)
  unfolding lookup insert
  lookup-insert a b v [] = refl
  lookup-insert a b v ((j, w) ∷ m) =
      ground (arith, k.eqb_iff a b, k.eqb_iff j a, k.eqb_iff j b, lookup-insert a b v m)

  pub lookup-remove :
      (a b : K) (m : List (K × V))
      → lookup b (remove a m) ≡ (if k.eqb a b then none else lookup b m)
  unfolding lookup remove
  lookup-remove a b [] = ground arith
  lookup-remove a b ((j, w) ∷ m) =
      ground (arith, k.eqb_iff a b, k.eqb_iff j a, k.eqb_iff j b, lookup-remove a b m)

  pub lookup-insert_self : (a : K) (v : V) (m : List (K × V)) → lookup a (insert a v m) ≡ some v
  lookup-insert_self a v m = ground (arith, lookup-insert a a v m, eqb_refl a)

  pub lookup-remove_self : (a : K) (m : List (K × V)) → lookup a (remove a m) ≡ none
  lookup-remove_self a m = ground (arith, lookup-remove a a m, eqb_refl a)

  pub remove-insert_self : (a : K) (v : V) (m : List (K × V)) → remove a (insert a v m) ≡ remove a m
  unfolding insert remove
  remove-insert_self a v [] = rw (eqb_refl a) refl
  remove-insert_self a v ((j, w) ∷ m) = ground (arith, eqb_refl a, remove-insert_self a v m)

  pub All-insert {ρ} :
      (P : K × V → Type ρ) (a : K) (v : V) (m : List (K × V))
      → P (a, v)
      → All P m
      → All P (insert a v m)
  unfolding insert
  All-insert P a v [] h hs = (h, tt)
  All-insert P a v ((j, w) ∷ m) h (hw, hs) = elim (Bool-cases (k.eqb j a)) [
    | inl own ↦ rw own (h, hs)
    | inr other ↦ rw other (hw, All-insert P a v m h hs)
  ]

  -- Each key has one entry.
  abbrev pub Distinct : List (K × V) → Type κ
  Distinct [] = Unit
  Distinct ((j, v) ∷ m) = (lookup j m ≡ none) × Distinct m

  pub insert-Distinct : (a : K) (v : V) (m : List (K × V)) → Distinct m → Distinct (insert a v m)
  unfolding insert lookup
  insert-Distinct a v [] h = (refl, tt)
  insert-Distinct a v ((j, w) ∷ m) (fresh, h) = elim (Bool-cases (k.eqb j a)) [
    | inl own ↦ rw own (ap (λ x. lookup x m) (sym ((k.eqb_iff j a).0 own)) ∙ fresh, h)
    | inr other ↦
        let apart : k.eqb a j ≡ false = ground (arith, k.eqb_iff a j, k.eqb_iff j a, other) in
        rw other (
          lookup-insert a j v m ∙ ap (λ b. if b then some v else lookup j m) apart ∙ fresh,
          insert-Distinct a v m h,
        )
  ]

  pub remove-Distinct : (a : K) (m : List (K × V)) → Distinct m → Distinct (remove a m)
  unfolding remove
  remove-Distinct a [] h = tt
  remove-Distinct a ((j, w) ∷ m) (fresh, h) = elim (Bool-cases (k.eqb j a)) [
    | inl own ↦ rw own (remove-Distinct a m h)
    | inr other ↦ rw other (
      lookup-remove a j m ∙ both_branches (λ o. o ≡ none) (k.eqb a j) none (lookup j m) refl fresh,
      remove-Distinct a m h,
    )
  ]

  abbrev pub keep_values : (V → Bool) → List (K × V) → List (K × V)
  keep_values p m = keep (λ e. p e.1) m

  pub lookup-keep_values :
      (p : V → Bool) (a : K) (m : List (K × V))
      → Distinct m
      → lookup a (keep_values p m) ≡ only_if p (lookup a m)
  unfolding lookup
  lookup-keep_values p a [] h = refl
  lookup-keep_values p a ((j, v) ∷ m) (fresh, h) =
      let rest = lookup-keep_values p a m h in
      elim (Bool-cases (k.eqb j a)) [
        | inl own ↦
            let gone : lookup a m ≡ none =
              ap (λ x. lookup x m) (sym ((k.eqb_iff j a).0 own)) ∙ fresh in
            elim (Bool-cases (p v)) [
              | inl stays ↦ rw stays (rw own (rw stays refl))
              | inr goes ↦ rw goes (rw own (rw goes (rest ∙ ap (only_if p) gone)))
            ]
        | inr other ↦ elim (Bool-cases (p v)) [
          | inl stays ↦ rw stays (rw other rest)
          | inr goes ↦ rw goes (rw other rest)
        ]
      ]
