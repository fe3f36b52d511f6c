-- ===== src/Prelude/Find.antt =====
-- `std::string::find` with the text before and behind the match, and the replacement of all matches.
use Prim.Native.Nat.{ℕ, zero, suc}
use mathlib.Core.Path.{◌≡◌, refl, sym, ap, ◌∙◌}
use mathlib.Core.Bool.{false}
use mathlib.Core.Option.{Option, none, some, some-injective}
use mathlib.Core.List.{[], ◌∷◌, ◌++◌, append_assoc}
use mathlib.Core.Logic.{inl, inr}
use native.Mathlib.Omega.{arith}
use mbsquad.Prelude.Tests.{◌==◌, Option-cases}
use mbsquad.Prelude.Lists.{length, drop}
use mbsquad.Prelude.Bytes.{Bytes, strip_prefix, strip_prefix_eq, strip_prefix-append, Lacks}

abbrev pub put_before : Bytes → Option (Bytes × Bytes) → Option (Bytes × Bytes)
put_before s none = none
put_before s (some (before, after)) = some (s ++ before, after)

abbrev pub found_here_or : ℕ → Option (Bytes × Bytes) → Option Bytes → Option (Bytes × Bytes)
found_here_or c later none = put_before (c ∷ []) later
found_here_or c later (some rest) = some ([], rest)

-- For a text that is not empty.
unfoldable pub find : Bytes → Bytes → Option (Bytes × Bytes)
find p [] = none
find p (c ∷ s) = found_here_or c (find p s) (strip_prefix p (c ∷ s))

abbrev replaced_here_or : Bytes → Bytes → Option Bytes → Bytes
replaced_here_or kept replaced none = kept
replaced_here_or kept replaced (some rest) = replaced

-- The text in which every match of `q ∷ p` is replaced, from left to right. The number counts the
-- bytes of a match that are still to be passed over.
unfoldable pub replace_all : ℕ → Bytes → Bytes → ℕ → Bytes → Bytes
replace_all q p new skip [] = []
replace_all q p new (suc skip) (c ∷ s) = replace_all q p new skip s
replace_all q p new zero (c ∷ s) =
    replaced_here_or (c ∷ replace_all q p new zero s) (new ++ replace_all q p new (length p) s)
      (strip_prefix (q ∷ p) (c ∷ s))

put_nothing : (o : Option (Bytes × Bytes)) → o ≡ put_before [] o
put_nothing none = refl
put_nothing (some (b, a)) = refl

put_none : (s : Bytes) (o : Option (Bytes × Bytes)) → put_before s o ≡ none → o ≡ none
put_none s none h = refl
put_none s (some (b, a)) h = absurd (cc h)

put_twice :
    (s t : Bytes) (o : Option (Bytes × Bytes))
    → put_before s (put_before t o) ≡ put_before (s ++ t) o
put_twice s t none = refl
put_twice s t (some (b, a)) = ap (λ x. some (x, a)) (sym (append_assoc s t b))

strip_other : (q c : ℕ) (p s : Bytes) → (c == q) ≡ false → strip_prefix (q ∷ p) (c ∷ s) ≡ none
unfolding strip_prefix
strip_other q c p s h = ground arith

put_before_eq :
    (c : ℕ) (s before after : Bytes) (f : Bytes → Bytes) (o : Option (Bytes × Bytes))
    → ((b a : Bytes) → o ≡ some (b, a) → s ≡ b ++ f a)
    → put_before (c ∷ []) o ≡ some (before, after)
    → c ∷ s ≡ before ++ f after
put_before_eq c s before after f none h e = absurd (cc e)
put_before_eq c s before after f (some (b, a)) h e =
    let pair = some-injective (c ∷ b, a) (before, after) e in
    ap (◌∷◌ c) (h b a refl) ∙ ap (λ (r : Bytes × Bytes). r.0 ++ f r.1) pair

module _ (q : ℕ) (p : Bytes) where
  -- A byte that does not begin the text is no match.
  find_other :
      (c : ℕ) (s : Bytes)
      → (c == q) ≡ false
      → find (q ∷ p) (c ∷ s) ≡ put_before (c ∷ []) (find (q ∷ p) s)
  unfolding find
  find_other c s h = ap (found_here_or c (find (q ∷ p) s)) (strip_other q c p s h)

  pub find-Lacks : (b s : Bytes) → Lacks q b → find (q ∷ p) (b ++ s) ≡ put_before b (find (q ∷ p) s)
  find-Lacks [] s h = put_nothing (find (q ∷ p) s)
  find-Lacks (c ∷ b) s (h, hs) =
      find_other c (b ++ s) h
      ∙ ap (put_before (c ∷ [])) (find-Lacks b s hs)
      ∙ put_twice (c ∷ []) b (find (q ∷ p) s)

  pub find_here : (s : Bytes) → find (q ∷ p) ((q ∷ p) ++ s) ≡ some ([], s)
  unfolding find
  find_here s = ap (found_here_or q (find (q ∷ p) (p ++ s))) (strip_prefix-append (q ∷ p) s)

  -- A match splits the text, and before it no match begins.
  pub find_eq :
      (s before after : Bytes)
      → find (q ∷ p) s ≡ some (before, after)
      → s ≡ before ++ ((q ∷ p) ++ after)
  unfolding find
  find_eq [] before after h = absurd (cc h)
  find_eq (c ∷ s) before after h = elim (Option-cases (strip_prefix (q ∷ p) (c ∷ s))) [
    | inr (rest, e) ↦
        let pair =
          some-injective ([], rest) (before, after)
            (sym (ap (found_here_or c (find (q ∷ p) s)) e) ∙ h) in
        strip_prefix_eq (q ∷ p) (c ∷ s) rest e
        ∙ ap (λ (r : Bytes × Bytes). r.0 ++ ((q ∷ p) ++ r.1)) pair
    | inl e ↦
        put_before_eq c s before after (◌++◌ (q ∷ p)) (find (q ∷ p) s) (λ b a. find_eq s b a)
          (sym (ap (found_here_or c (find (q ∷ p) s)) e) ∙ h)
  ]

  replace_all-skip :
      (new t s : Bytes) → replace_all q p new (length t) (t ++ s) ≡ replace_all q p new 0 s
  unfolding replace_all
  replace_all-skip new [] s = refl
  replace_all-skip new (c ∷ t) s = replace_all-skip new t s

  pub replace_all-none : (new s : Bytes) → find (q ∷ p) s ≡ none → replace_all q p new 0 s ≡ s
  unfolding replace_all find
  replace_all-none new [] h = refl
  replace_all-none new (c ∷ s) h = elim (Option-cases (strip_prefix (q ∷ p) (c ∷ s))) [
    | inr (rest, e) ↦ absurd (cc (sym (ap (found_here_or c (find (q ∷ p) s)) e) ∙ h))
    | inl e ↦
        ap (replaced_here_or _ _) e
        ∙ ap (◌∷◌ c) (
            replace_all-none new s (
              put_none (c ∷ []) (find (q ∷ p) s)
                (sym (ap (found_here_or c (find (q ∷ p) s)) e) ∙ h)))
  ]

  -- The replacement up to the first match and behind it.
  pub replace_all-found :
      (new s before after : Bytes)
      → find (q ∷ p) s ≡ some (before, after)
      → replace_all q p new 0 s ≡ before ++ (new ++ replace_all q p new 0 after)
  unfolding replace_all find
  replace_all-found new [] before after h = absurd (cc h)
  replace_all-found new (c ∷ s) before after h =
      elim (Option-cases (strip_prefix (q ∷ p) (c ∷ s))) [
        | inr (rest, e) ↦
            let pair =
              some-injective ([], rest) (before, after)
                (sym (ap (found_here_or c (find (q ∷ p) s)) e) ∙ h) in
            let tail : s ≡ p ++ rest = ap (drop 1) (strip_prefix_eq (q ∷ p) (c ∷ s) rest e) in
            ap (replaced_here_or _ _) e
            ∙ ap (λ x. new ++ replace_all q p new (length p) x) tail
            ∙ ap (◌++◌ new) (replace_all-skip new p rest)
            ∙ ap (λ (r : Bytes × Bytes). r.0 ++ (new ++ replace_all q p new 0 r.1)) pair
        | inl e ↦
            ap (replaced_here_or _ _) e
            ∙ put_before_eq c (replace_all q p new 0 s) before after
                (λ a. new ++ replace_all q p new 0 a) (find (q ∷ p) s)
                (λ b a. replace_all-found new s b a)
                (sym (ap (found_here_or c (find (q ∷ p) s)) e) ∙ h)
      ]
