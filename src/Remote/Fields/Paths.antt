-- ===== src/Remote/Fields/Paths.antt =====
-- A path of `resolveField` in src/core/remote_api_poller.cpp against the keys in it.
use mbsquad.Prelude.{
  ℕ, zero, suc, ◌≤◌, ◌≡◌, ◌≢◌, refl, ap, ◌∙◌, List, [], ◌∷◌, ◌++◌, Option, none, some, arith,
  length, length-append, All,
}
use mbsquad.Prelude.Bytes.{Bytes, Lacks, split_at-append, split_at-none}
use mbsquad.Remote.Fields.{Values, or_null, or_stop, then_resolve, resolve_loop, resolve_field}

-- The keys with dots between them.
abbrev pub dotted : List Bytes → Bytes
dotted [] = []
dotted (key ∷ []) = key
dotted (key ∷ next ∷ keys) = key ++ (b'.' ∷ dotted (next ∷ keys))

abbrev pub IsKey : Bytes → Type 0
IsKey key = (key ≢ []) × Lacks b'.' key

module _ {J : Type 0} (V : Values J) where
  -- One key after the other, and null from the first one that is not there.
  abbrev pub follow : List Bytes → J → J
  follow [] j = j
  follow (key ∷ keys) j = or_stop V (follow keys) (V.get j key)

  follow_last : (o : Option J) → or_null V o ≡ or_stop V (follow []) o
  follow_last none = refl
  follow_last (some v) = refl

  or_stop_same :
      (f g : J → J) (o : Option J) → ((v : J) → f v ≡ g v) → or_stop V f o ≡ or_stop V g o
  or_stop_same f g none h = refl
  or_stop_same f g (some v) h = h v

  resolve_loop-dotted :
      (fuel : ℕ) (keys : List Bytes) (j : J)
      → All IsKey keys
      → length (dotted keys) ≤ fuel
      → resolve_loop V fuel (dotted keys) j ≡ follow keys j
  unfolding resolve_loop
  resolve_loop-dotted zero [] j h hl = refl
  resolve_loop-dotted (suc fuel) [] j h hl = refl
  resolve_loop-dotted fuel ([] ∷ []) j h hl = absurd (h.0.0 refl)
  resolve_loop-dotted zero ((c ∷ key) ∷ []) j h hl = ground arith
  resolve_loop-dotted (suc fuel) ((c ∷ key) ∷ []) j h hl =
      ap (then_resolve V (resolve_loop V fuel) j (c ∷ key)) (split_at-none b'.' (c ∷ key) h.0.1)
      ∙ follow_last (V.get j (c ∷ key))
  resolve_loop-dotted fuel ([] ∷ next ∷ keys) j h hl = absurd (h.0.0 refl)
  resolve_loop-dotted zero ((c ∷ key) ∷ next ∷ keys) j h hl = ground arith
  resolve_loop-dotted (suc fuel) ((c ∷ key) ∷ next ∷ keys) j h hl =
      let rest = dotted (next ∷ keys) in
      let shorter : length rest ≤ fuel = omega (arith, hl, length-append key (b'.' ∷ rest)) in
      ap (then_resolve V (resolve_loop V fuel) j ((c ∷ key) ++ (b'.' ∷ rest)))
        (split_at-append b'.' (c ∷ key) rest h.0.1)
      ∙ or_stop_same (resolve_loop V fuel rest) (follow (next ∷ keys)) (V.get j (c ∷ key))
          (λ v. resolve_loop-dotted fuel (next ∷ keys) v h.1 shorter)

  -- A path of keys that are not empty and have no dots is followed key by key, to its end.
  pub resolve_field-dotted :
      (keys : List Bytes) (j : J) → All IsKey keys → resolve_field V j (dotted keys) ≡ follow keys j
  unfolding resolve_field
  resolve_field-dotted keys j h = resolve_loop-dotted (length (dotted keys)) keys j h (omega arith)
