-- ===== src/Core/Config/Lines.antt =====
-- A line of the settings file sets what it says.
use mbsquad.Prelude.{ℕ, true, false, [], ◌∷◌, ◌++◌, ◌==◌, ◌≡◌, refl, ap, ◌∙◌, arith, All}
use mbsquad.Prelude.Bytes.{Bytes, split_at-append, Lacks}
use mbsquad.Prelude.Maps.{bytes_key, lookup-insert_self}
use mbsquad.Core.Config.{
  Settings, is_back, is_front, put_front, trim_back, trim_front, store, load_parts, load_line, get,
  or_default,
}

trim_back_blank : (pad : Bytes) → All (λ c. is_back c ≡ true) pad → trim_back pad ≡ []
unfolding trim_back
trim_back_blank [] h = refl
trim_back_blank (c ∷ pad) (h, hs) = rw (trim_back_blank pad hs) (ground (arith, h))

trim_back-append :
    (s pad : Bytes) → All (λ c. is_back c ≡ true) pad → trim_back (s ++ pad) ≡ trim_back s
unfolding trim_back
trim_back-append [] pad h = trim_back_blank pad h
trim_back-append (c ∷ s) pad h = ap (put_front c) (trim_back-append s pad h)

trim_front-append :
    (pad s : Bytes) → All (λ c. is_front c ≡ true) pad → trim_front (pad ++ s) ≡ trim_front s
unfolding trim_front
trim_front-append [] s h = refl
trim_front-append (c ∷ pad) s (h, hs) = rw h (trim_front-append pad s hs)

-- After a line `key = value` that is no comment `get` gives the value for the key, without the
-- blanks round both, if neither begins or ends with a blank and the key has no `=`.
pub get-load_line :
    (c : ℕ) (key before lead val after fallback : Bytes) (settings : Settings)
    → (c == b'#') ≡ false
    → Lacks b'=' ((c ∷ key) ++ before)
    → All (λ b. is_back b ≡ true) before
    → All (λ b. is_front b ≡ true) lead
    → All (λ b. is_back b ≡ true) after
    → trim_back (c ∷ key) ≡ c ∷ key
    → trim_front (val ++ after) ≡ val ++ after
    → trim_back val ≡ val
    → get
        (c ∷ key)
        fallback
        (load_line (((c ∷ key) ++ before) ++ b'=' ∷ (lead ++ (val ++ after))) settings)
      ≡ val
unfolding get load_line load_parts
get-load_line c key before lead val after fallback settings plain lacks h₁ h₂ h₃ clean_key
      clean_front clean_val =
    let cut = split_at-append b'=' ((c ∷ key) ++ before) (lead ++ (val ++ after)) lacks in
    let key_read = trim_back-append (c ∷ key) before h₁ ∙ clean_key in
    let val_read =
      ap trim_back (trim_front-append lead (val ++ after) h₂ ∙ clean_front)
      ∙ trim_back-append val after h₃
      ∙ clean_val in
    rw plain (
      rw cut (
        rw (key_read, val_read)
          (unfold store in
            rw (lookup-insert_self (c ∷ key) val settings) (unfold or_default in refl))))
