-- ===== src/Core/Settings.antt =====
-- The table `settings`: `getSetting`, `getSettingInt` and `getSettingBool` of
-- src/core/shared_utils.h. A value may be stored in quotes.
use mbsquad.Prelude.{
  suc, ◌-◌, Bool, true, false, not, ◌&&◌, List, [], ◌∷◌, ◌++◌, Option, none, some, ◌==◌, leb,
  if◌then◌else◌, length, take, drop, ◌≡◌, refl, ap, ◌∙◌, arith, length-append, take-length_append,
  append-nil,
}
use mbsquad.Prelude.Bytes.{Bytes}
use mbsquad.Prelude.Maps.{lookup, bytes_key}
use mbsquad.Prelude.Int.{ℤ, pos, eqb_ℤ}
use mbsquad.Core.Numbers.{IsInt, stoi, to_string}
use mbsquad.Core.Numbers.RoundTrip.{stoi-to_string}

abbrev pub SettingRows : Type 0
SettingRows = List (Bytes × Bytes)

abbrev pub starts_quoted : Bytes → Bool
starts_quoted [] = false
starts_quoted (c ∷ s) = c == b'"'

pub ends_quoted : Bytes → Bool
ends_quoted [] = false
ends_quoted (c ∷ []) = c == b'"'
ends_quoted (c ∷ d ∷ s) = ends_quoted (d ∷ s)

-- `substr(1, size() - 2)`
pub inner : Bytes → Bytes
inner v = take (length v - 2) (drop 1 v)

unfoldable pub setting_text : Bytes → Option Bytes → Bytes
setting_text fallback none = fallback
setting_text fallback (some v) =
    if leb 2 (length v) && starts_quoted v && ends_quoted v then inner v else v

unfoldable pub get_setting : SettingRows → Bytes → Bytes → Bytes
get_setting rows key fallback = setting_text fallback (lookup key rows)

-- The closing quote is not looked for here.
pub unquoted : Bytes → Bytes
unquoted v = if leb 2 (length v) && starts_quoted v then inner v else v

unfoldable pub number_or : ℤ → Option ℤ → ℤ
number_or fallback none = fallback
number_or fallback (some z) = z

unfoldable pub setting_number : ℤ → Option Bytes → ℤ
setting_number fallback none = fallback
setting_number fallback (some v) = number_or fallback (stoi (unquoted v))

unfoldable pub get_setting_int : SettingRows → Bytes → ℤ → ℤ
get_setting_int rows key fallback = setting_number fallback (lookup key rows)

unfoldable pub get_setting_bool : SettingRows → Bytes → Bool → Bool
get_setting_bool rows key fallback =
    not (eqb_ℤ (get_setting_int rows key (if fallback then pos 1 else pos 0)) (pos 0))

unquoted-quotes : (s : Bytes) → unquoted (b'"' ∷ (s ++ b'"' ∷ [])) ≡ s
unfolding unquoted inner
unquoted-quotes s =
    let size : suc (length (s ++ b'"' ∷ [])) - 2 ≡ length s =
      omega (arith, length-append s (b'"' ∷ [])) in
    let long : leb 2 (suc (length (s ++ b'"' ∷ []))) ≡ true =
      ground (arith, length-append s (b'"' ∷ [])) in
    rw long (ap (λ n. take n (s ++ b'"' ∷ [])) size ∙ take-length_append s (b'"' ∷ []))

-- A number that is stored in quotes is read as that number, whatever the fallback.
pub get_setting_int-to_string :
    (rows : SettingRows) (key : Bytes) (z fallback : ℤ)
    → lookup key rows ≡ some (b'"' ∷ (to_string z ++ b'"' ∷ []))
    → IsInt z
    → get_setting_int rows key fallback ≡ z
unfolding get_setting_int setting_number number_or
get_setting_int-to_string rows key z fallback found int =
    let text : stoi (to_string z) ≡ some z = rw append-nil at (stoi-to_string z [] int tt) in
    rw found (rw (unquoted-quotes (to_string z)) (rw text))

pub get_setting_int-nil : (key : Bytes) (fallback : ℤ) → get_setting_int [] key fallback ≡ fallback
unfolding get_setting_int setting_number lookup
get_setting_int-nil key fallback = refl
