-- ===== src/Core/Escape/Percent.antt =====
-- `urlDecode` against the encoders of the browser.
use mbsquad.Prelude.{
  ℕ, ◌+◌, ◌-◌, ◌*◌, ◌/◌, ◌%◌, ◌<◌, Bool, false, ◌≡◌, refl, ap, ◌∙◌, [], ◌∷◌, ◌++◌, some, arith, ltb,
  leb, ◌==◌, if◌then◌else◌, ◌&&◌, ◌||◌, Bool-cases, inl, inr,
}
use mbsquad.Prelude.Bytes.{Bytes, AllBytes}
use mbsquad.Core.Escape.{hex_digit, scan_digits, scan_hex, is_space, url_decode}

-- A digit in upper case, as `encodeURIComponent` writes it.
abbrev hex_char : ℕ → ℕ
hex_char n = if ltb n 10 then b'0' + n else b'A' + (n - 10)

abbrev is_unreserved : ℕ → Bool
is_unreserved c =
    (leb b'a' c && leb c b'z')
    || (leb b'A' c && leb c b'Z')
    || (leb b'0' c && leb c b'9')
    || c == b'-'
    || c == b'_'
    || c == b'.'

-- One byte of a form: unreserved bytes stand for themselves, a space is a plus sign.
pub percent_byte : ℕ → Bytes
percent_byte c =
    if is_unreserved c
    then c ∷ []
    else if c == b' '
    then b'+' ∷ []
    else b'%' ∷ hex_char (c / 16) ∷ hex_char (c % 16) ∷ []

pub percent_encode : Bytes → Bytes
unfolding percent_byte
percent_encode [] = []
percent_encode (c ∷ s) = percent_byte c ++ percent_encode s

hex_digit-hex_char : (n : ℕ) → n < 16 → hex_digit (hex_char n) ≡ some n
unfolding hex_digit
hex_digit-hex_char n h = ground arith

abbrev PlainDigit : ℕ → Type 0
PlainDigit x = (is_space x ≡ false) × ((x == b'+') ≡ false) × ((x == b'-') ≡ false)

hex_digit-PlainDigit : (x d : ℕ) → hex_digit x ≡ some d → PlainDigit x
unfolding hex_digit
hex_digit-PlainDigit x d h = ground arith

scan_hex_two :
    (x y d e : ℕ) (s : Bytes)
    → hex_digit x ≡ some d
    → hex_digit y ≡ some e
    → scan_hex (x ∷ y ∷ s) ≡ d * 16 + e
unfolding scan_hex scan_digits
scan_hex_two x y d e s h k = ground (arith, hex_digit-PlainDigit x d h)

scan_hex-hex_char :
    (c : ℕ) (s : Bytes) → c < 256 → scan_hex (hex_char (c / 16) ∷ hex_char (c % 16) ∷ s) % 256 ≡ c
scan_hex-hex_char c s h = omega (
  arith,
  scan_hex_two _ _ _ _ s (hex_digit-hex_char (c / 16) (omega arith))
      (hex_digit-hex_char (c % 16) (omega arith)),
)

url_decode_plain :
    (c : ℕ) (s : Bytes)
    → (c == b'%') ≡ false
    → url_decode (c ∷ s) ≡ (if c == b'+' then b' ' else c) ∷ url_decode s
unfolding url_decode
url_decode_plain c [] h = refl
url_decode_plain c (d ∷ []) h = refl
url_decode_plain c (d ∷ e ∷ s) h = rw h

url_decode_hex :
    (d e : ℕ) (s : Bytes)
    → url_decode (b'%' ∷ d ∷ e ∷ s) ≡ (scan_hex (d ∷ e ∷ s) % 256) ∷ url_decode s
unfolding url_decode
url_decode_hex d e s = refl

url_decode-percent_byte :
    (c : ℕ) (s : Bytes) → c < 256 → url_decode (percent_byte c ++ s) ≡ c ∷ url_decode s
unfolding percent_byte
url_decode-percent_byte c s h = elim (Bool-cases (is_unreserved c)) [
  | inl plain ↦ rw plain (ground (arith, url_decode_plain c s))
  | inr other ↦ rw other (elim (Bool-cases (c == b' ')) [
    | inl space ↦ rw space (ground (arith, url_decode_plain b'+' s))
    | inr hex ↦ rw hex (
        rw (url_decode_hex (hex_char (c / 16)) (hex_char (c % 16)) s)
          (ap (λ x. x ∷ url_decode s) (scan_hex-hex_char c s h)))
  ])
]

-- Decoding gives back every byte string that was encoded.
pub url_decode-percent_encode : (s : Bytes) → AllBytes s → url_decode (percent_encode s) ≡ s
unfolding percent_encode
url_decode-percent_encode [] h = unfold url_decode in refl
url_decode-percent_encode (c ∷ s) h =
    url_decode-percent_byte c (percent_encode s) h.0 ∙ ap (◌∷◌ c) (url_decode-percent_encode s h.1)
