-- ===== src/Auth/Hex.antt =====
-- `hexEncode` of src/core/auth.cpp.
use mbsquad.Prelude.{
  ℕ, ◌+◌, ◌-◌, ◌*◌, ◌/◌, ◌%◌, ◌<◌, ◌≡◌, refl, ap, sym, ◌∙◌, [], ◌∷◌, arith, ltb, if◌then◌else◌,
  length,
}
use mbsquad.Prelude.Bytes.{Bytes, AllBytes, Lacks}

-- The table `0123456789abcdef`.
abbrev hex_char : ℕ → ℕ
hex_char n = if ltb n 10 then b'0' + n else b'a' + (n - 10)

-- `data[i] >> 4` and `data[i] & 0x0F`
pub hex_encode : Bytes → Bytes
hex_encode [] = []
hex_encode (b ∷ s) = hex_char (b / 16) ∷ hex_char (b % 16) ∷ hex_encode s

hex_value : ℕ → ℕ
hex_value c = if ltb c b'a' then c - b'0' else c - b'a' + 10

-- A reader of the digits, two by two.
pub hex_decode : Bytes → Bytes
hex_decode [] = []
hex_decode (c ∷ []) = []
hex_decode (c ∷ d ∷ s) = (hex_value c * 16 + hex_value d) ∷ hex_decode s

hex_value-hex_char : (n : ℕ) → n < 16 → hex_value (hex_char n) ≡ n
unfolding hex_value
hex_value-hex_char n h = ground arith

pub hex_decode-hex_encode : (s : Bytes) → AllBytes s → hex_decode (hex_encode s) ≡ s
unfolding hex_decode hex_encode
hex_decode-hex_encode [] h = refl
hex_decode-hex_encode (b ∷ s) (hb, h) =
    let high = hex_value-hex_char (b / 16) (omega arith) in
    let low = hex_value-hex_char (b % 16) (omega arith) in
    rw (hex_decode-hex_encode s h) (ap (λ x. x ∷ s) (omega arith))

-- Two byte strings with one encoding are one.
pub hex_encode_injective :
    (s t : Bytes) → AllBytes s → AllBytes t → hex_encode s ≡ hex_encode t → s ≡ t
hex_encode_injective s t hs ht e =
    sym (hex_decode-hex_encode s hs) ∙ ap hex_decode e ∙ hex_decode-hex_encode t ht

pub length-hex_encode : (s : Bytes) → length (hex_encode s) ≡ 2 * length s
unfolding hex_encode
length-hex_encode [] = refl
length-hex_encode (b ∷ s) = omega (arith, length-hex_encode s)

pub hex_encode-Lacks : (s : Bytes) → AllBytes s → Lacks b':' (hex_encode s)
unfolding hex_encode
hex_encode-Lacks [] h = tt
hex_encode-Lacks (b ∷ s) (hb, h) = (ground arith, (ground arith, hex_encode-Lacks s h))
