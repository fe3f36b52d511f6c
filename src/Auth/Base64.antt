-- ===== src/Auth/Base64.antt =====
-- `base64Encode` and `base64Decode` of src/core/auth.cpp.
use mbsquad.Prelude.{
  ℕ, ◌+◌, ◌-◌, ◌*◌, ◌/◌, ◌%◌, ◌^◌, ◌<◌, ◌≡◌, refl, ap, ◌∙◌, false, ◌&&◌, [], ◌∷◌, Option, none,
  some, arith, ltb, leb, ◌==◌, if◌then◌else◌,
}
use mbsquad.Prelude.Bytes.{Bytes, AllBytes}

-- The table `t` of the encoder.
abbrev base64_char : ℕ → ℕ
base64_char n =
    if ltb n 26
    then b'A' + n
    else if ltb n 52
    then b'a' + (n - 26)
    else if ltb n 62
    then b'0' + (n - 52)
    else if n == 62
    then b'+'
    else b'/'

-- `t[(n >> shift) & 0x3F]`
abbrev sextet : ℕ → ℕ → ℕ
sextet n shift = base64_char (n / 2 ^ shift % 64)

-- One round of the loop takes three bytes, or what is left of them. The three `|=` join bytes at
-- distinct places, so they add.
pub base64_encode : Bytes → Bytes
base64_encode [] = []
base64_encode (a ∷ []) = let n = a * 2 ^ 16 in sextet n 18 ∷ sextet n 12 ∷ b'=' ∷ b'=' ∷ []
base64_encode (a ∷ b ∷ []) =
    let n = a * 2 ^ 16 + b * 2 ^ 8 in sextet n 18 ∷ sextet n 12 ∷ sextet n 6 ∷ b'=' ∷ []
base64_encode (a ∷ b ∷ c ∷ s) =
    let n = a * 2 ^ 16 + b * 2 ^ 8 + c in
    sextet n 18 ∷ sextet n 12 ∷ sextet n 6 ∷ sextet n 0 ∷ base64_encode s

-- The table `t` of the decoder; `none` is -1.
base64_value : ℕ → Option ℕ
base64_value c =
    if leb b'A' c && leb c b'Z'
    then some (c - b'A')
    else if leb b'a' c && leb c b'z'
    then some (c - b'a' + 26)
    else if leb b'0' c && leb c b'9'
    then some (c - b'0' + 52)
    else if c == b'+'
    then some 62
    else if c == b'/'
    then some 63
    else none

-- The loop of the decoder. `val` is the bit pattern of an `int`, from which a shift to the left
-- drops the high bits; `held` is `bits + 8`, the number of bits read and not yet written.
decode_loop : ℕ → ℕ → Bytes → Bytes
decode_loop val held [] = []
decode_loop val held (c ∷ s) =
    let skip = decode_loop val held s in
    let next : ℕ → Bytes = λ d.
      let val' = (val * 64 + d) % 2 ^ 32 in
      let wait = decode_loop val' (held + 6) s in
      let write = (val' / 2 ^ (held + 6 - 8) % 256) ∷ decode_loop val' (held + 6 - 8) s in
      if leb 8 (held + 6) then write else wait in
    if c == b'=' then [] else elim (base64_value c) [ none ↦ skip | some d ↦ next d ]

pub base64_decode : Bytes → Bytes
base64_decode s = decode_loop 0 0 s

base64_value-base64_char : (d : ℕ) → d < 64 → base64_value (base64_char d) ≡ some d
unfolding base64_value
base64_value-base64_char d h = ground arith

base64_char-ne-pad : (d : ℕ) → d < 64 → (base64_char d == b'=') ≡ false
base64_char-ne-pad d h = ground arith

-- The pattern after one more sextet.
abbrev shifted : ℕ → ℕ → ℕ
shifted val d = (val * 64 + d) % 2 ^ 32

decode_loop_wait :
    (val d : ℕ) (s : Bytes)
    → d < 64
    → decode_loop val 0 (base64_char d ∷ s) ≡ decode_loop (shifted val d) 6 s
unfolding decode_loop
decode_loop_wait val d s h = rw (base64_char-ne-pad d h) (rw (base64_value-base64_char d h))

decode_loop_first :
    (val d : ℕ) (s : Bytes)
    → d < 64
    → decode_loop val 6 (base64_char d ∷ s)
      ≡ (shifted val d / 16 % 256) ∷ decode_loop (shifted val d) 4 s
unfolding decode_loop
decode_loop_first val d s h = rw (base64_char-ne-pad d h) (rw (base64_value-base64_char d h))

decode_loop_second :
    (val d : ℕ) (s : Bytes)
    → d < 64
    → decode_loop val 4 (base64_char d ∷ s)
      ≡ (shifted val d / 4 % 256) ∷ decode_loop (shifted val d) 2 s
unfolding decode_loop
decode_loop_second val d s h = rw (base64_char-ne-pad d h) (rw (base64_value-base64_char d h))

decode_loop_third :
    (val d : ℕ) (s : Bytes)
    → d < 64
    → decode_loop val 2 (base64_char d ∷ s)
      ≡ (shifted val d / 1 % 256) ∷ decode_loop (shifted val d) 0 s
unfolding decode_loop
decode_loop_third val d s h = rw (base64_char-ne-pad d h) (rw (base64_value-base64_char d h))

decode_loop_pad : (val held : ℕ) (s : Bytes) → decode_loop val held (b'=' ∷ s) ≡ []
unfolding decode_loop
decode_loop_pad val held s = refl

-- The bytes that two, three and four sextets give, from any pattern.
module _ (val d₁ d₂ : ℕ) (h₁ : d₁ < 64) (h₂ : d₂ < 64) where
  decode_two :
      (s : Bytes)
      → decode_loop val 0 (base64_char d₁ ∷ base64_char d₂ ∷ s)
        ≡ (d₁ * 4 + d₂ / 16) ∷ decode_loop (shifted (shifted val d₁) d₂) 4 s
  decode_two s =
      decode_loop_wait val d₁ (base64_char d₂ ∷ s) h₁
      ∙ decode_loop_first (shifted val d₁) d₂ s h₂
      ∙ ap (λ x. x ∷ decode_loop (shifted (shifted val d₁) d₂) 4 s) (omega arith)

  decode_three :
      (d₃ : ℕ) (s : Bytes)
      → d₃ < 64
      → decode_loop val 0 (base64_char d₁ ∷ base64_char d₂ ∷ base64_char d₃ ∷ s)
        ≡ (d₁ * 4 + d₂ / 16)
          ∷ (d₂ % 16 * 16 + d₃ / 4)
          ∷ decode_loop (shifted (shifted (shifted val d₁) d₂) d₃) 2 s
  decode_three d₃ s h₃ =
      decode_two (base64_char d₃ ∷ s)
      ∙ ap (◌∷◌ (d₁ * 4 + d₂ / 16)) (
          decode_loop_second (shifted (shifted val d₁) d₂) d₃ s h₃
          ∙ ap (λ x. x ∷ decode_loop (shifted (shifted (shifted val d₁) d₂) d₃) 2 s) (omega arith))

  decode_four :
      (d₃ d₄ : ℕ) (s : Bytes)
      → d₃ < 64
      → d₄ < 64
      → decode_loop val 0 (base64_char d₁ ∷ base64_char d₂ ∷ base64_char d₃ ∷ base64_char d₄ ∷ s)
        ≡ (d₁ * 4 + d₂ / 16)
          ∷ (d₂ % 16 * 16 + d₃ / 4)
          ∷ (d₃ % 4 * 64 + d₄)
          ∷ decode_loop (shifted (shifted (shifted (shifted val d₁) d₂) d₃) d₄) 0 s
  decode_four d₃ d₄ s h₃ h₄ =
      let val₃ = shifted (shifted (shifted val d₁) d₂) d₃ in
      decode_three d₃ (base64_char d₄ ∷ s) h₃
      ∙ ap (λ t. (d₁ * 4 + d₂ / 16) ∷ (d₂ % 16 * 16 + d₃ / 4) ∷ t)
          (decode_loop_third val₃ d₄ s h₄
            ∙ ap (λ x. x ∷ decode_loop (shifted val₃ d₄) 0 s) (omega arith))

cons_eq : {x y : ℕ} {s t : Bytes} → x ≡ y → s ≡ t → x ∷ s ≡ y ∷ t
cons_eq p q = cc

decode_loop-base64_encode :
    (s : Bytes) (val : ℕ) → AllBytes s → decode_loop val 0 (base64_encode s) ≡ s
unfolding base64_encode
decode_loop-base64_encode [] val h = unfold decode_loop in refl
decode_loop-base64_encode (a ∷ []) val (ha, h) =
    let n = a * 2 ^ 16 in
    decode_two val (n / 2 ^ 18 % 64) (n / 2 ^ 12 % 64) (omega arith) (omega arith)
      (b'=' ∷ b'=' ∷ [])
    ∙ cons_eq (omega arith) (decode_loop_pad _ 4 (b'=' ∷ []))
decode_loop-base64_encode (a ∷ b ∷ []) val (ha, (hb, h)) =
    let n = a * 2 ^ 16 + b * 2 ^ 8 in
    decode_three val (n / 2 ^ 18 % 64) (n / 2 ^ 12 % 64) (omega arith) (omega arith)
      (n / 2 ^ 6 % 64) (b'=' ∷ []) (omega arith)
    ∙ cons_eq (omega arith) (cons_eq (omega arith) (decode_loop_pad _ 2 []))
decode_loop-base64_encode (a ∷ b ∷ c ∷ s) val (ha, (hb, (hc, h))) =
    let n = a * 2 ^ 16 + b * 2 ^ 8 + c in
    decode_four val (n / 2 ^ 18 % 64) (n / 2 ^ 12 % 64) (omega arith) (omega arith) (n / 2 ^ 6 % 64)
      (n / 2 ^ 0 % 64) (base64_encode s) (omega arith) (omega arith)
    ∙ cons_eq (omega arith)
        (cons_eq (omega arith) (cons_eq (omega arith) (decode_loop-base64_encode s _ h)))

-- Decoding gives back every byte string that was encoded, of any length.
pub base64_decode-base64_encode : (s : Bytes) → AllBytes s → base64_decode (base64_encode s) ≡ s
unfolding base64_decode
base64_decode-base64_encode s h = decode_loop-base64_encode s 0 h
