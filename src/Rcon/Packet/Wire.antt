-- ===== src/Rcon/Packet/Wire.antt =====
-- A packet that was sent is received as it was, if it is within the limit of the receiver.
use mbsquad.Prelude.{
  ℕ, zero, suc, ◌+◌, ◌-◌, ◌%◌, ◌^◌, ◌≤◌, ◌<◌, ◌≡◌, refl, ap, ◌∙◌, true, false, ◌||◌, [], ◌∷◌, ◌++◌,
  append_assoc, Option, none, some, arith, ltb, length, take, drop, length-append,
  take-length_append, drop-length_append, length-take, ltb_of_le, Bool-cases, inl, inr, subst,
}
use mbsquad.Prelude.Bytes.{Bytes, AllBytes}
use mbsquad.Rcon.Packet.{Packet, le32, of_le32, encode, parse_body, recv_rest, recv_packet}

abbrev pub IsInt32 : ℕ → Type 0
IsInt32 n = n < 2 ^ 32

-- A packet whose header fields fit and whose body the receiver takes.
pub record IsSendable (p : Packet) : Type 0 where
  pub id_fits : IsInt32 p.id
  pub type_fits : IsInt32 p.type
  pub body_fits : length p.body ≤ 65526

of_le32-le32 : (n : ℕ) (s : Bytes) → IsInt32 n → of_le32 (le32 n ++ s) ≡ n
unfolding of_le32 le32
of_le32-le32 n s h = omega arith

take_all : (s : Bytes) → take (length s) s ≡ s
take_all [] = refl
take_all (x ∷ s) = ap (◌∷◌ x) (take_all s)

-- The bytes behind the size of a packet.
abbrev pub contents : Packet → Bytes
contents p = le32 p.id ++ (le32 p.type ++ (p.body ++ (0 ∷ 0 ∷ [])))

encode-contents :
    (p : Packet) → length p.body + 10 < 2 ^ 32 → encode p ≡ le32 (length p.body + 10) ++ contents p
unfolding encode
encode-contents p h =
    let kept : length p.body % 2 ^ 32 ≡ length p.body = omega arith in
    let size : (4 + 4 + length p.body + 1 + 1) % 2 ^ 32 ≡ length p.body + 10 = omega arith in
    rw kept (rw (size, take_all p.body))

length-contents : (p : Packet) → length (contents p) ≡ length p.body + 10
unfolding le32
length-contents p = omega (arith, length-append p.body (0 ∷ 0 ∷ []))

of_le32-drop : (m n : ℕ) (s : Bytes) → IsInt32 n → of_le32 (drop 4 (le32 m ++ (le32 n ++ s))) ≡ n
unfolding le32
of_le32-drop m n s h = of_le32-le32 n s h

body_of : (p : Packet) → take (length p.body + 10 - 8 - 2) (drop 8 (contents p)) ≡ p.body
unfolding le32
body_of p =
    let whole : length p.body + 10 - 8 - 2 ≡ length p.body = omega arith in
    rw whole (take-length_append p.body (0 ∷ 0 ∷ []))

parse_body-contents : (p : Packet) → IsSendable p → parse_body (length p.body + 10) (contents p) ≡ p
unfolding parse_body
parse_body-contents p h = λ i. record {
  id = of_le32-le32 p.id (le32 p.type ++ (p.body ++ (0 ∷ 0 ∷ []))) h.id_fits i;
  type = of_le32-drop p.id p.type (p.body ++ (0 ∷ 0 ∷ [])) h.type_fits i;
  body = body_of p i;
}

header_long : (n : ℕ) (s : Bytes) → ltb (length (le32 n ++ s)) 4 ≡ false
unfolding le32
header_long n s = ground arith

drop-le32 : (n : ℕ) (s : Bytes) → drop 4 (le32 n ++ s) ≡ s
unfolding le32
drop-le32 n s = refl

recv_packet_sized :
    (n : ℕ) (s rest : Bytes)
    → 10 ≤ n
    → n ≤ 65536
    → length s ≡ n
    → recv_packet (le32 n ++ (s ++ rest)) ≡ (some (parse_body n s), rest)
unfolding recv_packet recv_rest
recv_packet_sized n s rest lo hi e =
    let all : take n (s ++ rest) ≡ s = rw (← e) (take-length_append s rest) in
    let left : drop n (s ++ rest) ≡ rest = rw (← e) (drop-length_append s rest) in
    let long : ltb (length (s ++ rest)) n ≡ false =
      ltb_of_le n (length (s ++ rest)) (omega (arith, length-append s rest)) in
    let in_limits : (ltb n 10 || ltb 65536 n) ≡ false = ground arith in
    rw (
      of_le32-le32 n (s ++ rest) (omega arith),
      header_long n (s ++ rest),
      drop-le32 n (s ++ rest),
      in_limits,
      long,
      all,
      left,
    )

-- Whatever follows it in the stream, a packet within the limit is received as it was sent, and
-- nothing behind it is read.
pub recv_packet-encode :
    (p : Packet) (rest : Bytes) → IsSendable p → recv_packet (encode p ++ rest) ≡ (some p, rest)
recv_packet-encode p rest h =
    rw (encode-contents p (omega arith), append_assoc)
      (recv_packet_sized (length p.body + 10) (contents p) rest (omega arith) (omega arith)
          (length-contents p)
        ∙ ap (λ q. (some q, rest)) (parse_body-contents p h))

-- A packet with a longer body is refused after its size, and all behind the size stays in the
-- stream, where the next call takes it for a packet.
pub recv_packet-encode_long :
    (p : Packet) (rest : Bytes)
    → 65526 < length p.body
    → length p.body + 10 < 2 ^ 32
    → recv_packet (encode p ++ rest) ≡ (none, contents p ++ rest)
unfolding recv_packet
recv_packet-encode_long p rest long fits =
    let size : ℕ = length p.body + 10 in
    let over : (ltb size 10 || ltb 65536 size) ≡ true = ground arith in
    rw (encode-contents p fits, append_assoc)
      (rw (
        of_le32-le32 size (contents p ++ rest) (omega arith),
        header_long size (contents p ++ rest),
        drop-le32 size (contents p ++ rest),
        over,
      ))

All-take : (n : ℕ) (s : Bytes) → AllBytes s → AllBytes (take n s)
All-take zero s h = tt
All-take (suc n) [] h = tt
All-take (suc n) (x ∷ s) (b, h) = (b, All-take n s h)

All-drop : (n : ℕ) (s : Bytes) → AllBytes s → AllBytes (drop n s)
All-drop zero s h = h
All-drop (suc n) [] h = tt
All-drop (suc n) (x ∷ s) (b, h) = All-drop n s h

of_le32-IsInt32 : (s : Bytes) → AllBytes s → IsInt32 (of_le32 s)
unfolding of_le32
of_le32-IsInt32 (a ∷ b ∷ c ∷ d ∷ s) (ha, (hb, (hc, (hd, h)))) = omega arith
of_le32-IsInt32 [] h = omega arith
of_le32-IsInt32 (a ∷ []) h = omega arith
of_le32-IsInt32 (a ∷ b ∷ []) h = omega arith
of_le32-IsInt32 (a ∷ b ∷ c ∷ []) h = omega arith

parse_body-IsSendable : (n : ℕ) (s : Bytes) → n ≤ 65536 → AllBytes s → IsSendable (parse_body n s)
unfolding parse_body
parse_body-IsSendable n s hi h = record {
  id_fits = of_le32-IsInt32 s h;
  type_fits = of_le32-IsInt32 (drop 4 s) (All-drop 4 s h);
  body_fits = omega (arith, length-take (n - 8 - 2) (drop 8 s));
}

abbrev OptionSendable : Option Packet → Type 0
OptionSendable none = Unit
OptionSendable (some p) = IsSendable p

recv_rest-OptionSendable :
    (n : ℕ) (s : Bytes) → n ≤ 65536 → AllBytes s → OptionSendable (recv_rest n s).0
unfolding recv_rest
recv_rest-OptionSendable n s hi h = elim (Bool-cases (ltb (length s) n)) [
  | inl short ↦ rw short tt
  | inr enough ↦ rw enough (parse_body-IsSendable n (take n s) hi (All-take n s h))
]

recv_packet-OptionSendable : (s : Bytes) → AllBytes s → OptionSendable (recv_packet s).0
unfolding recv_packet
recv_packet-OptionSendable s h = elim (Bool-cases (ltb (length s) 4)) [
  | inl short ↦ rw short tt
  | inr header ↦ rw header (elim (Bool-cases (ltb (of_le32 s) 10 || ltb 65536 (of_le32 s))) [
    | inl bad ↦ rw bad tt
    | inr good ↦
        rw good (recv_rest-OptionSendable (of_le32 s) (drop 4 s) (ground arith) (All-drop 4 s h))
  ])
]

-- Whatever bytes arrive, a packet that is received could have been sent: its fields fit, and its
-- body is at most 65526 bytes long.
pub recv_packet-IsSendable :
    (s rest : Bytes) (p : Packet) → AllBytes s → recv_packet s ≡ (some p, rest) → IsSendable p
recv_packet-IsSendable s rest p h e =
    subst OptionSendable (ap (λ (r : Option Packet × Bytes). r.0) e)
      (recv_packet-OptionSendable s h)
