-- ===== src/Core/Numbers.antt =====
-- Numbers in text: `std::to_string` and `std::stoi` of an `int`, as the sources use them, and
-- `safeStoi` and the page parameters of src/core/shared_utils.h.
pub mod RoundTrip
pub mod Paging
use mbsquad.Prelude.{
  ℕ, zero, suc, ◌+◌, ◌-◌, ◌*◌, ◌/◌, ◌%◌, ◌^◌, ◌≤◌, ◌<◌, Bool, true, false, ◌&&◌, ◌||◌, [], ◌∷◌,
  ◌++◌, Option, none, some, ltb, leb, ◌==◌, if◌then◌else◌, ◌>>=◌,
}
use mbsquad.Prelude.Bytes.{Bytes}
use mbsquad.Prelude.Int.{ℤ, pos, negsuc}

-- The values of an `int`.
abbrev pub IsInt : ℤ → Type 0
IsInt (pos n) = n < 2 ^ 31
IsInt (negsuc n) = n < 2 ^ 31

abbrev pub is_digit : ℕ → Bool
is_digit c = leb b'0' c && leb c b'9'

abbrev is_space : ℕ → Bool
is_space c = c == b' ' || (leb 9 c && leb c 13)

-- The digits at the front of a text; what follows them is left unread.
unfoldable pub digits_value : ℕ → Bytes → ℕ
digits_value acc [] = acc
digits_value acc (c ∷ s) = if is_digit c then digits_value (acc * 10 + (c - b'0')) s else acc

-- With no digit at the front `stoi` throws `invalid_argument`.
unfoldable pub read_digits : Bytes → Option ℕ
read_digits [] = none
read_digits (c ∷ s) = if is_digit c then some (digits_value 0 (c ∷ s)) else none

-- Out of the range of `int` it throws `out_of_range`.
unfoldable pub in_range : Bool → ℕ → Option ℤ
in_range false n = if ltb n (2 ^ 31) then some (pos n) else none
in_range true zero = some (pos 0)
in_range true (suc n) = if ltb n (2 ^ 31) then some (negsuc n) else none

-- `std::stoi`; an exception is `none`.
unfoldable pub stoi : Bytes → Option ℤ
stoi [] = none
stoi (c ∷ s) =
    let skipped = stoi s in
    if is_space c
    then skipped
    else if c == b'-'
    then read_digits s >>= in_range true
    else if c == b'+'
    then read_digits s >>= in_range false
    else read_digits (c ∷ s) >>= in_range false

-- The decimal digits of a number; `n + 1` rounds of fuel are enough, as each divides by ten.
unfoldable pub decimal : ℕ → ℕ → Bytes
decimal zero n = []
decimal (suc fuel) n =
    let front = decimal fuel (n / 10) in
    if ltb n 10 then (b'0' + n) ∷ [] else front ++ (b'0' + n % 10) ∷ []

unfoldable pub decimal_nat : ℕ → Bytes
decimal_nat n = decimal (suc n) n

-- `std::to_string`
unfoldable pub to_string : ℤ → Bytes
to_string (pos n) = decimal_nat n
to_string (negsuc n) = b'-' ∷ decimal_nat (suc n)

-- `safeStoi`
unfoldable pub safe_stoi : Bytes → ℤ → ℤ
safe_stoi [] fallback = fallback
safe_stoi (c ∷ s) fallback = elim (stoi (c ∷ s)) [ none ↦ fallback | some n ↦ n ]
