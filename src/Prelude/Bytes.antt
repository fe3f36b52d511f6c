-- ===== src/Prelude/Bytes.antt =====
-- Byte strings: a `std::string` is the list of its bytes.
use Prim.Native.Char.{code}
use Prim.Native.String.{String}
use mbsquad.Prelude.Tests.{◌==◌, ltb, leb, if◌then◌else◌}
use Prim.Native.Nat.{ℕ, ◌<◌, ◌+◌, ◌/◌, ◌%◌}
use mathlib.Core.Path.{◌≡◌, refl}
use mathlib.Core.Bool.{Bool, true, false, ◌&&◌}
use mathlib.Core.Logic.{◌↔◌}
use mathlib.Core.Option.{Option, none, some}
use mathlib.Core.List.{List, [], ◌∷◌, ◌++◌}
use native.Mathlib.Omega.{arith}
use mbsquad.Prelude.Lists.{All}

abbrev pub Bytes : Type 0
Bytes = List ℕ

-- The code points of a literal; these are its bytes, as every literal here is ASCII.
abbrev pub codes : String → Bytes
codes String.[] = []
codes (String.◌∷◌ c s) = code c ∷ codes s

abbrev pub AllBytes : Bytes → Type 0
AllBytes = All (λ b. b < 256)

-- The bytes of a code point in UTF-8, and of a literal that is not ASCII.
abbrev utf8_bytes : ℕ → Bytes
utf8_bytes c =
    if ltb c 128
    then c ∷ []
    else if ltb c 2048
    then (192 + c / 64) ∷ (128 + c % 64) ∷ []
    else if ltb c 65536
    then (224 + c / 4096) ∷ (128 + c / 64 % 64) ∷ (128 + c % 64) ∷ []
    else (240 + c / 262144) ∷ (128 + c / 4096 % 64) ∷ (128 + c / 64 % 64) ∷ (128 + c % 64) ∷ []

abbrev pub utf8 : String → Bytes
utf8 String.[] = []
utf8 (String.◌∷◌ c s) = utf8_bytes (code c) ++ utf8 s

-- `::tolower` in the C locale.
abbrev pub lower : ℕ → ℕ
lower c = if leb b'A' c && leb c b'Z' then c + 32 else c

-- `std::string::operator==`
unfoldable pub equal : Bytes → Bytes → Bool
equal [] [] = true
equal [] (c ∷ rest) = false
equal (c ∷ rest) [] = false
equal (c ∷ rest) (c' ∷ rest') = (c == c') && equal rest rest'

pub equal_iff : (left right : Bytes) → (equal left right ≡ true) ↔ (left ≡ right)
unfolding equal
equal_iff [] [] = ground arith
equal_iff [] (c ∷ rest) = ground arith
equal_iff (c ∷ rest) [] = ground arith
equal_iff (c ∷ rest) (c' ∷ rest') = ground (arith, equal_iff rest rest')

pub equal_refl : (a : Bytes) → equal a a ≡ true
equal_refl a = (equal_iff a a).1 refl

-- What follows `p` in a text that begins with `p`.
unfoldable pub strip_prefix : Bytes → Bytes → Option Bytes
strip_prefix [] s = some s
strip_prefix (x ∷ p) [] = none
strip_prefix (x ∷ p) (y ∷ s) = if x == y then strip_prefix p s else none

pub strip_prefix-append : (p s : Bytes) → strip_prefix p (p ++ s) ≡ some s
unfolding strip_prefix
strip_prefix-append [] s = refl
strip_prefix-append (x ∷ p) s = ground (arith, strip_prefix-append p s)

pub strip_prefix_eq : (p s r : Bytes) → strip_prefix p s ≡ some r → s ≡ p ++ r
unfolding strip_prefix
strip_prefix_eq [] s r h = ground arith
strip_prefix_eq (x ∷ p) [] r h = ground arith
strip_prefix_eq (x ∷ p) (y ∷ s) r h = ground (arith, strip_prefix_eq p s r)

-- `s.find(p) != npos`
unfoldable pub contains : Bytes → Bytes → Bool
contains p [] = elim (strip_prefix p []) [ none ↦ false | some _ ↦ true ]
contains p (y ∷ s) = elim (strip_prefix p (y ∷ s)) [ none ↦ contains p s | some _ ↦ true ]

-- The text before the first byte `b` and the text after it: `find(b)` with the two `substr`s.
unfoldable pub split_at : ℕ → Bytes → Option (Bytes × Bytes)
split_at b [] = none
split_at b (c ∷ s) =
    if c == b
    then some ([], s)
    else elim (split_at b s) [ none ↦ none | some (x, y) ↦ some (c ∷ x, y) ]

abbrev pub Lacks : ℕ → Bytes → Type 0
Lacks b = All (λ c. (c == b) ≡ false)

pub split_at-append : (b : ℕ) (s t : Bytes) → Lacks b s → split_at b (s ++ b ∷ t) ≡ some (s, t)
unfolding split_at
split_at-append b [] t h = ground arith
split_at-append b (c ∷ s) t h = ground (arith, split_at-append b s t h.1)

pub split_at-none : (b : ℕ) (s : Bytes) → Lacks b s → split_at b s ≡ none
unfolding split_at
split_at-none b [] h = refl
split_at-none b (c ∷ s) h = ground (arith, split_at-none b s h.1)

pub split_at_eq :
    (b : ℕ) (s x y : Bytes) → split_at b s ≡ some (x, y) → (s ≡ x ++ b ∷ y) × Lacks b x
unfolding split_at
split_at_eq b [] x y h = ground arith
split_at_eq b (c ∷ s) [] y h = ground arith
split_at_eq b (c ∷ s) (d ∷ x) y h = ground (arith, split_at_eq b s x y)

-- The texts that calls of `std::getline` give until it fails: what stands before each line feed, and
-- the rest if there is any.
abbrev pub add_char : ℕ → List Bytes → List Bytes
add_char c [] = (c ∷ []) ∷ []
add_char c (line ∷ lines) = (c ∷ line) ∷ lines

unfoldable pub get_lines : Bytes → List Bytes
get_lines [] = []
get_lines (c ∷ s) = let rest = get_lines s in if c == 10 then [] ∷ rest else add_char c rest
