-- ===== src/Core/Numbers/RoundTrip.antt =====
-- `stoi` reads back what `to_string` wrote, and stays within the range of `int`.
use mbsquad.Prelude.{
  ℕ, zero, suc, ◌+◌, ◌-◌, ◌*◌, ◌/◌, ◌%◌, ◌^◌, ◌<◌, ◌≡◌, ◌≢◌, refl, ◌∙◌, ap, sym, subst, Bool, true,
  false, [], ◌∷◌, ◌++◌, Option, none, some, arith, ltb, ◌>>=◌, All, All-append, append-nil,
  Bool-cases, inl, inr, Option-cases,
}
use mathlib.Core.List.{concat-ne-nil}
use mbsquad.Prelude.Bytes.{Bytes}
use mbsquad.Prelude.Int.{ℤ, pos, negsuc, ◌≤ℤ◌}
use mbsquad.Core.Numbers.{
  IsInt, is_digit, is_space, digits_value, read_digits, in_range, stoi, decimal, decimal_nat,
  to_string, safe_stoi,
}

abbrev pub AllDigits : Bytes → Type 0
AllDigits = All (λ c. is_digit c ≡ true)

-- A text at which the digits end.
abbrev pub Stops : Bytes → Type 0
Stops [] = Unit
Stops (c ∷ s) = is_digit c ≡ false

digits_value-append :
    (acc : ℕ) (s t : Bytes)
    → AllDigits s
    → digits_value acc (s ++ t) ≡ digits_value (digits_value acc s) t
unfolding digits_value
digits_value-append acc [] t h = refl
digits_value-append acc (c ∷ s) t (d, h) = rw d (digits_value-append (acc * 10 + (c - b'0')) s t h)

digits_value_stop : (acc : ℕ) (t : Bytes) → Stops t → digits_value acc t ≡ acc
unfolding digits_value
digits_value_stop acc [] h = refl
digits_value_stop acc (c ∷ t) h = rw h

last_digit : (n : ℕ) → is_digit (b'0' + n % 10) ≡ true
last_digit n = ground arith

decimal-AllDigits : (f n : ℕ) → AllDigits (decimal f n)
unfolding decimal
decimal-AllDigits zero n = tt
decimal-AllDigits (suc f) n = elim (Bool-cases (ltb n 10)) [
  | inl small ↦ rw small (ground arith, tt)
  | inr large ↦
      rw large
        (All-append _ (decimal f (n / 10)) _ (decimal-AllDigits f (n / 10)) (last_digit n, tt))
]

digits_value-decimal : (f n : ℕ) → n < f → digits_value 0 (decimal f n) ≡ n
unfolding decimal digits_value
digits_value-decimal zero n h = absurd (omega arith)
digits_value-decimal (suc f) n h = elim (Bool-cases (ltb n 10)) [
  | inl small ↦ rw small (ground arith)
  | inr large ↦ rw large (
      digits_value-append 0 (decimal f (n / 10)) _ (decimal-AllDigits f (n / 10))
      ∙ rw (last_digit n) (omega (arith, digits_value-decimal f (n / 10) (ground arith))))
]

pub decimal_nat-AllDigits : (n : ℕ) → AllDigits (decimal_nat n)
unfolding decimal_nat
decimal_nat-AllDigits n = decimal-AllDigits (suc n) n

decimal-ne-nil : (f n : ℕ) → n < f → decimal f n ≢ []
unfolding decimal
decimal-ne-nil zero n h = absurd (omega arith)
decimal-ne-nil (suc f) n h = elim (Bool-cases (ltb n 10)) [
  | inl small ↦ rw small (λ e. cc)
  | inr large ↦ rw large (concat-ne-nil (b'0' + n % 10) (decimal f (n / 10)))
]

read_digits-append :
    (s t : Bytes) → AllDigits s → s ≢ [] → Stops t → read_digits (s ++ t) ≡ some (digits_value 0 s)
unfolding read_digits
read_digits-append [] t a ne h = absurd (ne refl)
read_digits-append (c ∷ s) t a ne h =
    rw a.0 (ap some (digits_value-append 0 (c ∷ s) t a ∙ digits_value_stop _ t h))

stoi_digits :
    (s t : Bytes) → AllDigits s → s ≢ [] → stoi (s ++ t) ≡ (read_digits (s ++ t) >>= in_range false)
unfolding stoi
stoi_digits [] t a ne = absurd (ne refl)
stoi_digits (c ∷ s) t a ne = let d = a.0 in ground arith

read_digits-decimal_nat : (n : ℕ) (t : Bytes) → Stops t → read_digits (decimal_nat n ++ t) ≡ some n
unfolding decimal_nat
read_digits-decimal_nat n t h =
    read_digits-append (decimal (suc n) n) t (decimal-AllDigits (suc n) n)
      (decimal-ne-nil (suc n) n (omega arith)) h
    ∙ ap some (digits_value-decimal (suc n) n (omega arith))

stoi-decimal_nat : (n : ℕ) (t : Bytes) → Stops t → stoi (decimal_nat n ++ t) ≡ in_range false n
stoi-decimal_nat n t h =
    unfold decimal_nat in
    stoi_digits (decimal (suc n) n) t (decimal-AllDigits (suc n) n)
      (decimal-ne-nil (suc n) n (omega arith))
    ∙ ap (λ r. r >>= in_range false) (read_digits-decimal_nat n t h)

pub stoi_nat : (n : ℕ) → n < 2 ^ 31 → stoi (decimal_nat n) ≡ some (pos n)
stoi_nat n h = rw append-nil at (stoi-decimal_nat n [] tt) ∙ unfold in_range in ground arith

-- `stoi` reads back every `int` that `to_string` wrote, whatever follows the digits.
pub stoi-to_string : (z : ℤ) (t : Bytes) → IsInt z → Stops t → stoi (to_string z ++ t) ≡ some z
unfolding to_string
stoi-to_string (pos n) t i h = stoi-decimal_nat n t h ∙ unfold in_range in ground arith
stoi-to_string (negsuc n) t i h =
    unfold stoi in (rw (read_digits-decimal_nat (suc n) t h) (unfold in_range in ground arith))

in_range-IsInt : (b : Bool) (n : ℕ) (z : ℤ) → in_range b n ≡ some z → IsInt z
unfolding in_range
in_range-IsInt false n (pos m) h = ground arith
in_range-IsInt false n (negsuc m) h = ground arith
in_range-IsInt true zero (pos m) h = ground arith
in_range-IsInt true zero (negsuc m) h = ground arith
in_range-IsInt true (suc n) (pos m) h = ground arith
in_range-IsInt true (suc n) (negsuc m) h = ground arith

bind_in_range-IsInt : (b : Bool) (o : Option ℕ) (z : ℤ) → (o >>= in_range b) ≡ some z → IsInt z
bind_in_range-IsInt b none z h = cc
bind_in_range-IsInt b (some n) z h = in_range-IsInt b n z h

pub stoi-IsInt : (s : Bytes) (z : ℤ) → stoi s ≡ some z → IsInt z
unfolding stoi
stoi-IsInt [] z h = cc
stoi-IsInt (c ∷ s) z h = elim (Bool-cases (is_space c)) [
  | inl space ↦ stoi-IsInt s z (rw space at h)
  | inr _ ↦ ground (
    arith,
    stoi-IsInt s z,
    bind_in_range-IsInt true (read_digits s) z,
    bind_in_range-IsInt false (read_digits s) z,
    bind_in_range-IsInt false (read_digits (c ∷ s)) z,
  )
]

-- Whatever the text, the result is an `int`, if the fallback is one.
pub safe_stoi-IsInt : (s : Bytes) (fallback : ℤ) → IsInt fallback → IsInt (safe_stoi s fallback)
unfolding safe_stoi
safe_stoi-IsInt [] fallback h = h
safe_stoi-IsInt (c ∷ s) fallback h = elim (Option-cases (stoi (c ∷ s))) [
  | inl e ↦ rw (e, safe_stoi) h
  | inr (z, e) ↦ rw (e, safe_stoi) (stoi-IsInt (c ∷ s) z e)
]

pub safe_stoi-eq : (s : Bytes) (z fallback : ℤ) → stoi s ≡ some z → safe_stoi s fallback ≡ z
unfolding safe_stoi
safe_stoi-eq [] z fallback h = unfold stoi in cc
safe_stoi-eq (c ∷ s) z fallback h = rw (h, safe_stoi)

-- A number that was stored as text is read back.
pub safe_stoi-to_string : (z fallback : ℤ) → IsInt z → safe_stoi (to_string z) fallback ≡ z
safe_stoi-to_string z fallback h =
    safe_stoi-eq (to_string z) z fallback (rw append-nil at (stoi-to_string z [] h tt))

safe_stoi-none : (s : Bytes) (fallback : ℤ) → stoi s ≡ none → safe_stoi s fallback ≡ fallback
unfolding safe_stoi
safe_stoi-none [] fallback h = refl
safe_stoi-none (c ∷ s) fallback h = rw (h, safe_stoi)

in_range_le : (n : ℕ) (z : ℤ) → in_range false n ≡ some z → z ≤ℤ pos n
unfolding in_range
in_range_le n (pos m) h = ground arith
in_range_le n (negsuc m) h = ground arith

-- A stored number that is no `int` is read as zero, so never as more than it is.
pub safe_stoi_le : (z : ℤ) → pos 0 ≤ℤ z → safe_stoi (to_string z) (pos 0) ≤ℤ z
unfolding to_string
safe_stoi_le (negsuc n) h = absurd (omega (arith, h))
safe_stoi_le (pos n) h =
    let read = rw append-nil at (stoi-decimal_nat n [] tt) in
    elim (Option-cases (stoi (decimal_nat n))) [
      | inl e ↦
          subst (λ x. x ≤ℤ pos n) (sym (safe_stoi-none (decimal_nat n) (pos 0) e)) (omega arith)
      | inr (z, e) ↦
          subst (λ x. x ≤ℤ pos n) (sym (safe_stoi-eq (decimal_nat n) z (pos 0) e))
            (in_range_le n z (sym read ∙ e))
    ]
