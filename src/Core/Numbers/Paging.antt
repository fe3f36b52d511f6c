-- ===== src/Core/Numbers/Paging.antt =====
-- `parsePageParams` of src/core/shared_utils.h. An argument of the query is `none` where it is
-- missing, and `query` then gives the fallback text.
use mbsquad.Prelude.{
  ℕ, zero, suc, ◌+◌, ◌-◌, ◌*◌, ◌^◌, ◌≤◌, ◌<◌, min, max, ◌≡◌, refl, Option, none, some, arith, ltb,
  if◌then◌else◌,
}
use mbsquad.Prelude.Bytes.{Bytes, codes}
use mbsquad.Prelude.Int.{ℤ, pos, negsuc}
use mbsquad.Core.Numbers.{IsInt, decimal_nat, safe_stoi}
use mbsquad.Core.Numbers.RoundTrip.{stoi_nat, safe_stoi-IsInt, safe_stoi-eq}

pub record PageParams : Type 0 where
  pub page : ℕ
  pub page_size : ℕ
  pub offset : ℕ
  pub total : ℕ
  pub total_pages : ℕ

-- `std::max(1, z)`
abbrev at_least_one : ℤ → ℕ
at_least_one (pos n) = max 1 n
at_least_one (negsuc n) = 1

abbrev query : Option Bytes → Bytes → Bytes
query none fallback = fallback
query (some text) fallback = text

-- The product of two `int`s; `none` is an overflow, which is undefined.
abbrev mul_int : ℕ → ℕ → Option ℕ
mul_int a b = if ltb (a * b) (2 ^ 31) then some (a * b) else none

pub page_of : Option Bytes → ℕ
page_of text = at_least_one (safe_stoi (query text (codes "1")) (pos 1))

pub page_size_of : Option Bytes → ℕ → ℕ
page_size_of text max_size =
    min max_size (at_least_one (safe_stoi (query text (codes "50")) (pos 50)))

abbrev with_offset : ℕ → ℕ → Option ℕ → Option PageParams
with_offset page size none = none
with_offset page size (some offset) =
    some (record { page = page; page_size = size; offset = offset; total = 0; total_pages = 0 })

pub parse_page_params : Option Bytes → Option Bytes → ℕ → Option PageParams
parse_page_params page size max_size =
    with_offset (page_of page) (page_size_of size max_size)
      (mul_int (page_of page - 1) (page_size_of size max_size))

at_least_one_bounds : (z : ℤ) → IsInt z → (1 ≤ at_least_one z) × (at_least_one z < 2 ^ 31)
at_least_one_bounds (pos n) h = (omega arith, omega arith)
at_least_one_bounds (negsuc n) h = (omega arith, omega arith)

page_of_bounds : (text : Option Bytes) → (1 ≤ page_of text) × (page_of text < 2 ^ 31)
unfolding page_of
page_of_bounds text =
    at_least_one_bounds _ (safe_stoi-IsInt (query text (codes "1")) (pos 1) (omega arith))

-- The page that a link names.
pub page_of-decimal_nat : (n : ℕ) → 1 ≤ n → n < 2 ^ 31 → page_of (some (decimal_nat n)) ≡ n
unfolding page_of
page_of-decimal_nat n h small =
    rw (safe_stoi-eq (decimal_nat n) (pos n) (pos 1) (stoi_nat n small)) (omega arith)

page_size_of_bounds :
    (text : Option Bytes) (max_size : ℕ)
    → 1 ≤ max_size
    → (1 ≤ page_size_of text max_size) × (page_size_of text max_size ≤ max_size)
unfolding page_size_of
page_size_of_bounds text max_size h =
    let bounds =
      at_least_one_bounds _ (safe_stoi-IsInt (query text (codes "50")) (pos 50) (omega arith)) in
    (omega (arith, bounds), omega arith)

-- The rows that a page shows.
abbrev pub Window : PageParams → ℕ → ℕ → Type 0
Window p first last = (p.offset ≡ first) × (p.offset + p.page_size ≡ last)

product_bounds :
    (k s m : ℕ)
    → 1 ≤ k
    → 1 ≤ s
    → s ≤ m
    → k * m ≤ 2 ^ 31
    → ((k - 1) * s < 2 ^ 31) × ((k - 1) * s + s ≡ k * s)
product_bounds zero s m hk hs hm h = absurd (omega arith)
product_bounds (suc k) s m hk hs hm h = (grind arith, grind arith)

-- For each page up to the bound, whatever the texts of the query: the parameters are defined, the
-- size is between 1 and the limit, and page k holds the rows from (k - 1) * size up to k * size.
pub parse_page_params-Window :
    (page size : Option Bytes) (max_size : ℕ)
    → 1 ≤ max_size
    → page_of page * max_size ≤ 2 ^ 31
    → (p : PageParams) × (parse_page_params page size max_size ≡ some p)
      × (1 ≤ p.page_size)
      × (p.page_size ≤ max_size)
      × Window p ((page_of page - 1) * p.page_size) (page_of page * p.page_size)
unfolding parse_page_params
parse_page_params-Window page size max_size h bound =
    let (size_pos, size_le) = page_size_of_bounds size max_size h in
    let (small, next) =
      product_bounds (page_of page) (page_size_of size max_size) max_size (page_of_bounds page).0
        size_pos size_le bound in
    (
      record {
        page = page_of page;
        page_size = page_size_of size max_size;
        offset = (page_of page - 1) * page_size_of size max_size;
        total = 0;
        total_pages = 0;
      },
      ground arith,
      size_pos,
      size_le,
      (refl, next),
    )
