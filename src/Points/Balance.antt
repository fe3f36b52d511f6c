-- ===== src/Points/Balance.antt =====
-- What the operations on points do to the balances and to the names.
use mbsquad.Prelude.{
  ℕ, Bool, true, false, [], ◌∷◌, Option, none, some, append-nil, ◌≡◌, ◌⊎◌, refl, sym, ap, subst,
  ◌∙◌, arith, All, Bool-cases, Option-cases, inl, inr, ◌==◌, if◌then◌else◌,
}
use mbsquad.Prelude.Bytes.{equal_refl}
use mbsquad.Prelude.Maps.{nat_key, All-insert, lookup, lookup-insert}
use mbsquad.Prelude.Int.{ℤ, pos, negsuc, pos_part, ltb_ℤ, ◌≤ℤ◌, ◌+ℤ◌, ◌-ℤ◌}
use mbsquad.Core.Numbers.{IsInt, stoi, to_string}
use mbsquad.Core.Numbers.RoundTrip.{stoi-to_string}
use mbsquad.Points.{
  PointsRow, Book, Entry, find_points, fits, earned, insert_points, update_points, add_to_row,
  add_to, add_points, deduct_row, deduct_from_row, deduct_from, deduct_points, log_of,
}
use mbsquad.Points.Found.{Found, updated, find_points-Found, find_points-insert, find_points-new}

-- A balance that is an `int` and no debt.
abbrev pub InCredit : ℤ → Type 0
InCredit z = (pos 0 ≤ℤ z) × IsInt z

abbrev pub AllInCredit : Book → Type 0
AllInCredit b = All (λ e. InCredit e.1.balance) b.points

-- The balance and the sum of a player who may have no row.
abbrev pub balance_of : Option (ℕ × PointsRow) → ℤ
balance_of none = pos 0
balance_of (some (id, row)) = row.balance

abbrev pub lifetime_of : Option (ℕ × PointsRow) → ℤ
lifetime_of none = pos 0
lifetime_of (some (id, row)) = row.lifetime_earned

text_read : (z : ℤ) → IsInt z → stoi (to_string z) ≡ some z
text_read z h = rw append-nil at (stoi-to_string z [] h tt)

fits_int : (z : ℤ) → IsInt z → fits z ≡ true
fits_int (pos n) h = ground (arith, h)
fits_int (negsuc n) h = ground (arith, h)

fits_opposite : (z : ℤ) → InCredit z → fits (pos 0 -ℤ z) ≡ true
unfolding ◌-ℤ◌
fits_opposite (pos n) h = ground (arith, h.1)
fits_opposite (negsuc n) h = absurd (ground (arith, h.0))

earned_part : (z : ℤ) → earned z ≡ pos (pos_part z)
earned_part z = ground arith

from_zero : (z : ℤ) → z ≡ pos 0 +ℤ z
unfolding ◌+ℤ◌
from_zero z = ground arith

earned_from_zero : (z : ℤ) → earned z ≡ pos 0 +ℤ pos (pos_part z)
unfolding ◌+ℤ◌
earned_from_zero z = ground arith

==_refl : (n : ℕ) → (n == n) ≡ true
==_refl n = ground arith

-- What is left of a balance that is large enough.
rest_InCredit :
    (balance amount : ℤ)
    → InCredit balance
    → InCredit amount
    → ltb_ℤ balance amount ≡ false
    → InCredit (balance -ℤ amount)
unfolding ◌-ℤ◌
rest_InCredit (pos m) (pos n) h ha enough = ground (arith, h.1, enough)
rest_InCredit (negsuc m) amount h ha enough = absurd (ground (arith, h.0))
rest_InCredit (pos m) (negsuc n) h ha enough = absurd (ground (arith, ha.0))

-- A player who has no row, or whose balance is below an amount.
abbrev pub IsShort : ℤ → Option (ℕ × PointsRow) → Type 0
IsShort amount none = Unit
IsShort amount (some (id, row)) = ltb_ℤ row.balance amount ≡ true

-- What became of a call for a deduction.
abbrev pub Deducted : Entry → Book → Bool × Book → Type 0
Deducted e b (done, b') =
    let old = find_points e.server_id e.steam_id b.points in
    AllInCredit b'
    × (((done ≡ false) × (b' ≡ b) × IsShort e.amount old)
        ⊎ ((done ≡ true)
            × (balance_of (find_points e.server_id e.steam_id b'.points)
                ≡ balance_of old -ℤ e.amount)))

deduct_row-Deducted :
    (e : Entry) (id : ℕ) (row : PointsRow) (b : Book)
    → find_points e.server_id e.steam_id b.points ≡ some (id, row)
    → AllInCredit b
    → InCredit (row.balance -ℤ e.amount)
    → Deducted e b (true, deduct_row e id row (row.balance -ℤ e.amount) b)
unfolding deduct_row
deduct_row-Deducted e id row b found hs left = (
  All-insert (λ e. InCredit e.1.balance) id (record row { balance = row.balance -ℤ e.amount })
      b.points left hs,
  inr (
    refl,
    ap balance_of (
          find_points-insert e.server_id e.steam_id b.points id row (row.balance -ℤ e.amount)
            row.lifetime_earned row.player_name found)
        ∙ ap (λ o. balance_of o -ℤ e.amount) (sym found),
  ),
)

deduct_from_row-Deducted :
    (e : Entry) (id : ℕ) (row : PointsRow) (b : Book)
    → find_points e.server_id e.steam_id b.points ≡ some (id, row)
    → AllInCredit b
    → InCredit e.amount
    → InCredit row.balance
    → (r : Bool × Book) × (deduct_from_row e id row (some row.balance) b ≡ some r) × Deducted e b r
unfolding deduct_from_row
deduct_from_row-Deducted e id row b found hs ha h = elim (Bool-cases (ltb_ℤ row.balance e.amount)) [
  | inl short ↦ (
    (false, b),
    rw short refl,
    (hs, inl (refl, refl, subst (IsShort e.amount) (sym found) short)),
  )
  | inr enough ↦
      let left = rest_InCredit row.balance e.amount h ha enough in
      (
        (true, deduct_row e id row (row.balance -ℤ e.amount) b),
        rw enough
            (rw (fits_opposite e.amount ha) (rw (fits_int (row.balance -ℤ e.amount) left.1) refl)),
        deduct_row-Deducted e id row b found hs left,
      )
]

-- Where every balance is an `int` and no debt, a deduction of an amount that is an `int` and not
-- negative overflows nowhere and leaves every balance so. It is refused, with nothing changed, for a
-- player without a row or with too small a balance; else the player's balance is less by the amount.
pub deduct_points-Deducted :
    (e : Entry) (b : Book)
    → AllInCredit b
    → InCredit e.amount
    → (r : Bool × Book) × (deduct_points e b ≡ some r) × Deducted e b r
unfolding deduct_points deduct_from
deduct_points-Deducted e b hs ha =
    elim (Option-cases (find_points e.server_id e.steam_id b.points)) [
      | inl no_row ↦ (
        (false, b),
        rw no_row refl,
        (hs, inl (refl, refl, subst (IsShort e.amount) (sym no_row) tt)),
      )
      | inr ((id, row), found) ↦
          let h : InCredit row.balance =
            subst (Found (λ w. InCredit w.balance)) found
              (find_points-Found (λ w. InCredit w.balance) e.server_id e.steam_id b.points hs) in
          let ended = deduct_from_row-Deducted e id row b found hs ha h in
          (ended.0, rw found (rw (text_read row.balance h.1) ended.1), ended.2)
    ]

-- Where the balances before and after are `int`s, points are added to the balance, which is 0 for a
-- player who had no row, a gain to the sum of all gains too, and the change is logged; the row gets the
-- given name, an empty one as well. No other row changes.
pub add_points-find_points :
    (other : ℕ) (e : Entry) (b : Book)
    → IsInt (balance_of (find_points e.server_id e.steam_id b.points))
    → IsInt (balance_of (find_points e.server_id e.steam_id b.points) +ℤ e.amount)
    → (b' : Book) × (id : ℕ) × (row : PointsRow) × (add_points e b ≡ some (true, b'))
      × (find_points e.server_id e.steam_id b'.points ≡ some (id, row))
      × (row.balance ≡ balance_of (find_points e.server_id e.steam_id b.points) +ℤ e.amount)
      × (row.lifetime_earned
          ≡ lifetime_of (find_points e.server_id e.steam_id b.points) +ℤ pos (pos_part e.amount))
      × (row.player_name ≡ e.player_name)
      × (b'.logs
          ≡ record {
            server_id = e.server_id;
            steam_id = e.steam_id;
            player_name = e.player_name;
            amount = e.amount;
            reason = e.reason;
            operator = e.operator;
          }
            ∷ b.logs)
      × (lookup other b'.points ≡ (if id == other then some row else lookup other b.points))
unfolding add_points add_to add_to_row update_points insert_points log_of
add_points-find_points other e b int small =
    elim (Option-cases (find_points e.server_id e.steam_id b.points)) [
      | inl no_row ↦
          let new : PointsRow = record {
            server_id = some e.server_id;
            steam_id = e.steam_id;
            player_name = e.player_name;
            balance = e.amount;
            lifetime_earned = earned e.amount;
          } in
          (
            insert_points e b,
            b.next_id,
            new,
            rw no_row refl,
            find_points-new e.server_id e.steam_id b.points b.next_id new no_row
                (rw (equal_refl e.steam_id) (==_refl e.server_id)),
            rw no_row (from_zero e.amount),
            rw no_row (earned_from_zero e.amount),
            refl,
            refl,
            lookup-insert b.next_id other new b.points,
          )
      | inr ((id, row), found) ↦
          let balance = row.balance +ℤ e.amount in
          let lifetime = row.lifetime_earned +ℤ earned e.amount in
          let int : IsInt row.balance = subst (λ o. IsInt (balance_of o)) found int in
          let small : IsInt balance = subst (λ o. IsInt (balance_of o +ℤ e.amount)) found small in
          (
            update_points e id row balance b,
            id,
            updated row balance lifetime e.player_name,
            rw found (rw (text_read row.balance int) (rw (fits_int balance small) refl)),
            find_points-insert e.server_id e.steam_id b.points id row balance lifetime e.player_name
                found,
            rw found refl,
            rw found (ap (◌+ℤ◌ row.lifetime_earned) (earned_part e.amount)),
            refl,
            refl,
            lookup-insert id other (updated row balance lifetime e.player_name) b.points,
          )
    ]
