-- ===== src/Tests/Points.antt =====
-- Runs of the operations on points.
use mbsquad.Prelude.{ℕ, Bool, ◌==◌, if◌then◌else◌, ◌≡◌, [], ◌∷◌, some, true, arith}
use mbsquad.Prelude.Bytes.{codes, equal}
use mbsquad.Prelude.Maps.{lookup, nat_key}
use mbsquad.Prelude.Int.{ℤ, pos, ◌+ℤ◌}
use mbsquad.Points.{
  PointsRow, Book, Entry, find_points, add_points, deduct_points, find_row, first_of,
}
use mbsquad.Points.Balance.{
  AllInCredit, Deducted, balance_of, lifetime_of, deduct_points-Deducted, add_points-find_points,
}
use mbsquad.Core.Numbers.{IsInt}

abbrev row : PointsRow
row = record {
  server_id = some 1;
  steam_id = codes "76";
  player_name = codes "p";
  balance = pos 30;
  lifetime_earned = pos 40;
}

abbrev book : Book
book = record { points = (5, row) ∷ []; next_id = 6; logs = [] }

abbrev entry : ℤ → Entry
entry amount = record {
  server_id = 1;
  steam_id = codes "76";
  player_name = [];
  amount = amount;
  reason = codes "kill";
  operator = codes "system";
}

book-AllInCredit : AllInCredit book
book-AllInCredit = ((omega arith, omega arith), tt)

deduct_points-Deducted_example :
    (r : Bool × Book) × (deduct_points (entry (pos 20)) book ≡ some r)
    × Deducted (entry (pos 20)) book r
deduct_points-Deducted_example =
    deduct_points-Deducted (entry (pos 20)) book book-AllInCredit (omega arith, omega arith)

found-IsInt : IsInt (balance_of (find_points 1 (codes "76") book.points))
unfolding find_points find_row first_of equal
found-IsInt = omega arith

sum-IsInt : IsInt (balance_of (find_points 1 (codes "76") book.points) +ℤ pos 2)
unfolding find_points find_row first_of equal ◌+ℤ◌
sum-IsInt = omega arith

add_points-find_points_example :
    (b' : Book) × (id : ℕ) × (row : PointsRow) × (add_points (entry (pos 2)) book ≡ some (true, b'))
    × (find_points 1 (codes "76") b'.points ≡ some (id, row))
    × (row.balance ≡ balance_of (find_points 1 (codes "76") book.points) +ℤ pos 2)
    × (row.lifetime_earned ≡ lifetime_of (find_points 1 (codes "76") book.points) +ℤ pos 2)
    × (row.player_name ≡ [])
    × (b'.logs
        ≡ record {
          server_id = 1;
          steam_id = codes "76";
          player_name = [];
          amount = pos 2;
          reason = codes "kill";
          operator = codes "system";
        }
          ∷ [])
    × (lookup 7 b'.points ≡ (if id == 7 then some row else lookup 7 book.points))
add_points-find_points_example = add_points-find_points 7 (entry (pos 2)) book found-IsInt sum-IsInt
