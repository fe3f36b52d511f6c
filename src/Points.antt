-- ===== src/Points.antt =====
-- The points of players: src/core/points_service.cpp and the helpers of src/core/shared_utils.h on
-- the tables `points` and `point_logs`. Time stamps are left out. A result is none where an `int`
-- overflows, which C++ leaves undefined.
pub mod Found
pub mod Balance
pub mod Scores
use mbsquad.Prelude.{
  ℕ, ◌+◌, ◌≤◌, ◌<◌, ◌^◌, Bool, true, false, not, ◌&&◌, ◌||◌, List, [], ◌∷◌, Option, none, some, ltb,
  leb, ◌==◌, if◌then◌else◌,
}
use mbsquad.Prelude.Bytes.{Bytes, codes, equal}
use mbsquad.Prelude.Maps.{insert, nat_key}
use mbsquad.Prelude.Int.{ℤ, pos, negsuc, pos_part, neg_part, ltb_ℤ, ◌+ℤ◌, ◌-ℤ◌}
use mbsquad.Core.Numbers.{stoi, safe_stoi, to_string}

-- A row of `points`, without its id.
pub record PointsRow : Type 0 where
  pub server_id : Option ℕ
  pub steam_id : Bytes
  pub player_name : Bytes
  pub balance : ℤ
  pub lifetime_earned : ℤ

-- A row of `point_logs`.
pub record PointLog : Type 0 where
  pub server_id : ℕ
  pub steam_id : Bytes
  pub player_name : Bytes
  pub amount : ℤ
  pub reason : Bytes
  pub operator : Bytes

-- `ORDER BY serverId DESC LIMIT 1`: the row of the server, or else one of no server.
abbrev pub of_server : Option ℕ → Bytes → PointsRow → Bool
of_server (some sid) steam_id row =
    equal row.steam_id steam_id && (elim row.server_id [ none ↦ false | some s ↦ s == sid ])
of_server none steam_id row =
    equal row.steam_id steam_id && (elim row.server_id [ none ↦ true | some s ↦ false ])

unfoldable pub find_row : (PointsRow → Bool) → List (ℕ × PointsRow) → Option (ℕ × PointsRow)
find_row test [] = none
find_row test ((id, row) ∷ rows) =
    let later = find_row test rows in if test row then some (id, row) else later

unfoldable pub first_of : Option (ℕ × PointsRow) → Option (ℕ × PointsRow) → Option (ℕ × PointsRow)
first_of none o = o
first_of (some r) o = some r

unfoldable pub find_points : ℕ → Bytes → List (ℕ × PointsRow) → Option (ℕ × PointsRow)
find_points sid steam_id rows =
    first_of (find_row (of_server (some sid) steam_id) rows)
      (find_row (of_server none steam_id) rows)

-- The two tables, and the id that the next row of `points` gets.
pub record Book : Type 0 where
  pub points : List (ℕ × PointsRow)
  pub next_id : ℕ
  pub logs : List PointLog

-- Whether a sum is an `int`.
abbrev pub fits : ℤ → Bool
fits z = ltb (pos_part z) (2 ^ 31) && leb (neg_part z) (2 ^ 31)

abbrev pub earned : ℤ → ℤ
earned amount = if ltb_ℤ (pos 0) amount then amount else pos 0

-- Who gets the points, and why.
pub record Entry : Type 0 where
  pub server_id : ℕ
  pub steam_id : Bytes
  pub player_name : Bytes
  pub amount : ℤ
  pub reason : Bytes
  pub operator : Bytes

pub log_of : Entry → ℤ → PointLog
log_of e amount = record {
  server_id = e.server_id;
  steam_id = e.steam_id;
  player_name = e.player_name;
  amount = amount;
  reason = e.reason;
  operator = e.operator;
}

-- The row of a player who had none.
insert_points : Entry → Book → Book
insert_points e b = record b {
  points =
      insert b.next_id
        (record {
          server_id = some e.server_id;
          steam_id = e.steam_id;
          player_name = e.player_name;
          balance = e.amount;
          lifetime_earned = earned e.amount;
        })
        b.points;
  next_id = b.next_id + 1;
  logs = log_of e e.amount ∷ b.logs;
}

-- `COALESCE(?, playerName)` takes the bound text, which is never null.
update_points : Entry → ℕ → PointsRow → ℤ → Book → Book
update_points e id row balance b = record b {
  points =
      insert id
        (record row {
          balance = balance;
          lifetime_earned = row.lifetime_earned +ℤ earned e.amount;
          player_name = e.player_name;
        })
        b.points;
  logs = log_of e e.amount ∷ b.logs;
}

abbrev pub checked : ℤ → Bool × Book → Option (Bool × Book)
checked sum result = if fits sum then some result else none

-- `stoi` throws for a balance that is no `int`, and the handler returns false.
add_to_row : Entry → ℕ → PointsRow → Option ℤ → Book → Option (Bool × Book)
add_to_row e id row none b = some (false, b)
add_to_row e id row (some balance) b =
    checked (balance +ℤ e.amount) (true, update_points e id row (balance +ℤ e.amount) b)

add_to : Entry → Option (ℕ × PointsRow) → Book → Option (Bool × Book)
add_to e none b = some (true, insert_points e b)
add_to e (some (id, row)) b = add_to_row e id row (stoi (to_string row.balance)) b

pub add_points : Entry → Book → Option (Bool × Book)
add_points e b = add_to e (find_points e.server_id e.steam_id b.points) b

-- The row and the log of a deduction.
deduct_row : Entry → ℕ → PointsRow → ℤ → Book → Book
deduct_row e id row balance b = record b {
  points = insert id (record row { balance = balance }) b.points;
  logs = log_of e (pos 0 -ℤ e.amount) ∷ b.logs;
}

deduct_from_row : Entry → ℕ → PointsRow → Option ℤ → Book → Option (Bool × Book)
deduct_from_row e id row none b = some (false, b)
deduct_from_row e id row (some balance) b =
    if ltb_ℤ balance e.amount
    then some (false, b)
    else if fits (pos 0 -ℤ e.amount)
    then checked (balance -ℤ e.amount) (true, deduct_row e id row (balance -ℤ e.amount) b)
    else none

deduct_from : Entry → Option (ℕ × PointsRow) → Book → Option (Bool × Book)
deduct_from e none b = some (false, b)
deduct_from e (some (id, row)) b = deduct_from_row e id row (stoi (to_string row.balance)) b

pub deduct_points : Entry → Book → Option (Bool × Book)
deduct_points e b = deduct_from e (find_points e.server_id e.steam_id b.points) b

adjust_row : Entry → ℕ → PointsRow → ℤ → Book → Option (Bool × Book)
adjust_row e id row balance b =
    checked balance
      (if ltb_ℤ balance (pos 0) then (false, b) else (true, update_points e id row balance b))

adjust : Entry → Option (ℕ × PointsRow) → Book → Option (Bool × Book)
adjust e none b = if ltb_ℤ e.amount (pos 0) then some (false, b) else some (true, insert_points e b)
adjust e (some (id, row)) b =
    adjust_row e id row (safe_stoi (to_string row.balance) (pos 0) +ℤ e.amount) b

pub adjust_points : Entry → Book → Option (Bool × Book)
adjust_points e b = adjust e (find_points e.server_id e.steam_id b.points) b

balance_in : Option (ℕ × PointsRow) → ℤ
balance_in none = pos 0
balance_in (some (id, row)) = safe_stoi (to_string row.balance) (pos 0)

-- `getPointsBalance`
pub get_points_balance : Bytes → ℕ → Book → ℤ
get_points_balance steam_id server_id b = balance_in (find_points server_id steam_id b.points)
