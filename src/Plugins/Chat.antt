-- ===== src/Plugins/Chat.antt =====
-- src/plugins/chat_commands.cpp: the tables that the commands read and write, the balance, and the
-- cooldown of a reward. A time is a number of seconds; the sums of the tables are SQLite's 64-bit
-- numbers, and amounts are `int`s, so that they do not overflow here.
pub mod Commands
pub mod Debt
pub mod SignIn
pub mod Triggers
use mbsquad.Prelude.{
  ℕ, ◌+◌, Bool, true, false, ◌&&◌, List, [], ◌∷◌, ◌++◌, Option, none, some, leb, ◌==◌,
  if◌then◌else◌, max,
}
use mbsquad.Prelude.Bytes.{Bytes, codes, utf8, equal, strip_prefix}
use mbsquad.Prelude.Int.{ℤ, pos, ltb_ℤ, ◌+ℤ◌, ◌-ℤ◌}
use mbsquad.Prelude.Maps.{insert, nat_key}
use mbsquad.Core.Numbers.{safe_stoi, to_string}
use mbsquad.Core.Settings.{SettingRows}
use mbsquad.Points.{PointsRow, find_points}

-- A row of `point_logs`, with its `createdAt`.
pub record ChatLog : Type 0 where
  pub server_id : ℕ
  pub steam_id : Bytes
  pub player_name : Bytes
  pub amount : ℤ
  pub reason : Bytes
  pub created_at : ℕ

-- A row of `reserved_slots`; the days are none for a slot that does not end.
pub record Slot : Type 0 where
  pub server_id : ℕ
  pub steam_id : Bytes
  pub player_name : Bytes
  pub created_at : ℕ
  pub days : Option ℤ

pub record KillRow : Type 0 where
  pub server_id : ℕ
  pub killer : Bytes
  pub victim : Bytes

-- The tables, and the console commands that were sent, the last one first.
pub record Tables : Type 0 where
  pub settings : SettingRows
  pub points : List (ℕ × PointsRow)
  pub next_id : ℕ
  pub logs : List ChatLog
  pub slots : List Slot
  pub kills : List KillRow
  pub sent : List Bytes

-- The player who wrote, and when.
pub record Caller : Type 0 where
  pub server_id : ℕ
  pub steam_id : Bytes
  pub player_name : Bytes
  pub now : ℕ

unfoldable pub send_console : Bytes → Tables → Tables
send_console command t = record t { sent = command ∷ t.sent }

-- `AdminWarn` to the caller.
unfoldable pub warn : Caller → Bytes → Tables → Tables
warn p msg = send_console (codes "AdminWarn \"" ++ p.steam_id ++ codes "\" " ++ msg)

abbrev pub balance_text : Option (ℕ × PointsRow) → Bytes
balance_text none = []
balance_text (some (id, row)) = to_string row.balance

unfoldable pub get_balance : Caller → Tables → ℤ
get_balance p t = safe_stoi (balance_text (find_points p.server_id p.steam_id t.points)) (pos 0)

abbrev pub add_log : Caller → ℤ → Bytes → List ChatLog → List ChatLog
add_log p amount reason logs =
    record {
      server_id = p.server_id;
      steam_id = p.steam_id;
      player_name = p.player_name;
      amount = amount;
      reason = reason;
      created_at = p.now;
    }
    ∷ logs

abbrev pub or_zero : ℤ → ℤ
or_zero amount = if ltb_ℤ amount (pos 0) then pos 0 else amount

abbrev pub add_to_points : Caller → ℤ → Option (ℕ × PointsRow) → Tables → Tables
add_to_points p amount (some (id, row)) t = record t {
  points =
      insert id
        (record row {
          balance = row.balance +ℤ amount;
          lifetime_earned = row.lifetime_earned +ℤ amount;
        })
        t.points;
}
add_to_points p amount none t = record t {
  points =
      insert t.next_id
        (record {
          server_id = some p.server_id;
          steam_id = p.steam_id;
          player_name = p.player_name;
          balance = or_zero amount;
          lifetime_earned = or_zero amount;
        })
        t.points;
  next_id = t.next_id + 1;
}

unfoldable pub add_balance : Caller → ℤ → Bytes → Tables → Tables
add_balance p amount reason t =
    let added = add_to_points p amount (find_points p.server_id p.steam_id t.points) t in
    record added { logs = add_log p amount reason added.logs }

-- `ORDER BY createdAt DESC LIMIT 1` over the caller's rows that have such a reason.
abbrev pub is_reward : (Bytes → Bool) → Caller → ChatLog → Bool
is_reward test p l = equal l.steam_id p.steam_id && l.server_id == p.server_id && test l.reason

abbrev pub later_of : ℕ → Option ℕ → Option ℕ
later_of a none = some a
later_of a (some b) = some (max a b)

unfoldable pub last_reward : (Bytes → Bool) → Caller → List ChatLog → Option ℕ
last_reward test p [] = none
last_reward test p (l ∷ logs) =
    let rest = last_reward test p logs in
    if is_reward test p l then later_of l.created_at rest else rest

-- The seconds that are left, none where the reward may be given. `elapsed` is SQLite's difference of
-- two times, now's first.
abbrev pub cooldown_left : ℤ → Option ℤ → Option ℤ
cooldown_left cooldown none = none
cooldown_left cooldown (some elapsed) =
    if ltb_ℤ elapsed cooldown then some (cooldown -ℤ elapsed) else none

abbrev pub since : (ℕ → ℕ → ℤ) → ℕ → Option ℕ → Option ℤ
since elapsed now none = none
since elapsed now (some created) = some (elapsed now created)

unfoldable pub remaining : (ℕ → ℕ → ℤ) → (Bytes → Bool) → ℤ → Caller → Tables → Option ℤ
remaining elapsed test cooldown p t =
    cooldown_left cooldown (since elapsed p.now (last_reward test p t.logs))
