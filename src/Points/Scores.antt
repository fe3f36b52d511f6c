-- ===== src/Points/Scores.antt =====
-- `scoreKill`, `scoreSuicide`, `scoreRevive` and `getBalance` of src/core/points_service.cpp. The
-- texts for the log are written as the bytes of the source.
use mbsquad.Prelude.{
  ℕ, ◌+◌, ltb, Bool, true, false, List, [], ◌∷◌, ◌++◌, Option, none, some, if◌then◌else◌, ◌>>=◌,
}
use mbsquad.Prelude.Bytes.{Bytes, codes, equal}
use mbsquad.Prelude.Int.{ℤ, pos, negsuc}
use mbsquad.Core.Numbers.{stoi, to_string}
use mbsquad.Core.Settings.{SettingRows, get_setting_int}
use mbsquad.Points.{PointsRow, Book, add_points}

abbrev system : Bytes
system = 231 ∷ 179 ∷ 187 ∷ 231 ∷ 187 ∷ 159 ∷ []

abbrev kill_text : Bytes
kill_text = 229 ∷ 135 ∷ 187 ∷ 230 ∷ 157 ∷ 128 ∷ []

abbrev suicide_text : Bytes
suicide_text = 232 ∷ 135 ∷ 170 ∷ 230 ∷ 157 ∷ 128 ∷ []

abbrev revive_text : Bytes
revive_text = 230 ∷ 149 ∷ 145 ∷ 230 ∷ 143 ∷ 180 ∷ []

-- The points that an event gives, with the name of the setting and its fallback.
scored : SettingRows → ℕ → Bytes → Bytes → Bytes → ℤ → Bytes → Book → Option Book
scored rows server_id [] name key fallback reason b = some b
scored rows server_id (c ∷ id) name key fallback reason b =
    add_points
      (record {
        server_id = server_id;
        steam_id = c ∷ id;
        player_name = name;
        amount = get_setting_int rows key fallback;
        reason = reason;
        operator = system;
      })
      b
    >>= λ r. some r.1

pub score_kill : SettingRows → ℕ → Bytes → Bytes → Bool → Book → Option Book
score_kill rows server_id killer name true b =
    scored rows server_id killer name (codes "points_tk") (negsuc 4) (codes "TK" ++ kill_text) b
score_kill rows server_id killer name false b =
    scored rows server_id killer name (codes "points_kill") (pos 2) kill_text b

pub score_suicide : SettingRows → ℕ → Bytes → Bytes → Book → Option Book
score_suicide rows server_id victim name b =
    scored rows server_id victim name (codes "points_suicide") (negsuc 1) suicide_text b

pub score_revive : SettingRows → ℕ → Bytes → Bytes → Book → Option Book
score_revive rows server_id reviver name b =
    scored rows server_id reviver name (codes "points_revive") (pos 1) revive_text b

-- `ORDER BY serverId DESC`: the row of the largest server, one of no server last.
rank : Option ℕ → ℕ
rank none = 0
rank (some server_id) = server_id + 1

better : PointsRow → Option PointsRow → Option PointsRow
better row none = some row
better row (some other) =
    if ltb (rank row.server_id) (rank other.server_id) then some other else some row

best_row : Bytes → List (ℕ × PointsRow) → Option PointsRow
best_row steam_id [] = none
best_row steam_id ((id, row) ∷ rows) =
    let best = best_row steam_id rows in
    if equal row.steam_id steam_id then better row best else best

balance_or_zero : Option ℤ → ℤ
balance_or_zero none = pos 0
balance_or_zero (some z) = z

read_balance : Option PointsRow → ℤ
read_balance none = pos 0
read_balance (some row) = balance_or_zero (stoi (to_string row.balance))

pub get_balance : Bytes → Book → ℤ
get_balance steam_id b = read_balance (best_row steam_id b.points)
