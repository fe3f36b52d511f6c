-- ===== src/Tests/Plugins.antt =====
-- Runs of the plugins of src/plugins.
use mbsquad.Prelude.{ℕ, ◌+◌, ◌-◌, ◌≤◌, ◌≡◌, ◌≢◌, refl, List, [], ◌∷◌, none, length}
use mbsquad.Prelude.Bytes.{Bytes, codes, equal}
use mbsquad.Prelude.Int.{pos, eqb_ℤ}
use mbsquad.Plugins.Balance.{Player, in_team, count_teams, distance, rebalance}
use mbsquad.Plugins.Balance.Even.{rebalance_even}
use mbsquad.Plugins.Cdk.{
  CdkCode, CdkLog, Tables, granted, redeem, redeem_row, decide, carry_out, find_code, read_int,
  optional_text, less,
}
use mbsquad.Core.Numbers.{
  safe_stoi, stoi, read_digits, digits_value, in_range, decimal, decimal_nat, to_string,
}
use mbsquad.Plugins.Cdk.Uses.{redeem_once, redeem_logged}
use mbsquad.Plugins.Cdk.Limit.{Attempt}

abbrev player : Bytes → ℕ → Bytes → Player
player id team squad = record { steam_id = id; name = id; squad_id = squad; team_index = pos team }

abbrev crowd : List Player
crowd =
    player (codes "a") 1 (codes "3")
    ∷ player (codes "b") 1 []
    ∷ player (codes "c") 1 (codes "N/A")
    ∷ player (codes "d") 1 (codes "3")
    ∷ player (codes "e") 2 []
    ∷ []

crowd_count : count_teams crowd ≡ (4, 1)
unfolding count_teams in_team eqb_ℤ
crowd_count = refl

rebalance_even_example :
    (length (rebalance (pos 3) crowd (4, 1)) ≡ 1)
    × (distance
          (4 - length (rebalance (pos 3) crowd (4, 1)))
          (1 + length (rebalance (pos 3) crowd (4, 1)))
        ≤ 1)
unfolding equal
rebalance_even_example =
    rebalance_even (pos 3) crowd 4 1 (refl, (refl, (refl, (refl, (refl, tt))))) crowd_count refl

abbrev summer : CdkCode
summer = record {
  code = codes "SUMMER";
  reward_type = codes "points";
  reward_value = pos 50;
  server_id = none;
  max_uses = pos 2;
  used_count = 0;
  expires_at = [];
}

abbrev used : CdkLog
used = record {
  code = codes "SUMMER";
  server_id = 1;
  steam_id = codes "76";
  player_name = codes "p";
  reward_type = codes "points";
  reward_value = pos 50;
}

abbrev tables : List CdkLog → Tables
tables logs = record {
  cdk_codes = (1, summer) ∷ [];
  cdk_logs = logs;
  points = [];
  next_points = 1;
  point_logs = [];
  reserved_slots = [];
}

abbrev attempt : Bytes → Attempt
attempt id = record {
  server_id = 1;
  steam_id = id;
  player_name = codes "p";
  now = codes "2025-01-01 00:00:00";
  code = codes "SUMMER";
}

redeem_logged_example :
    (redeem 1 (codes "76") (codes "p") (codes "2025") (codes "SUMMER") (tables (used ∷ []))).0
    ≢ granted
unfolding equal
redeem_logged_example =
    redeem_logged 1 (codes "76") (codes "p") (codes "2025") (codes "SUMMER") (tables (used ∷ []))
      refl

redeem_granted :
    (redeem 1 (codes "76") (codes "p") (codes "2025") (codes "SUMMER") (tables [])).0 ≡ granted
unfolding redeem redeem_row decide carry_out find_code read_int optional_text less safe_stoi stoi
    read_digits digits_value in_range decimal decimal_nat to_string equal
redeem_granted = refl

redeem_once_example :
    (redeem 2
      (codes "76")
      (codes "q")
      (codes "2026")
      (codes "SUMMER")
      (redeem 1 (codes "76") (codes "p") (codes "2025") (codes "SUMMER") (tables [])).1).0
    ≢ granted
redeem_once_example =
    redeem_once 1 2 (codes "76") (codes "p") (codes "q") (codes "2025") (codes "2026")
      (codes "SUMMER") (tables []) redeem_granted
