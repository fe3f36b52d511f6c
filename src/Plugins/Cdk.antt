-- ===== src/Plugins/Cdk.antt =====
-- `CDKRedeemPlugin` of src/plugins/cdk_redeem_plugin.cpp. The tables are lists of rows; an
-- `INTEGER` column that may be null is optional, and a date is the text that SQLite keeps.
pub mod Uses
pub mod Limit
use mbsquad.Prelude.{
  ℕ, ◌+◌, ◌-◌, ◌≤◌, ◌<◌, Bool, true, false, not, ◌&&◌, ◌||◌, List, [], ◌∷◌, ◌++◌, Option, none,
  some, ltb, leb, ◌==◌, if◌then◌else◌, length, drop, map, exists,
}
use mbsquad.Prelude.Bytes.{lower, Bytes, codes, equal, strip_prefix}
use mbsquad.Prelude.Maps.{lookup, insert, nat_key}
use mbsquad.Prelude.Int.{ℤ, pos, ltb_ℤ, ◌+ℤ◌}
use mbsquad.Points.{PointsRow, PointLog, find_points}
use mbsquad.Core.Numbers.{safe_stoi, to_string}

-- A row of `cdk_codes`, without its id.
pub record CdkCode : Type 0 where
  pub code : Bytes
  pub reward_type : Bytes
  pub reward_value : ℤ
  pub server_id : Option ℤ
  pub max_uses : ℤ
  pub used_count : ℕ
  pub expires_at : Bytes

-- A row of `cdk_logs`.
pub record CdkLog : Type 0 where
  pub code : Bytes
  pub server_id : ℕ
  pub steam_id : Bytes
  pub player_name : Bytes
  pub reward_type : Bytes
  pub reward_value : ℤ

-- A row of `reserved_slots`; `days` is none for a slot that does not expire.
pub record Reserved : Type 0 where
  pub server_id : ℕ
  pub steam_id : Bytes
  pub player_name : Bytes
  pub days : Option ℤ

-- The tables by id, and the id that the next row of `points` gets.
pub record Tables : Type 0 where
  pub cdk_codes : List (ℕ × CdkCode)
  pub cdk_logs : List CdkLog
  pub points : List (ℕ × PointsRow)
  pub next_points : ℕ
  pub point_logs : List PointLog
  pub reserved_slots : List Reserved

-- What the player is told; nothing where the message is no redemption.
pub data Outcome : Type 0 where
  unknown_code expired used_up wrong_server used_before granted : Outcome

-- An integer column as the plugin reads it from the text of the row.
unfoldable pub read_int : ℤ → ℤ
read_int z = safe_stoi (to_string z) (pos 0)

unfoldable pub optional_text : Option ℤ → Bytes
optional_text none = []
optional_text (some z) = to_string z

-- The order of texts in SQLite.
unfoldable pub less : Bytes → Bytes → Bool
less [] [] = false
less [] (d ∷ t) = true
less (c ∷ s) [] = false
less (c ∷ s) (d ∷ t) = let later = less s t in if c == d then later else ltb c d

unfoldable pub find_code : Bytes → List (ℕ × CdkCode) → Option (ℕ × CdkCode)
find_code code [] = none
find_code code ((id, row) ∷ rows) =
    let later = find_code code rows in if equal row.code code then some (id, row) else later

abbrev pub used_by : Bytes → Bytes → CdkLog → Bool
used_by code steam_id log = equal log.code code && equal log.steam_id steam_id

-- Two characters of three bytes each, and "-CDK".
abbrev system_cdk : Bytes
system_cdk = 231 ∷ 179 ∷ 187 ∷ 231 ∷ 187 ∷ 159 ∷ codes "-CDK"

-- "CDK", two characters of three bytes each, and a colon.
abbrev reason_prefix : Bytes
reason_prefix = codes "CDK" ++ (229 ∷ 133 ∷ 145 ∷ 230 ∷ 141 ∷ 162 ∷ codes ":")

module _ (sid : ℕ) (steam_id player_name : Bytes) where
  add_reward : ℤ → Option (ℕ × PointsRow) → Tables → Tables
  add_reward value (some (id, row)) t = record t {
    points =
        insert id
          (record row {
            balance = row.balance +ℤ value;
            lifetime_earned = row.lifetime_earned +ℤ value;
          })
          t.points;
  }
  add_reward value none t = record t {
    points =
        insert t.next_points
          (record {
            server_id = some sid;
            steam_id = steam_id;
            player_name = player_name;
            balance = value;
            lifetime_earned = value;
          })
          t.points;
    next_points = t.next_points + 1;
  }

  grant_points : Bytes → ℤ → Tables → Tables
  grant_points code value t =
      let t' = add_reward value (find_points sid steam_id t.points) t in
      record t' {
        point_logs =
            record {
              server_id = sid;
              steam_id = steam_id;
              player_name = player_name;
              amount = value;
              reason = reason_prefix ++ code;
              operator = system_cdk;
            }
            ∷ t'.point_logs;
      }

  grant_reserved : ℤ → Tables → Tables
  grant_reserved value t =
      if exists (λ (r : Reserved). (r.server_id == sid) && equal r.steam_id steam_id)
        t.reserved_slots
      then t
      else record t {
        reserved_slots =
            record {
              server_id = sid;
              steam_id = steam_id;
              player_name = player_name;
              days = if ltb_ℤ (pos 0) value then some value else none;
            }
            ∷ t.reserved_slots;
      }

  pub grant : Bytes → Bytes → ℤ → Tables → Tables
  grant code reward_type value t =
      if equal reward_type (codes "points")
      then grant_points code value t
      else if equal reward_type (codes "reserved")
      then grant_reserved value t
      else t

  pub record_use : Bytes → ℕ → CdkCode → Tables → Tables
  record_use code id row t = record t {
    cdk_codes = insert id (record row { used_count = row.used_count + 1 }) t.cdk_codes;
    cdk_logs =
        record {
          code = code;
          server_id = sid;
          steam_id = steam_id;
          player_name = player_name;
          reward_type = row.reward_type;
          reward_value = read_int row.reward_value;
        }
        ∷ t.cdk_logs;
  }

  -- The first reason to refuse, in the order of the source.
  unfoldable pub decide : Bytes → Bytes → CdkCode → Tables → Outcome
  decide now code row t =
      if not (equal row.expires_at []) && less row.expires_at now
      then expired
      else if not (ltb_ℤ (read_int (pos row.used_count)) (read_int row.max_uses))
      then used_up
      else if not (equal (optional_text row.server_id) [])
          && not (equal (optional_text row.server_id) (codes "0"))
          && not (equal (optional_text row.server_id) (to_string (pos sid)))
      then wrong_server
      else if exists (used_by code steam_id) t.cdk_logs
      then used_before
      else granted

  unfoldable pub carry_out : Bytes → ℕ → CdkCode → Tables → Outcome → Outcome × Tables
  carry_out code id row t granted =
      (granted, record_use code id row (grant code row.reward_type (read_int row.reward_value) t))
  carry_out code id row t refused = (refused, t)

  unfoldable pub redeem_row : Bytes → Bytes → Option (ℕ × CdkCode) → Tables → Outcome × Tables
  redeem_row now code none t = (unknown_code, t)
  redeem_row now code (some (id, row)) t = carry_out code id row t (decide now code row t)

  -- The handler from the look-up of the code on.
  unfoldable pub redeem : Bytes → Bytes → Tables → Outcome × Tables
  redeem now code t = redeem_row now code (find_code code t.cdk_codes) t

abbrev upper : ℕ → ℕ
upper c = if leb b'a' c && leb c b'z' then c - 32 else c

trim_front : Bytes → Bytes
trim_front [] = []
trim_front (c ∷ s) = let rest = trim_front s in if c == b' ' || c == 9 then rest else c ∷ s

abbrev keep_front : ℕ → Bytes → Bytes
keep_front c [] = if c == b' ' || c == 9 || c == 13 || c == 10 then [] else c ∷ []
keep_front c (d ∷ rest) = c ∷ d ∷ rest

trim_back : Bytes → Bytes
trim_back [] = []
trim_back (c ∷ s) = keep_front c (trim_back s)

abbrev begins : Bytes → Bytes → Bool
begins p s = elim (strip_prefix p s) [ none ↦ false | some rest ↦ true ]

-- The code of a message that redeems one.
pub parse_code : Bytes → Bytes → Option Bytes
parse_code prefix msg =
    if begins (map lower prefix ++ codes " ") (map lower msg)
      || begins (map lower prefix ++ 9 ∷ []) (map lower msg)
    then some (map upper (trim_back (trim_front (drop (length prefix) msg))))
    else none

redeem_parsed : Bytes → ℕ → Bytes → Bytes → Option Bytes → Tables → Option Outcome × Tables
redeem_parsed now sid steam_id player_name none t = (none, t)
redeem_parsed now sid steam_id player_name (some []) t = (none, t)
redeem_parsed now sid steam_id player_name (some (c ∷ code)) t =
    let (outcome, t') = redeem sid steam_id player_name now (c ∷ code) t in (some outcome, t')

-- The event: its type, server, message and player. The result is none where it is ignored.
pub record Chat : Type 0 where
  pub type : Bytes
  pub server_id : ℕ
  pub message : Bytes
  pub steam_id : Bytes
  pub player_name : Bytes

pub handle : Bytes → Bool → Bytes → Chat → Tables → Option Outcome × Tables
handle now enabled prefix ev t =
    if not (equal ev.type (codes "chat"))
      || not enabled
      || equal ev.message []
      || equal ev.steam_id []
    then (none, t)
    else redeem_parsed now ev.server_id ev.steam_id ev.player_name (parse_code prefix ev.message) t
