-- ===== src/Plugins/Cdk/Limit.antt =====
-- No code is redeemed more often than it may be.
use mbsquad.Prelude.{ℕ, List, [], ◌∷◌, Option, none, some, All}
use mbsquad.Prelude.Bytes.{Bytes}
use mbsquad.Prelude.Maps.{nat_key}
use mbsquad.Prelude.Int.{pos, ◌≤ℤ◌}
use mbsquad.Core.Numbers.{IsInt}
use mbsquad.Plugins.Cdk.{CdkCode, Tables, redeem}

-- A code that has been used at most as often as it may be, where that number is an `int`.
abbrev pub WithinUses : CdkCode → Type 0
WithinUses row = (pos row.used_count ≤ℤ row.max_uses) × IsInt row.max_uses

abbrev pub AllWithinUses : Tables → Type 0
AllWithinUses t = All (λ e. WithinUses e.1) t.cdk_codes

abbrev OptionWithin : Option (ℕ × CdkCode) → Type 0
OptionWithin none = Unit
OptionWithin (some (id, row)) = WithinUses row

-- An attempt to redeem a code: the server, the player's id and name, the time, and the code.
pub record Attempt : Type 0 where
  pub server_id : ℕ
  pub steam_id : Bytes
  pub player_name : Bytes
  pub now : Bytes
  pub code : Bytes

pub redeem_all : List Attempt → Tables → Tables
redeem_all [] t = t
redeem_all (a ∷ attempts) t =
    redeem_all attempts (redeem a.server_id a.steam_id a.player_name a.now a.code t).1
