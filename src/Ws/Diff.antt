-- ===== src/Ws/Diff.antt =====
-- `calculateDiff` of src/net/ws_handler.cpp and the structures of src/net/ws_handler.h.
pub mod Apply
pub mod Calculated
use mbsquad.Prelude.{
  ℕ, Bool, true, false, not, ◌&&◌, List, [], ◌∷◌, Option, none, some, if◌then◌else◌, length, keep,
}
use mbsquad.Prelude.Bytes.{Bytes, equal}
use mbsquad.Prelude.Int.{ℤ, eqb_ℤ}
use mbsquad.Prelude.Maps.{lookup, insert, bytes_key}

pub record PlayerSnapshot : Type 0 where
  pub steam_id : Bytes
  pub name : Bytes
  pub team_id : ℤ
  pub squad_id : Bytes
  pub rcon_id : Bytes

pub record PlayerDiff : Type 0 where
  pub joined : List PlayerSnapshot
  pub left : List PlayerSnapshot
  pub changed : List PlayerSnapshot
  pub total_count : ℕ

-- `PlayerSnapshot::operator==`, which does not compare `rconId`.
pub same : PlayerSnapshot → PlayerSnapshot → Bool
same p o =
    equal p.steam_id o.steam_id
    && equal p.name o.name
    && eqb_ℤ p.team_id o.team_id
    && equal p.squad_id o.squad_id

-- `for (auto& p : players) map[p.steamId] = &p;`
pub add_all : List PlayerSnapshot → List (Bytes × PlayerSnapshot) → List (Bytes × PlayerSnapshot)
add_all [] m = m
add_all (p ∷ players) m = add_all players (insert p.steam_id p m)

abbrev pub by_id : List PlayerSnapshot → List (Bytes × PlayerSnapshot)
by_id players = add_all players []

abbrev pub is_new : Option PlayerSnapshot → Bool
is_new none = true
is_new (some q) = false

abbrev pub differs : Option PlayerSnapshot → PlayerSnapshot → Bool
differs none p = false
differs (some q) p = not (same q p)

pub differences : List PlayerSnapshot → List PlayerSnapshot → PlayerDiff
differences cached current = record {
  joined = keep (λ p. is_new (lookup p.steam_id (by_id cached))) current;
  left = keep (λ p. is_new (lookup p.steam_id (by_id current))) cached;
  changed = keep (λ p. differs (lookup p.steam_id (by_id cached)) p) current;
  total_count = length current;
}

-- With nothing cached the whole list is new.
pub calculate_diff : List PlayerSnapshot → List PlayerSnapshot → PlayerDiff
calculate_diff [] [] = differences [] []
calculate_diff [] (p ∷ current) = record {
  joined = p ∷ current;
  left = [];
  changed = [];
  total_count = length (p ∷ current);
}
calculate_diff (q ∷ cached) current = differences (q ∷ cached) current
