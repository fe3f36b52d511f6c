-- ===== src/Events.antt =====
-- src/handlers/event_handler.cpp: the state of the module, the keys of the relays, the teams and names of
-- the players on a server. The pool, the points service and the hub of the browsers are those that
-- src/main.cpp sets; what is sent to them and to the tables is a list of effects, in order.
pub mod Kills
pub mod Lines
pub mod Access
pub mod Teams
pub mod Counted
pub mod Chats
pub mod Posts
use mbsquad.Prelude.{
  ℕ, ◌+◌, Bool, true, false, not, ◌&&◌, ◌||◌, List, [], ◌∷◌, ◌++◌, Option, none, some, ltb,
  if◌then◌else◌,
}
use mbsquad.Prelude.Bytes.{Bytes, codes, equal, contains}
use mbsquad.Prelude.Int.{ℤ, pos, negsuc, ltb_ℤ, eqb_ℤ, eqb_ℤ_iff}
use mbsquad.Prelude.Maps.{Key, bytes_key, lookup, insert}
use mbsquad.Core.Numbers.{safe_stoi}
use mbsquad.Core.Settings.{SettingRows}
use mbsquad.Logs.Players.{PlayerInfo}

instance abbrev pub int_key : Key ℤ
int_key = record { eqb = eqb_ℤ; eqb_iff = eqb_ℤ_iff }

pub record TeamMapEntry : Type 0 where
  pub name : Bytes
  pub team_id : Bytes

-- A row of `chat_logs`, with its time in seconds.
pub record ChatRow : Type 0 where
  pub server_id : ℤ
  pub player_name : Bytes
  pub steam_id : Bytes
  pub message : Bytes
  pub type : Bytes
  pub timestamp : ℕ

-- A row of `players`.
pub record PlayerRow : Type 0 where
  pub server_id : ℤ
  pub steam_id : Bytes
  pub name : Bytes
  pub last_seen : ℕ

-- A statement, a call of the points service, a console command, a message to the browsers, or a
-- message to the plugins.
pub data Effect : Type 0 where
  insert_kill : ℤ → Bytes → Bytes → Bytes → Effect
  insert_revive : ℤ → Bytes → Bytes → Bytes → Bytes → Effect
  kill_scored : ℤ → Bytes → Bytes → Bool → Effect
  suicide_scored : ℤ → Bytes → Bytes → Effect
  revive_scored : ℤ → Bytes → Bytes → Effect
  console : ℤ → Bytes → Effect
  to_browsers : ℤ → Bytes → List (Bytes × Bytes) → Effect
  dispatch : ℤ → Bytes → List (Bytes × Bytes) → Effect

pub record Module : Type 0 where
  pub settings : SettingRows
  pub team_map : List (ℤ × List (Bytes × TeamMapEntry))
  pub live_cache : List (ℤ × List PlayerInfo)
  pub last_suicide_time : List (ℤ × ℕ)
  pub players : List PlayerRow
  pub chat_logs : List ChatRow
  pub effects : List Effect

-- The keys of the servers, with the server's id as text.
abbrev pub Keys : Type 0
Keys = List (Bytes × Bytes)

abbrev server_of : Option Bytes → ℤ
server_of none = negsuc 0
server_of (some id) = safe_stoi id (pos 0)

abbrev key_server : Keys → Bytes → ℤ
key_server keys [] = negsuc 0
key_server keys (c ∷ key) = server_of (lookup (c ∷ key) keys)

abbrev body_key : Option Bytes → Bytes
body_key none = []
body_key (some key) = key

-- The key of the header, or else that of the body.
abbrev pub used_key : Bytes → Option Bytes → Bytes
used_key [] body = body_key body
used_key (c ∷ header) body = c ∷ header

unfoldable pub validate_relay_api_key : Keys → Bytes → Option Bytes → ℤ
validate_relay_api_key keys header body = key_server keys (used_key header body)

unfoldable pub validate_relay_server_access : Keys → Bytes → Option Bytes → ℤ → Bool
validate_relay_server_access keys header body claimed =
    let actual = validate_relay_api_key keys header body in
    if ltb_ℤ actual (pos 0) then false else eqb_ℤ actual claimed

abbrev pub both_on_team : Option TeamMapEntry → Option TeamMapEntry → Bool
both_on_team none victim = false
both_on_team (some killer) none = false
both_on_team (some killer) (some victim) =
    not (equal killer.team_id []) && equal killer.team_id victim.team_id

abbrev kill_in : Option (List (Bytes × TeamMapEntry)) → Bytes → Bytes → Bool
kill_in none killer victim = false
kill_in (some teams) killer victim = both_on_team (lookup killer teams) (lookup victim teams)

unfoldable pub is_team_kill : Module → ℤ → Bytes → Bytes → Bool
is_team_kill g server_id killer victim = kill_in (lookup server_id g.team_map) killer victim

abbrev pub entry_of : PlayerInfo → TeamMapEntry
entry_of p = record { name = p.name; team_id = p.team_id }

-- Later players of the list take the place of earlier ones with their id.
unfoldable pub teams_of :
    List PlayerInfo → List (Bytes × TeamMapEntry) → List (Bytes × TeamMapEntry)
teams_of [] map = map
teams_of (p ∷ players) map = teams_of players (insert p.steam_id (entry_of p) map)

unfoldable pub update_team_map : ℤ → List PlayerInfo → Module → Module
update_team_map server_id players g = record g {
  team_map = insert server_id (teams_of players []) g.team_map;
}

-- The id of the first player with that name, and then of the first one whose name holds it or is
-- held by it.
unfoldable pub find_by : (Bytes → Bool) → List PlayerInfo → Option Bytes
find_by test [] = none
find_by test (p ∷ players) =
    let rest = find_by test players in if test p.name then some p.steam_id else rest

abbrev pub first_found : Option Bytes → Option Bytes → Bytes
first_found (some id) later = id
first_found none (some id) = id
first_found none none = []

unfoldable pub find_in : List PlayerInfo → Bytes → Bytes
find_in players name =
    first_found (find_by (λ n. equal n name) players)
      (find_by (λ n. contains name n || contains n name) players)

abbrev pub live_of : Option (List PlayerInfo) → List PlayerInfo
live_of none = []
live_of (some players) = players

unfoldable pub find_steam_id_by_name : Module → ℤ → Bytes → Bytes
find_steam_id_by_name g server_id name = find_in (live_of (lookup server_id g.live_cache)) name

name_of : List PlayerInfo → Bytes → Option Bytes
name_of [] steam_id = none
name_of (p ∷ players) steam_id =
    let rest = name_of players steam_id in if equal p.steam_id steam_id then some p.name else rest

-- The row that was seen last.
later_row : PlayerRow → Option PlayerRow → PlayerRow
later_row row none = row
later_row row (some other) = if ltb row.last_seen other.last_seen then other else row

last_row : List PlayerRow → Bytes → Option PlayerRow
last_row [] steam_id = none
last_row (row ∷ rows) steam_id =
    let rest = last_row rows steam_id in
    if equal row.steam_id steam_id then some (later_row row rest) else rest

name_or : Bytes → Option PlayerRow → Bytes
name_or fallback none = fallback
name_or fallback (some row) = if equal row.name [] then fallback else row.name

known_name : Bytes → Option Bytes → Option PlayerRow → Bytes
known_name fallback (some name) row = name
known_name fallback none row = name_or fallback row

pub resolve_player_name : Module → ℤ → Bytes → Bytes → Bytes
resolve_player_name g server_id steam_id controller =
    if contains (codes "PlayerController") controller
    then known_name controller (name_of (live_of (lookup server_id g.live_cache)) steam_id)
        (last_row g.players steam_id)
    else controller
