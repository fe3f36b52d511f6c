-- ===== src/Remote/Leaderboard.antt =====
-- src/core/remote_api_poller.cpp, the answers of a service, page by page: `fetchLeaderboard` of
-- `PluginSquadAdapter`, with the request as an argument, and the readers of the other adapters.
pub mod Rounds
use mbsquad.Prelude.{
  ℕ, zero, suc, ◌+◌, ◌-◌, min, Bool, true, false, not, ◌&&◌, ◌||◌, List, [], ◌∷◌, ◌++◌, Option,
  none, some, ◌>>=◌, leb, ltb, ◌==◌, if◌then◌else◌, length,
}
use mbsquad.Prelude.Bytes.{Bytes, codes, equal, contains}
use mbsquad.Prelude.Int.{ℤ, pos, ltb_ℤ}
use mbsquad.Core.Numbers.{decimal_nat}
use mbsquad.Remote.Fields.{Values, resolve_field, resolve_string, resolve_int}

pub record PlayerInfo : Type 0 where
  pub steam_id : Bytes
  pub name : Bytes
  pub points : ℤ
  pub team_id : ℤ
  pub squad_id : ℤ

pub record EventInfo : Type 0 where
  pub type : Bytes
  pub steam_id : Bytes
  pub player_name : Bytes
  pub detail : Bytes
  pub timestamp : Bytes

abbrev pub is_nil : Bytes → Bool
is_nil [] = true
is_nil (c ∷ s) = false

-- The loop over an array: it ends where a value is of the wrong type, and keeps what it has; whether it
-- came to the end.
unfoldable pub read_all {ℓ κ} :
    {A : Type ℓ} {J : Type κ} → (J → Option A) → (A → Bool) → List J → List A × Bool
read_all read wanted [] = ([], true)
read_all read wanted (j ∷ js) =
    let rest = read_all read wanted js in
    elim (read j) [
      | none ↦ ([], false)
      | some a ↦ (if wanted a then a ∷ rest.0 else rest.0, rest.1)
    ]

abbrev pub has_id : PlayerInfo → Bool
has_id p = not (is_nil p.steam_id)

module _ {J : Type 0} (V : Values J) where
  self_player : J → Option PlayerInfo
  self_player p = do
    steam_id ← V.value p (codes "steamId") []
    name ← V.value p (codes "name") []
    team_id ← V.number_value p (codes "teamId") (pos 0)
    squad_id ← V.number_value p (codes "squadId") (pos 0)
    some (record {
      steam_id = steam_id;
      name = name;
      points = pos 0;
      team_id = team_id;
      squad_id = squad_id;
    })

  self_event : J → Option EventInfo
  self_event e = do
    type ← V.value e (codes "type") []
    steam_id ← V.value e (codes "steamId") []
    player_name ← V.value e (codes "playerName") []
    detail ← V.value e (codes "detail") []
    timestamp ← V.value e (codes "timestamp") []
    some (record {
      type = type;
      steam_id = steam_id;
      player_name = player_name;
      detail = detail;
      timestamp = timestamp;
    })

  self_leader : J → Option PlayerInfo
  self_leader p = do
    steam_id ← V.value p (codes "steamId") []
    name ← V.value p (codes "playerName") []
    points ← V.number_value p (codes "balance") (pos 0)
    some (record {
      steam_id = steam_id;
      name = name;
      points = points;
      team_id = pos 0;
      squad_id = pos 0;
    })

  -- The array behind a key of the answer; nothing where there is none.
  abbrev array_of : Bytes → Bytes → List J
  array_of [] key = []
  array_of (c ∷ resp) key = elim (V.parse (c ∷ resp) >>= (λ j. V.get j key) >>= V.items) [
    | none ↦ []
    | some js ↦ js
  ]

  -- `SelfPanelAdapter`, over what its `httpGet` gives.
  module _ (http_get : Bytes → Bytes) where
    pub fetch_players : List PlayerInfo
    fetch_players =
        (read_all self_player has_id
          (array_of (http_get (codes "/api/players/online")) (codes "players"))).0

    abbrev since_part : Bytes → Bytes
    since_part [] = []
    since_part (c ∷ since) = codes "&since=" ++ (c ∷ since)

    pub fetch_events : Bytes → List EventInfo
    fetch_events since =
        (read_all self_event (λ e. true)
          (array_of (http_get (codes "/api/events/log?page_size=100" ++ since_part since))
            (codes "events"))).0

    pub fetch_leaders : ℕ → List PlayerInfo
    fetch_leaders limit =
        (read_all self_leader has_id (
          array_of (http_get (codes "/api/points/leaderboard?limit=" ++ decimal_nat limit))
            (codes "leaderboard"))).0

-- A page of the service: the players that are read from it, whether all of it is, the number of its
-- entries and the number of the pages.
pub record Page : Type 0 where
  pub infos : List PlayerInfo
  pub whole : Bool
  pub size : ℕ
  pub total_pages : ℤ

module _ {J : Type 0} (V : Values J) where
  abbrev pub is_there : Option ℤ → Bool
  is_there none = false
  is_there (some n) = true

  -- An id of zero is that of an entry without one.
  abbrev pub named : PlayerInfo → Bool
  named p = not (is_nil p.steam_id) && not (equal p.steam_id (codes "0"))

  module _ (id_value : J → Option Bytes) where
    pub plugin_leader : J → Option PlayerInfo
    plugin_leader entry = do
      steam_id ← id_value entry
      name ← V.value entry (codes "name") []
      points ← V.number_value entry (codes "points") (pos 0)
      some (record {
        steam_id = steam_id;
        name = name;
        points = points;
        team_id = pos 0;
        squad_id = pos 0;
      })

    abbrev pub numbers_of : Option ℤ → Option ℤ → List J → List PlayerInfo × Bool → Page
    numbers_of total pages lb read = record {
      infos = read.0;
      whole = read.1 && (is_there total && is_there pages);
      size = length lb;
      total_pages = elim pages [ none ↦ pos 1 | some n ↦ n ];
    }

    abbrev pub page_of : J → List J → Option Page
    page_of j [] = none
    page_of j (entry ∷ lb) = some (
        numbers_of (V.number_value j (codes "total") (pos 0))
          (V.number_value j (codes "total_pages") (pos 1)) (entry ∷ lb)
          (read_all plugin_leader named (entry ∷ lb)))

    abbrev pub successful : J → Bool → Option Page
    successful j false = none
    successful j true = (V.get j (codes "leaderboard") >>= V.items) >>= page_of j

    -- None where the loop stops before it reads an entry.
    unfoldable pub read_page : Bytes → Option Page
    read_page [] = none
    read_page (c ∷ resp) = do
      j ← V.parse (c ∷ resp)
      success ← V.flag_value j (codes "success") false
      successful j success

-- The loop of `fetchLeaderboard`, over the pages: the players, and the number of the requests. The fuel
-- bounds the rounds.
module _ (request : ℕ → ℕ → Option Page) (page_size : ℕ) where
  abbrev pub stops : ℕ → ℕ → Page → Bool
  stops page remaining p =
      not p.whole || (not (ltb_ℤ (pos page) p.total_pages) || leb remaining p.size)

  abbrev pub next_page :
      (ℕ → ℕ → List PlayerInfo → ℕ → Option (List PlayerInfo × ℕ))
      → ℕ
      → ℕ
      → List PlayerInfo
      → ℕ
      → Option Page
      → Option (List PlayerInfo × ℕ)
  next_page again page remaining players sent none = some (players, suc sent)
  next_page again page remaining players sent (some p) =
      if stops page remaining p
      then some (players ++ p.infos, suc sent)
      else again (suc page) (remaining - p.size) (players ++ p.infos) (suc sent)

  unfoldable pub leaderboard_loop : ℕ → ℕ → ℕ → List PlayerInfo → ℕ → Option (List PlayerInfo × ℕ)
  leaderboard_loop zero page remaining players sent =
      if remaining == 0 then some (players, sent) else none
  leaderboard_loop (suc fuel) page remaining players sent =
      if remaining == 0
      then some (players, sent)
      else next_page (leaderboard_loop fuel) page remaining players sent
          (request page (min remaining page_size))

  -- The limit is fuel enough, as each page that goes on has an entry at least.
  unfoldable pub fetch_leaderboard : ℕ → Option (List PlayerInfo × ℕ)
  fetch_leaderboard limit = leaderboard_loop limit 1 limit [] 0

pub leaderboard_path : Bytes → Bytes → ℕ → ℕ → Bytes
leaderboard_path api_key server_id page size =
    codes "https://plugin.squad.cyou/api.php?action=dev_get_leaderboard&api_key="
    ++ (api_key
        ++ (codes "&server_id="
            ++ (server_id
                ++ (codes "&page="
                    ++ (decimal_nat page ++ (codes "&page_size=" ++ decimal_nat size))))))

module _ {J : Type 0} (V : Values J) (id_value : J → Option Bytes) (http_get : Bytes → Bytes) where
  -- `fetchLeaderboard` with the requests of an adapter; the page size is that of the settings.
  unfoldable pub fetch_plugin_leaderboard : Bytes → Bytes → ℕ → ℕ → Option (List PlayerInfo × ℕ)
  fetch_plugin_leaderboard api_key server_id page_size limit =
      fetch_leaderboard
        (λ page size.
          read_page V id_value (http_get (leaderboard_path api_key server_id page size)))
        page_size limit
