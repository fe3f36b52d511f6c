-- ===== src/Events/Posts.antt =====
-- The other routes of src/handlers/event_handler.cpp: the list of players, and the single events of chat,
-- kill, revive, wound and administrator's camera that a relay posts. Each takes its fields as texts, empty
-- where the body has none; who may post is decided before, as in the route of the lines.
use mbsquad.Prelude.{
  ℕ, Bool, not, ◌&&◌, ◌||◌, List, [], ◌∷◌, ◌++◌, Option, none, some, if◌then◌else◌,
}
use mbsquad.Prelude.Bytes.{Bytes, codes, utf8, equal}
use mbsquad.Prelude.Int.{ℤ, pos, eqb_ℤ}
use mbsquad.Prelude.Maps.{insert}
use mbsquad.Core.Numbers.{safe_stoi}
use mbsquad.Core.Escape.{rcon_safe}
use mbsquad.Logs.Patterns.{Std}
use mbsquad.Logs.Lines.{ChatEvent, parse_chat_raw}
use mbsquad.Logs.Players.{PlayerInfo, parse_player_list}
use mbsquad.Events.{
  Module, PlayerRow, Effect, insert_kill, insert_revive, kill_scored, suicide_scored, revive_scored,
  console, to_browsers, int_key, is_team_kill, update_team_map, Keys, validate_relay_server_access,
}
use mbsquad.Events.Kills.{when, is_empty, warn_text, points_text, emit}
use mbsquad.Events.Lines.{Clock, store_chat}

pub data Answer : Type 0 where
  ok threw : Answer
  refused : Bytes → Answer

-- The checks that every route begins with, around what it does for the server.
abbrev pub for_server :
    Keys → Bytes → Bytes → Option Bytes → (ℤ → Module → Answer × Module) → Module → Answer × Module
for_server keys server_text header body route g =
    let result = route (safe_stoi server_text (pos 0)) g in
    if is_empty server_text
    then (refused (codes "serverId required"), g)
    else if validate_relay_server_access keys header body (safe_stoi server_text (pos 0))
    then result
    else (refused (codes "Unauthorized: apiKey does not match serverId"), g)

-- `ON CONFLICT(serverId, steamId) DO UPDATE`
unfoldable pub upsert_player : ℤ → ℕ → PlayerInfo → List PlayerRow → List PlayerRow
upsert_player server_id now p [] =
    record { server_id = server_id; steam_id = p.steam_id; name = p.name; last_seen = now } ∷ []
upsert_player server_id now p (row ∷ rows) =
    if eqb_ℤ row.server_id server_id && equal row.steam_id p.steam_id
    then record row { name = p.name; last_seen = now } ∷ rows
    else row ∷ upsert_player server_id now p rows

unfoldable pub upsert_players : ℤ → ℕ → List PlayerInfo → List PlayerRow → List PlayerRow
upsert_players server_id now [] rows = rows
upsert_players server_id now (p ∷ players) rows =
    upsert_players server_id now players (upsert_player server_id now p rows)

unfoldable pub take_players : Clock → ℤ → List PlayerInfo → Module → Module
take_players clock server_id players g =
    let listed =
      update_team_map server_id players
        (record g { live_cache = insert server_id players g.live_cache }) in
    emit (to_browsers server_id (codes "players_updated") [] ∷ [])
      (record listed { players = upsert_players server_id clock.utc players listed.players })

-- An id that is no number ends the request before anything is changed.
pub listed_or : Clock → ℤ → Module → Option (List PlayerInfo) → Answer × Module
listed_or clock server_id g none = (threw, g)
listed_or clock server_id g (some players) = (ok, take_players clock server_id players g)

-- `/api/events/playerlist-raw`
unfoldable pub post_player_list : Std → Clock → Bytes → ℤ → Module → Answer × Module
post_player_list std clock [] server_id g = (ok, g)
post_player_list std clock (c ∷ raw) server_id g =
    listed_or clock server_id g (parse_player_list std (c ∷ raw))

pub say : Clock → ℤ → Bytes → Bytes → Bytes → Bytes → Module → Module
say clock server_id player_name steam_id message type g =
    emit
      (to_browsers server_id (codes "chat") (
          (codes "playerName", player_name)
          ∷ (codes "steamId", steam_id)
          ∷ (codes "message", message)
          ∷ (codes "chatType", type)
          ∷ [])
        ∷ [])
      (store_chat clock
        (record {
          server_id = server_id;
          player_name = player_name;
          steam_id = steam_id;
          message = message;
          type = type;
          timestamp = clock.local;
        })
        g)

pub said : Clock → ℤ → Module → Option ChatEvent → Answer × Module
said clock server_id g none = (refused (codes "Cannot parse chat message"), g)
said clock server_id g (some e) =
    (ok, say clock server_id e.player_name e.steam_id e.message e.chat_type g)

-- `/api/events/chat`: a text that is parsed where there is no id, and the fields otherwise.
unfoldable pub post_chat :
    Std → Clock → Bytes → Bytes → Bytes → Bytes → Bytes → ℤ → Module → Answer × Module
post_chat std clock raw steam_id message player_name type server_id g =
    if not (is_empty raw) && is_empty steam_id
    then said clock server_id g (parse_chat_raw std raw)
    else if is_empty steam_id || is_empty message
    then (refused (codes "steamId and message required"), g)
    else (ok, say clock server_id player_name steam_id message type g)

abbrev posted_tk : Module → ℤ → Bytes → Bytes → Bool
posted_tk g server_id killer victim =
    not (is_empty killer) && not (equal killer victim) && is_team_kill g server_id killer victim

pub posted_score : ℤ → Bytes → Bytes → Bytes → Bytes → Bool → List Effect
posted_score server_id killer killer_name victim victim_name tk =
    if not (is_empty killer) && equal killer victim
    then suicide_scored server_id victim victim_name ∷ []
    else when (not (is_empty killer)) (kill_scored server_id killer killer_name tk)

-- `/api/events/kill`
unfoldable pub post_kill : Bytes → Bytes → Bytes → Bytes → Bytes → ℤ → Module → Answer × Module
post_kill killer killer_name victim victim_name weapon server_id g =
    let tk = posted_tk g server_id killer victim in
    if is_empty victim then (refused (codes "victimSteamId required"), g) else (
      ok,
      emit
          ((insert_kill server_id (if is_empty killer then killer_name else killer) victim weapon
              ∷ [])
            ++ posted_score server_id killer killer_name victim victim_name tk
            ++ (to_browsers server_id (if tk then codes "teamkill" else codes "kill") (
                  (codes "killerSteamId", killer)
                  ∷ (codes "killerName", killer_name)
                  ∷ (codes "victimSteamId", victim)
                  ∷ (codes "victimName", victim_name)
                  ∷ (codes "weapon", weapon)
                  ∷ [])
                ∷ []))
          g,
    )

-- `/api/events/revive`
unfoldable pub post_revive : Bytes → Bytes → Bytes → Bytes → ℤ → Module → Answer × Module
post_revive reviver reviver_name revived revived_name server_id g =
    if is_empty revived then (refused (codes "revivedSteamId required"), g) else (
      ok,
      emit
          ((insert_revive server_id reviver reviver_name revived revived_name
              ∷ revive_scored server_id reviver reviver_name
              ∷ to_browsers server_id (codes "revive") (
                  (codes "revivedSteamId", revived)
                  ∷ (codes "revivedName", revived_name)
                  ∷ (codes "reviverSteamId", reviver)
                  ∷ (codes "reviverName", reviver_name)
                  ∷ [])
              ∷ [])
            ++ when (not (is_empty reviver_name))
                (console server_id (warn_text revived (rcon_safe reviver_name ++ utf8 " 救了你")))
            ++ when (not (is_empty reviver) && not (is_empty revived_name)) (
                console server_id (
                  warn_text reviver (
                    utf8 "救了 "
                    ++ rcon_safe revived_name
                    ++ points_text g (codes "points_revive") (pos 1)))))
          g,
    )

-- `/api/events/wound`
unfoldable pub post_wound : Bytes → Bytes → Bytes → ℤ → Module → Answer × Module
post_wound victim_name attacker weapon server_id g = (
  ok,
  emit
      (to_browsers server_id (codes "wound") (
          (codes "victimName", victim_name)
          ∷ (codes "attackerSteamId", attacker)
          ∷ (codes "weapon", weapon)
          ∷ [])
        ∷ [])
      g,
)
