-- ===== src/Logs/Events.antt =====
-- The branches of `LogParser::processLine` that read one line and keep nothing: each takes the match of
-- its regular expression and gives the lines it parsed.
use mbsquad.Prelude.{Bool, ◌&&◌, List, [], ◌∷◌, Option, none, some, if◌then◌else◌}
use mbsquad.Prelude.Bytes.{Bytes, codes, equal, contains}
use mbsquad.Logs.Names.{trim_blanks}
use mbsquad.Logs.Patterns.{
  Std, Match, group, revive, post_login, disconnect, begin_inactive, chat_log, create_squad,
  create_squad_old, tick_rate, new_game, match_end, change_layer, set_next_layer, removed_player,
  attack, admin_broadcast, join_succeeded,
}

pub record ParsedLine : Type 0 where
  pub type : Bytes
  pub fields : List (Bytes × Bytes)

revive_event : Option Match → List ParsedLine
revive_event none = []
revive_event (some m) =
    record {
      type = codes "revive";
      fields =
          (codes "reviverName", group m 3)
          ∷ (codes "reviverEosId", group m 4)
          ∷ (codes "reviverSteamId", group m 5)
          ∷ (codes "revivedName", group m 6)
          ∷ (codes "revivedEosId", group m 7)
          ∷ (codes "revivedSteamId", group m 8)
          ∷ [];
    }
    ∷ []

new_game_event : Option Match → List ParsedLine
new_game_event none = []
new_game_event (some m) =
    if equal (group m 5) (codes "TransitionMap")
    then []
    else record {
      type = codes "newgame";
      fields = (codes "map", group m 5) ∷ (codes "dlc", group m 3) ∷ [];
    }
      ∷ []

join_event : Option Match → List ParsedLine
join_event none = []
join_event (some m) =
    record {
      type = codes "join";
      fields =
          (codes "playerName", trim_blanks (group m 3))
          ∷ (codes "ip", group m 4)
          ∷ (codes "eosId", group m 5)
          ∷ (codes "steamId", group m 6)
          ∷ [];
    }
    ∷ []

join_succeeded_event : Option Match → List ParsedLine
join_succeeded_event none = []
join_succeeded_event (some m) =
    record { type = codes "joinSucceeded"; fields = (codes "playerSuffix", group m 3) ∷ [] } ∷ []

-- The channel's message names the player by the EOS id only.
disconnect_event : Option Match → List ParsedLine
disconnect_event none = []
disconnect_event (some m) =
    record {
      type = codes "disconnect";
      fields =
          (codes "ip", group m 6)
          ∷ (codes "eosId", group m 12)
          ∷ (codes "steamId", [])
          ∷ (codes "controller", group m 10)
          ∷ [];
    }
    ∷ []

begin_inactive_event : Option Match → List ParsedLine
begin_inactive_event none = []
begin_inactive_event (some m) =
    record {
      type = codes "disconnect";
      fields =
          (codes "playerName", trim_blanks (group m 3))
          ∷ (codes "eosId", group m 4)
          ∷ (codes "steamId", group m 5)
          ∷ (codes "ip", [])
          ∷ [];
    }
    ∷ []

chat_event : Option Match → List ParsedLine
chat_event none = []
chat_event (some m) =
    record {
      type = codes "chat";
      fields =
          (codes "playerName", group m 1)
          ∷ (codes "steamId", group m 2)
          ∷ (codes "message", group m 3)
          ∷ [];
    }
    ∷ []

admin_broadcast_event : Option Match → List ParsedLine
admin_broadcast_event none = []
admin_broadcast_event (some m) =
    record {
      type = codes "adminBroadcast";
      fields = (codes "message", group m 3) ∷ (codes "from", group m 4) ∷ [];
    }
    ∷ []

tick_rate_event : Option Match → List ParsedLine
tick_rate_event none = []
tick_rate_event (some m) =
    record { type = codes "tickRate"; fields = (codes "tickRate", group m 3) ∷ [] } ∷ []

old_squad_event : Option Match → List ParsedLine
old_squad_event none = []
old_squad_event (some m) =
    record {
      type = codes "createSquad";
      fields =
          (codes "creatorName", group m 1)
          ∷ (codes "squadName", group m 2)
          ∷ (codes "squadId", group m 3)
          ∷ [];
    }
    ∷ []

-- The second match is of the older form of the line.
create_squad_event : Option Match → Option Match → List ParsedLine
create_squad_event none old = old_squad_event old
create_squad_event (some m) old =
    record {
      type = codes "createSquad";
      fields =
          (codes "creatorName", trim_blanks (group m 3))
          ∷ (codes "creatorEosId", group m 4)
          ∷ (codes "creatorSteamId", group m 5)
          ∷ (codes "squadId", group m 6)
          ∷ (codes "squadName", trim_blanks (group m 7))
          ∷ (codes "teamName", trim_blanks (group m 8))
          ∷ [];
    }
    ∷ []

match_end_event : Option Match → List ParsedLine
match_end_event none = []
match_end_event (some m) =
    record {
      type = codes "matchEnd";
      fields =
          (codes "teamNumber", group m 3)
          ∷ (codes "teamInfo", group m 4)
          ∷ (codes "result", group m 5)
          ∷ (codes "tickets", group m 6)
          ∷ (codes "mapLayer", group m 7)
          ∷ (codes "mapLevel", group m 8)
          ∷ [];
    }
    ∷ []

layer_event : Bytes → Option Match → List ParsedLine
layer_event name none = []
layer_event name (some m) =
    record { type = name; fields = (codes "layer", group m 3) ∷ (codes "admin", group m 4) ∷ [] }
    ∷ []

removed_player_event : Option Match → List ParsedLine
removed_player_event none = []
removed_player_event (some m) =
    record {
      type = codes "removedPlayer";
      fields =
          (codes "anticheatId", group m 3)
          ∷ (codes "sessionId", group m 4)
          ∷ (codes "eosId", group m 5)
          ∷ [];
    }
    ∷ []

attack_event : Option Match → List ParsedLine
attack_event none = []
attack_event (some m) =
    record {
      type = codes "attack";
      fields =
          (codes "victimName", trim_blanks (group m 3))
          ∷ (codes "damage", group m 4)
          ∷ (codes "attackerName", trim_blanks (group m 5))
          ∷ (codes "attackerEosId", group m 6)
          ∷ (codes "attackerSteamId", group m 7)
          ∷ (codes "weapon", group m 9)
          ∷ [];
    }
    ∷ []

abbrev pub finds : Bytes → Bytes → Bool
finds s p = contains p s

-- The tests from `has revived` on, in the order of the source, on the line with its ids replaced.
pub plain_event : Std → Bytes → List ParsedLine
plain_event std s =
    if finds s (codes "has revived") && finds s (codes "LogSquad:")
    then revive_event (std.search revive s)
    else if finds s (codes "LogWorld: Bringing World")
    then new_game_event (std.search new_game s)
    else if finds s (codes "PostLogin: NewPlayer:")
    then join_event (std.search post_login s)
    else if finds s (codes "Join succeeded")
    then join_succeeded_event (std.search join_succeeded s)
    else if finds s (codes "UChannel::Close:")
    then disconnect_event (std.search disconnect s)
    else if finds s (codes "BeginInactiveState()")
    then begin_inactive_event (std.search begin_inactive s)
    else if finds s (codes "[ChatLog]")
    then chat_event (std.search chat_log s)
    else if finds s (codes "ADMIN COMMAND: Message broadcasted")
    then admin_broadcast_event (std.search admin_broadcast s)
    else if finds s (codes "Server Tick Rate:")
    then tick_rate_event (std.search tick_rate s)
    else if finds s (codes "has created Squad")
    then create_squad_event (std.search create_squad s) (std.search create_squad_old s)
    else if finds s (codes "the match with") && finds s (codes "LogSquadGameEvents")
    then match_end_event (std.search match_end s)
    else if finds s (codes "ADMIN COMMAND: Change layer")
    then layer_event (codes "changeLayer") (std.search change_layer s)
    else if finds s (codes "ADMIN COMMAND: Set next layer")
    then layer_event (codes "setNextLayer") (std.search set_next_layer s)
    else if finds s (codes "Removed player from player tracking")
    then removed_player_event (std.search removed_player s)
    else if finds s (codes "ActualDamage")
    then attack_event (std.search attack s)
    else []
