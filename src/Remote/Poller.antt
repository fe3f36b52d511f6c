-- ===== src/Remote/Poller.antt =====
-- src/core/remote_api_poller.cpp, `RemoteApiPoller` and its manager: what the answers of an adapter do
-- to the tables. `players` and `points` have one row for a server and a Steam id, by their indices. The
-- adapter's answers, none where it throws, and SQLite's time are arguments of each round.
pub mod Players
pub mod Pings
use mbsquad.Prelude.{
  ℕ, suc, ◌%◌, Bool, true, false, not, ◌&&◌, ◌||◌, ◌≡◌, ◌↔◌, List, [], ◌∷◌, ◌++◌, Option, none,
  some, ltb, ◌==◌, ==_iff, arith, if◌then◌else◌, length, exists, keep,
}
use mbsquad.Prelude.Bytes.{Bytes, codes, equal, equal_iff}
use mbsquad.Prelude.Maps.{Key, lookup, insert}
use mbsquad.Prelude.Int.{ℤ, pos, ltb_ℤ}
use mbsquad.Remote.Leaderboard.{PlayerInfo, EventInfo, is_nil}

abbrev pub RowId : Type 0
RowId = ℕ × Bytes

abbrev pub same_id : RowId → RowId → Bool
same_id (s, a) (t, b) = (s == t) && equal a b

pub same_id_iff : (x y : RowId) → (same_id x y ≡ true) ↔ (x ≡ y)
same_id_iff (s, a) (t, b) = ground (arith, ==_iff s t, equal_iff a b)

instance abbrev pub id_key : Key RowId
id_key = record { eqb = same_id; eqb_iff = same_id_iff }

pub record PlayerRow : Type 0 where
  pub name : Bytes
  pub playtime : ℕ
  pub first_seen : Bytes
  pub last_seen : Bytes
  pub last_ip : Option Bytes

pub record PointsRow : Type 0 where
  pub player_name : Bytes
  pub balance : ℤ
  pub lifetime_earned : ℤ
  pub last_updated : Bytes

-- A row of `kills`, of `chat_logs` and of `player_events`.
pub data LogRow : Type 0 where
  kill : ℕ → Bytes → Bytes → Bytes → LogRow
  chat : ℕ → Bytes → Bytes → Bytes → Bytes → LogRow
  event : ℕ → Bytes → Bytes → Bytes → Bytes → LogRow

pub record Tables : Type 0 where
  pub players : List (RowId × PlayerRow)
  pub points : List (RowId × PointsRow)
  pub logs : List LogRow
  -- The messages to the browsers: the type and the count.
  pub sent : List (Bytes × ℕ)

abbrev pub old_playtime : Option PlayerRow → ℕ
old_playtime none = 0
old_playtime (some row) = row.playtime

abbrev pub first_seen_or : Bytes → Option PlayerRow → Bytes
first_seen_or now none = now
first_seen_or now (some row) = row.first_seen

-- The row that takes the place of the old one, whose address is gone.
abbrev pub seen_row : Bytes → Bytes → Option PlayerRow → PlayerRow
seen_row now name old = record {
  name = name;
  playtime = old_playtime old;
  first_seen = first_seen_or now old;
  last_seen = now;
  last_ip = none;
}

abbrev pub points_row : Bytes → PlayerInfo → PointsRow
points_row now p = record {
  player_name = p.name;
  balance = p.points;
  lifetime_earned = p.points;
  last_updated = now;
}

-- One player of the loop of `processPlayers`.
unfoldable pub process_player : ℕ → Bytes → PlayerInfo → Tables → Tables
process_player server_id now p t = record t {
  players =
      insert (server_id, p.steam_id)
        (seen_row now p.name (lookup (server_id, p.steam_id) t.players)) t.players;
  points =
      if ltb_ℤ (pos 0) p.points
      then insert (server_id, p.steam_id) (points_row now p) t.points
      else t.points;
}

-- The time is the same for the whole list, where SQLite reads it for each player.
unfoldable pub process_all : ℕ → Bytes → List PlayerInfo → Tables → Tables
process_all server_id now [] t = t
process_all server_id now (p ∷ ps) t =
    process_all server_id now ps (process_player server_id now p t)

abbrev pub tell {ℓ} : {A : Type ℓ} → Bytes → List A → Tables → Tables
tell type [] t = t
tell type (a ∷ rest) t = record t { sent = t.sent ++ ((type, length (a ∷ rest)) ∷ []) }

unfoldable pub process_players : ℕ → Bytes → List PlayerInfo → Tables → Tables
process_players server_id now players t =
    tell (codes "remote_players_sync") players (process_all server_id now players t)

-- The rows that an event gives; no other type is stored.
unfoldable pub event_rows : ℕ → EventInfo → List LogRow
event_rows server_id ev =
    if equal ev.type (codes "kill")
    then kill server_id ev.player_name ev.detail ev.timestamp ∷ []
    else if equal ev.type (codes "chat")
    then chat server_id ev.steam_id ev.player_name ev.detail ev.timestamp ∷ []
    else if equal ev.type (codes "join")
    then event server_id ev.steam_id ev.player_name (codes "join") ev.timestamp ∷ []
    else if equal ev.type (codes "leave")
    then event server_id ev.steam_id ev.player_name (codes "leave") ev.timestamp ∷ []
    else []

unfoldable pub store_events : ℕ → List EventInfo → Tables → Bytes → Tables × Bytes
store_events server_id [] t last = (t, last)
store_events server_id (ev ∷ evs) t last =
    store_events server_id evs (record t { logs = t.logs ++ event_rows server_id ev })
      (if is_nil ev.timestamp then last else ev.timestamp)

unfoldable pub process_events : ℕ → List EventInfo → Tables → Bytes → Tables × Bytes
process_events server_id events t last =
    let r = store_events server_id events t last in
    (tell (codes "remote_events_sync") events r.0, r.1)

pub record RemoteApiPoller : Type 0 where
  pub server_id : ℕ
  pub last_event_time : Bytes
  pub fail_count : ℕ
  -- How often the adapter was asked whether it is there.
  pub pings : ℕ

-- What one round of the loop meets: the adapter's answers, whether writing the message of a handler to
-- the log throws, and SQLite's time.
pub record Round : Type 0 where
  pub pong : Option Bool
  pub players : Option (List PlayerInfo)
  pub events : Bytes → Option (List EventInfo)
  pub leaderboard : Option (List PlayerInfo)
  pub log_throws : Bool
  pub now : Bytes

abbrev pub World : Type 0
World = RemoteApiPoller × Tables

-- A part of a round: it goes on, or an exception leaves it.
pub data Part : Type 0 where
  goes : World → Part
  escapes : World → Part

-- A request that throws has a handler, which writes to the log.
abbrev pub handled : Round → World → Part
handled r w = if r.log_throws then escapes w else goes w

abbrev pub take_players : Round → Option (List PlayerInfo) → World → Part
take_players r none w = handled r w
take_players r (some players) (p, t) = goes (p, process_players p.server_id r.now players t)

abbrev pub take_events : Round → Option (List EventInfo) → World → Part
take_events r none w = handled r w
take_events r (some events) (p, t) =
    let s = process_events p.server_id events t p.last_event_time in
    goes (record p { last_event_time = s.1 }, s.0)

-- Nothing is done with an empty list.
abbrev pub take_leaders : Round → Option (List PlayerInfo) → World → Part
take_leaders r (some []) w = goes w
take_leaders r leaders w = take_players r leaders w

abbrev pub after_part : Part → (World → Part) → Part
after_part (escapes w) next = escapes w
after_part (goes w) next = next w

-- The three requests, each with its own handler of exceptions.
unfoldable pub poll_once : Round → World → Part
poll_once r w =
    after_part
      (after_part (take_players r r.players w)
        (λ w1. take_events r (r.events w1.0.last_event_time) w1))
      (take_leaders r r.leaderboard)

-- The end of a round, with the handler around all of it; what that one writes to the log is left out.
unfoldable pub counted : Part → World
counted (goes (p, t)) = (record p { fail_count = 0 }, t)
counted (escapes (p, t)) = (record p { fail_count = suc p.fail_count }, t)

-- A `ping` that throws is caught by the same handler.
abbrev pub pinged : Round → Option Bool → World → World
pinged r none w = counted (escapes w)
pinged r (some false) w = w
pinged r (some true) w = counted (poll_once r w)

-- A round of `pollLoop`.
unfoldable pub poll_round : Round → World → World
poll_round r (p, t) =
    if ltb 0 p.fail_count && p.fail_count % 5 == 0
    then pinged r r.pong (record p { pings = suc p.pings }, t)
    else counted (poll_once r (p, t))

unfoldable pub poll_loop : List Round → World → World
poll_loop [] w = w
poll_loop (r ∷ rs) w = poll_loop rs (poll_round r w)

-- The manager, by the servers of its pollers.
abbrev pub is_polled : ℕ → List ℕ → Bool
is_polled server_id pollers = exists (λ s. s == server_id) pollers

-- `startServer`; the last argument is whether the server's row asks for a poller.
abbrev pub start_server : ℕ → Bool → List ℕ → List ℕ
start_server server_id has_row pollers =
    if is_polled server_id pollers
    then pollers
    else if has_row
    then pollers ++ (server_id ∷ [])
    else pollers

-- `stopServer` takes the first poller of the server away.
unfoldable pub stop_server : ℕ → List ℕ → List ℕ
stop_server server_id [] = []
stop_server server_id (s ∷ pollers) =
    let rest = stop_server server_id pollers in if s == server_id then pollers else s ∷ rest
