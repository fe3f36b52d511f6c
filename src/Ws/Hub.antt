-- ===== src/Ws/Hub.antt =====
-- The clients of `WsHandler` and the broadcasts, src/net/ws_handler.cpp. `mtx_` is a `std::mutex`:
-- a thread that holds it and takes it again never goes on. Such a call has no result, `none`.
pub mod Delivery
use mbsquad.Prelude.{
  ℕ, ◌+◌, ◌-◌, Bool, true, false, not, ◌&&◌, ◌||◌, List, [], ◌∷◌, ◌++◌, Option, none, some, ltb,
  ◌==◌, if◌then◌else◌, ◌>>=◌, keep, length,
}
use mbsquad.Prelude.Bytes.{Bytes, codes, equal}
use mbsquad.Prelude.Maps.{lookup, insert, remove, bytes_key, nat_key}
use mbsquad.Ws.Diff.{PlayerSnapshot, PlayerDiff, calculate_diff}

-- `last_ping` is in seconds; the send callback of a client is the log of what it was sent.
pub record WsClient : Type 0 where
  pub id : Bytes
  pub subscribed_servers : List ℕ
  pub last_ping : ℕ

pub record Hub : Type 0 where
  pub locked : Bool
  pub clients : List (Bytes × WsClient)
  pub player_cache : List (ℕ × List PlayerSnapshot)
  pub last_player_broadcast : List (ℕ × ℕ)
  pub flush_queue : List (ℕ × Bytes)
  -- what the callbacks were given, oldest first
  pub outbox : List (Bytes × Bytes)

-- `std::lock_guard`
abbrev pub lock : Hub → Option Hub
lock h = if h.locked then none else some (record h { locked = true })

abbrev pub unlock : Hub → Hub
unlock h = record h { locked = false }

pub register_client : Bytes → ℕ → ℕ → Hub → Option Hub
register_client client_id server_id now hub = do
  h ← lock hub
  let client : WsClient = record {
    id = client_id;
    subscribed_servers = server_id ∷ [];
    last_ping = now;
  }
  some (unlock (record h { clients = insert client_id client h.clients }))

pub unregister_client : Bytes → Hub → Option Hub
unregister_client client_id hub = do
  h ← lock hub
  some (unlock (record h { clients = remove client_id h.clients }))

abbrev pub member : ℕ → List ℕ → Bool
member s [] = false
member s (x ∷ xs) = if x == s then true else member s xs

add_server : ℕ → Option WsClient → Bytes → List (Bytes × WsClient) → List (Bytes × WsClient)
add_server server_id none client_id clients = clients
add_server server_id (some c) client_id clients =
    insert client_id (record c { subscribed_servers = server_id ∷ c.subscribed_servers }) clients

pub subscribe : ℕ → Bytes → Hub → Option Hub
subscribe server_id client_id hub = do
  h ← lock hub
  some (
      unlock (record h {
        clients = add_server server_id (lookup client_id h.clients) client_id h.clients;
      }))

pub unsubscribe : Bytes → Hub → Option Hub
unsubscribe client_id hub = do
  h ← lock hub
  some (unlock (record h { clients = remove client_id h.clients }))

-- A client whose last ping is more than 120 seconds old.
abbrev pub is_stale : ℕ → WsClient → Bool
is_stale now c = ltb (c.last_ping + 120) now

pub stale_ids : ℕ → List (Bytes × WsClient) → List Bytes
stale_ids now [] = []
stale_ids now ((id, c) ∷ clients) =
    if is_stale now c then id ∷ stale_ids now clients else stale_ids now clients

pub erase_all : List Bytes → List (Bytes × WsClient) → List (Bytes × WsClient)
erase_all [] clients = clients
erase_all (id ∷ ids) clients = erase_all ids (remove id clients)

pub cleanup : ℕ → Hub → Option Hub
cleanup now hub = do
  h ← lock hub
  some (unlock (record h { clients = erase_all (stale_ids now h.clients) h.clients }))

-- The targets are gathered under the lock and called outside it.
targets : ℕ → List (Bytes × WsClient) → Bytes → List (Bytes × Bytes)
targets server_id [] message = []
targets server_id ((id, c) ∷ clients) message =
    if member 0 c.subscribed_servers || member server_id c.subscribed_servers
    then (id, message) ∷ targets server_id clients message
    else targets server_id clients message

pub send_to_subscribers : ℕ → Bytes → Hub → Option Hub
send_to_subscribers server_id message hub = do
  h ← lock hub
  some (record (unlock h) { outbox = h.outbox ++ targets server_id h.clients message })

pub record BroadcastConfig : Type 0 where
  pub player_list_interval_ms : ℕ
  pub chat_interval_ms : ℕ
  pub kill_interval_ms : ℕ
  pub revive_interval_ms : ℕ

pub message_of : Bytes → Bytes → Bytes
message_of event_type data_json =
    codes "{\"type\":\"" ++ (event_type ++ (codes "\",\"data\":" ++ (data_json ++ codes "}")))

unfoldable pub interval_of : BroadcastConfig → Bytes → ℕ
interval_of config event_type =
    if equal event_type (codes "chat")
    then config.chat_interval_ms
    else if equal event_type (codes "kill")
    then config.kill_interval_ms
    else if equal event_type (codes "revive")
    then config.revive_interval_ms
    else 0

pub broadcast : BroadcastConfig → ℕ → Bytes → Bytes → Hub → Option Hub
broadcast config server_id event_type data_json hub =
    let message = message_of event_type data_json in
    if interval_of config event_type == 0
    then send_to_subscribers server_id message hub
    else some (record hub { flush_queue = hub.flush_queue ++ (server_id, message) ∷ [] })

send_all : List (ℕ × Bytes) → Hub → Option Hub
send_all [] hub = some hub
send_all ((server_id, message) ∷ queue) hub = do
  h ← send_to_subscribers server_id message hub
  send_all queue h

-- One round of `flushLoop`.
pub flush : Hub → Option Hub
flush hub = send_all hub.flush_queue (record hub { flush_queue = [] })

pub cached_players : Option (List PlayerSnapshot) → List PlayerSnapshot
cached_players none = []
cached_players (some players) = players

unfoldable pub is_throttled : BroadcastConfig → Option ℕ → ℕ → Bool
is_throttled config none now = false
is_throttled config (some last) now = ltb now (last + config.player_list_interval_ms)

-- `diff.toJson()` is the parameter `to_json`.
pub broadcast_player_update :
    (PlayerDiff → Bytes) → BroadcastConfig → ℕ → ℕ → List PlayerSnapshot → Hub → Option Hub
broadcast_player_update to_json config now server_id current hub = do
  h ← lock hub
  let cached = cached_players (lookup server_id h.player_cache)
  let keep_cache = record h { player_cache = insert server_id current h.player_cache }
  let sending =
      send_to_subscribers server_id (to_json (calculate_diff cached current))
        (record keep_cache { last_player_broadcast = insert server_id now h.last_player_broadcast })
  if is_throttled config (lookup server_id h.last_player_broadcast) now
      then some (unlock keep_cache)
      else (sending >>= λ h'. some (unlock h'))
