-- ===== src/Ws/Hub/Delivery.antt =====
-- What the clients are sent.
use mbsquad.Prelude.{
  ℕ, true, false, ◌≡◌, refl, ap, ◌∙◌, List, [], none, some, arith, ◌==◌, ◌>>=◌, length,
}
use mbsquad.Prelude.Bytes.{Bytes}
use mbsquad.Prelude.Maps.{lookup, insert, lookup-insert_self, nat_key}
use mbsquad.Ws.Diff.{PlayerSnapshot, PlayerDiff, calculate_diff}
use mbsquad.Ws.Diff.Apply.{Distinct}
use mbsquad.Ws.Diff.Calculated.{empty_diff, calculate_diff_self}
use mbsquad.Ws.Hub.{
  Hub, send_to_subscribers, BroadcastConfig, interval_of, broadcast, send_all, flush,
  cached_players, is_throttled, broadcast_player_update,
}

-- A hub that no thread holds and whose queue is empty.
abbrev pub IsIdle : Hub → Type 0
IsIdle h = (h.locked ≡ false) × (h.flush_queue ≡ [])

-- A throttled event reaches, with the next flush, the clients that it would have reached at once,
-- with the same message, and leaves the hub as an immediate broadcast does.
pub flush-broadcast :
    (slow fast : BroadcastConfig) (server_id : ℕ) (event_type data_json : Bytes) (hub : Hub)
    → IsIdle hub
    → (interval_of slow event_type == 0) ≡ false
    → (interval_of fast event_type == 0) ≡ true
    → (broadcast slow server_id event_type data_json hub >>= flush)
      ≡ broadcast fast server_id event_type data_json hub
unfolding broadcast flush send_all send_to_subscribers
flush-broadcast slow fast server_id event_type data_json hub (free, empty) h₁ h₂ = ground arith

-- `broadcastPlayerUpdate` calls `sendToSubscribers` with the mutex held, and that takes it again:
-- on every call that is not throttled it never returns.
pub broadcast_player_update_blocks :
    (to_json : PlayerDiff → Bytes) (config : BroadcastConfig) (now server_id : ℕ)
    (current : List PlayerSnapshot) (hub : Hub)
    → hub.locked ≡ false
    → is_throttled config (lookup server_id hub.last_player_broadcast) now ≡ false
    → broadcast_player_update to_json config now server_id current hub ≡ none
unfolding broadcast_player_update send_to_subscribers
broadcast_player_update_blocks to_json config now server_id current hub free due = ground arith

cached_players-some : (players : List PlayerSnapshot) → cached_players (some players) ≡ players
unfolding cached_players
cached_players-some players = refl

-- A throttled call sends nothing and yet replaces the cached list, so that the difference that the
-- next call calculates for the same list is empty: the clients never learn of the change.
pub broadcast_player_update_lost :
    (to_json : PlayerDiff → Bytes) (config : BroadcastConfig) (now server_id : ℕ)
    (current : List PlayerSnapshot) (hub : Hub)
    → hub.locked ≡ false
    → is_throttled config (lookup server_id hub.last_player_broadcast) now ≡ true
    → Distinct current
    → (hub' : Hub) × (broadcast_player_update to_json config now server_id current hub ≡ some hub')
      × (hub'.outbox ≡ hub.outbox)
      × (calculate_diff (cached_players (lookup server_id hub'.player_cache)) current
          ≡ empty_diff (length current))
unfolding broadcast_player_update
broadcast_player_update_lost to_json config now server_id current hub free early distinct = (
  record hub { player_cache = insert server_id current hub.player_cache },
  ground arith,
  refl,
  ap (λ o. calculate_diff (cached_players o) current)
        (lookup-insert_self server_id current hub.player_cache)
      ∙ ap (λ p. calculate_diff p current) (cached_players-some current)
      ∙ calculate_diff_self current distinct,
)
