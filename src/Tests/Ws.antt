-- ===== src/Tests/Ws.antt =====
-- Runs of src/net/ws_handler.cpp.
use mbsquad.Prelude.{ℕ, refl, List, [], ◌∷◌, false}
use mbsquad.Prelude.Bytes.{Bytes, codes, equal}
use mbsquad.Prelude.Int.{pos}
use mbsquad.Prelude.Maps.{lookup, bytes_key, nat_key}
use mbsquad.Ws.Diff.{PlayerSnapshot, PlayerDiff, by_id, calculate_diff}
use mbsquad.Ws.Diff.Apply.{apply_diff, SameView}
use mbsquad.Ws.Diff.Calculated.{apply_diff-calculate_diff}
use mbsquad.Ws.Hub.{Hub, BroadcastConfig}

abbrev player : Bytes → ℕ → PlayerSnapshot
player id team = record {
  steam_id = id;
  name = codes "p";
  team_id = pos team;
  squad_id = [];
  rcon_id = [];
}

abbrev before : List PlayerSnapshot
before = player (codes "a") 1 ∷ player (codes "b") 1 ∷ []

abbrev after : List PlayerSnapshot
after = player (codes "b") 2 ∷ player (codes "c") 1 ∷ []

apply_diff-calculate_diff_example :
    SameView
      (lookup (codes "b") (apply_diff (calculate_diff before after) (by_id before)))
      (lookup (codes "b") (by_id after))
unfolding equal
apply_diff-calculate_diff_example =
    apply_diff-calculate_diff (codes "b") before after (refl, (refl, tt))

abbrev hub : List (ℕ × ℕ) → Hub
hub last = record {
  locked = false;
  clients =
      (codes "ws", record { id = codes "ws"; subscribed_servers = 1 ∷ []; last_ping = 0 }) ∷ [];
  player_cache = (1, before) ∷ [];
  last_player_broadcast = last;
  flush_queue = [];
  outbox = [];
}

abbrev config : ℕ → BroadcastConfig
config ms = record {
  player_list_interval_ms = 1000;
  chat_interval_ms = ms;
  kill_interval_ms = ms;
  revive_interval_ms = ms;
}

abbrev to_json : PlayerDiff → Bytes
to_json d = codes "{}"
