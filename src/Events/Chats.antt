-- ===== src/Events/Chats.antt =====
-- When a message of the chat is stored again.
use mbsquad.Prelude.{
  ℕ, ◌+◌, ◌<◌, Bool, true, false, List, ◌∷◌, if◌then◌else◌, exists, ◌≡◌, refl, ap, arith,
}
use mbsquad.Prelude.Bytes.{equal_refl}
use mbsquad.Prelude.Int.{eqb_ℤ_iff}
use mbsquad.Events.{Module, ChatRow}
use mbsquad.Events.Lines.{Clock, is_repeat, store_chat}

-- The same message, at another time.
abbrev pub said_again : ChatRow → ℕ → ChatRow
said_again row local = record row { timestamp = local }

kept :
    (rows : List ChatRow) (test : ChatRow → Bool) (row : ChatRow)
    → test row ≡ true
    → exists test (row ∷ rows) ≡ true
kept rows test row h = ap (λ b. if b then true else exists test rows) h

-- A message of a player that is stored at a local time is not stored a second time while SQLite's
-- clock, which counts universal time, is less than five seconds past that local time: where the local
-- time is hours ahead, for that many hours.
pub store_chat_again :
    (first second : Clock) (row : ChatRow) (g : Module)
    → exists (is_repeat first row.server_id row.steam_id row.message) g.chat_logs ≡ false
    → second.utc < first.local + 5
    → (store_chat second
        (said_again row second.local)
        (store_chat first (said_again row first.local) g)).chat_logs
      ≡ said_again row first.local ∷ g.chat_logs
unfolding store_chat
store_chat_again first second row g fresh early =
    let same : is_repeat second row.server_id row.steam_id row.message (said_again row first.local)
        ≡ true =
      ground (
        arith,
        early,
        (eqb_ℤ_iff row.server_id row.server_id).1 refl,
        equal_refl row.steam_id,
        equal_refl row.message,
      ) in
    rw fresh (
      rw
        (kept g.chat_logs (is_repeat second row.server_id row.steam_id row.message)
          (said_again row first.local) same)
        refl)
