-- ===== src/Relay/Requests.antt =====
-- relay/main.cpp, the requests that the relay answers: `parseReq`, and the server of the panel's
-- calls, `unbanSvr`. The values of a body are an argument: `json::parse(body).value(key, "")`, with the
-- exceptions of the two.
pub mod Key
use mbsquad.Prelude.{
  ℕ, Bool, true, false, not, ◌&&◌, ◌||◌, List, [], ◌∷◌, ◌++◌, Option, none, some, ◌==◌,
  if◌then◌else◌,
}
use mbsquad.Prelude.Bytes.{Bytes, codes, equal, split_at}
use mbsquad.Prelude.Find.{find}
use mbsquad.Relay.Files.{Disk, trim}
use mbsquad.Relay.Entries.{
  Outcome, throws, returns, SyncResult, unban, sync_admin, sync_slots, reserved_slots,
}

pub record HttpRequest : Type 0 where
  pub method : Bytes
  pub path : Bytes
  pub body : Bytes

abbrev pub before : Bytes → Option (Bytes × Bytes) → Bytes
before s none = s
before s (some (front, rest)) = front

abbrev with_path : Bytes → Bytes → Option (Bytes × Bytes) → Option HttpRequest
with_path method body none = none
with_path method body (some (path, rest)) =
    some (record { method = method; path = path; body = body })

abbrev with_method : Bytes → Option (Bytes × Bytes) → Option HttpRequest
with_method body none = none
with_method body (some (method, rest)) = with_path method body (split_at b' ' rest)

abbrev with_body : Bytes → Option (Bytes × Bytes) → Option HttpRequest
with_body raw none = none
with_body raw (some (head, body)) =
    with_method body (split_at b' ' (before raw (find (13 ∷ 10 ∷ []) raw)))

-- None where the call is false.
unfoldable pub parse_req : Bytes → Option HttpRequest
parse_req raw = with_body raw (find (13 ∷ 10 ∷ 13 ∷ 10 ∷ []) raw)

-- What stands before the first zero byte: a `char` array as a string.
unfoldable pub c_string : Bytes → Bytes
c_string [] = []
c_string (c ∷ s) = let rest = c_string s in if c == 0 then [] else c ∷ rest

abbrev pub key_of : Option (Bytes × Bytes) → Bytes
key_of none = []
key_of (some (front, v)) = trim (before v (find (13 ∷ 10 ∷ []) v))

-- The value behind the first `X-API-Key:` of what was received.
unfoldable pub request_key : Bytes → Bytes
request_key raw = key_of (find (codes "X-API-Key:") raw)

-- The bodies of the answers; the text of a JSON value is left to the library.
pub data Reply : Type 0 where
  text : ℕ → Bytes → Reply
  error : ℕ → Bytes → Reply
  synced : SyncResult → Reply
  slots : List Bytes → Reply

abbrev pub is_nil : Bytes → Bool
is_nil [] = true
is_nil (c ∷ s) = false

module _ (value : Bytes → Bytes → Outcome Bytes) (log_dir : Bytes) where
  abbrev pub unbanned : Disk → Outcome Disk → Reply × Disk
  unbanned d (throws message) = (error 500 message, d)
  unbanned d (returns d') = (text 200 (codes "{\"success\":true}"), d')

  abbrev pub unban_of : Disk → Outcome Bytes → Reply × Disk
  unban_of d (throws message) = (error 500 message, d)
  unban_of d (returns sid) =
      if is_nil sid
      then (text 400 (codes "{\"error\":\"steamId\"}"), d)
      else unbanned d (unban d log_dir sid)

  abbrev pub admin_synced : Disk → Outcome (SyncResult × Disk) → Reply × Disk
  admin_synced d (throws message) = (error 500 message, d)
  admin_synced d (returns (r, d')) = (synced r, d')

  abbrev pub sync_admin_of : Disk → Outcome Bytes → Outcome Bytes → Outcome Bytes → Reply × Disk
  sync_admin_of d (throws message) act lv = (error 500 message, d)
  sync_admin_of d (returns sid) (throws message) lv = (error 500 message, d)
  sync_admin_of d (returns sid) (returns act) (throws message) = (error 500 message, d)
  sync_admin_of d (returns sid) (returns act) (returns lv) =
      if is_nil sid || is_nil act
      then (text 400 (codes "{\"error\":\"steamId and action required\"}"), d)
      else admin_synced d (sync_admin d log_dir sid act lv)

  abbrev pub sync_slots_of : Disk → Outcome Bytes → Outcome Bytes → Outcome Bytes → Reply × Disk
  sync_slots_of d (throws message) id name = (error 500 message, d)
  sync_slots_of d (returns action) (throws message) name = (error 500 message, d)
  sync_slots_of d (returns action) (returns id) (throws message) = (error 500 message, d)
  sync_slots_of d (returns action) (returns id) (returns name) =
      if is_nil action || is_nil id
      then (text 400 (codes "{\"error\":\"action and steamId required\"}"), d)
      else (text 200 (codes "{\"success\":true}"), sync_slots d log_dir action id)

  -- The four calls of the panel.
  unfoldable pub panel_call : Disk → HttpRequest → Reply × Disk
  panel_call d req =
      if equal req.method (codes "POST") && equal req.path (codes "/api/unban")
      then unban_of d (value req.body (codes "steamId"))
      else if equal req.method (codes "POST") && equal req.path (codes "/api/admin-sync")
      then sync_admin_of d (value req.body (codes "steamId")) (value req.body (codes "action"))
          (value req.body (codes "level"))
      else if equal req.method (codes "POST") && equal req.path (codes "/api/reserved-slots/sync")
      then sync_slots_of d (value req.body (codes "action")) (value req.body (codes "steamId"))
          (value req.body (codes "playerName"))
      else if equal req.method (codes "GET") && equal req.path (codes "/api/reserved-slots")
      then (slots (reserved_slots d log_dir), d)
      else (text 404 (codes "{}"), d)

  abbrev pub answered : Reply × Disk → Option Reply × Disk
  answered (reply, d) = (some reply, d)

  abbrev pub checked : Bytes → Bytes → Disk → Option HttpRequest → Option Reply × Disk
  checked stored raw d none = (none, d)
  checked stored raw d (some req) =
      if is_nil (request_key raw) || not (equal (request_key raw) stored)
      then (some (text 401 (codes "{\"error\":\"unauthorized\"}")), d)
      else answered (panel_call d req)

  -- The thread of a connection, over the bytes that its one `recv` gives; none for no answer.
  unfoldable pub unban_connection : Bytes → Disk → Bytes → Option Reply × Disk
  unban_connection stored d [] = (none, d)
  unban_connection stored d (c ∷ raw) = checked stored (c ∷ raw) d (parse_req (c_string (c ∷ raw)))
