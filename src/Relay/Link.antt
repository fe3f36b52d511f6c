-- ===== src/Relay/Link.antt =====
-- relay/main.cpp, the connection to the game server: `Rcon`. An `int` is its bit pattern, a number
-- below 2^32. Each call is given what the socket answers; of the bytes, those that arrive before the
-- time is up.
pub mod Exec
use mbsquad.Prelude.{
  ℕ, suc, ◌+◌, ◌-◌, ◌*◌, ◌/◌, ◌%◌, ◌^◌, Bool, true, false, not, ◌&&◌, ◌||◌, [], ◌∷◌, ◌++◌, Option,
  none, some, ltb, leb, ◌==◌, if◌then◌else◌, length, take, drop,
}
use mbsquad.Prelude.Bytes.{Bytes, codes, split_at}
use mbsquad.Prelude.Find.{find}
use mbsquad.Relay.Files.{trim}

unfoldable pub write_i32 : ℕ → Bytes
write_i32 v = (v % 256) ∷ (v / 256 % 256) ∷ (v / 2 ^ 16 % 256) ∷ (v / 2 ^ 24 % 256) ∷ []

unfoldable pub read_i32 : Bytes → ℕ
read_i32 (a ∷ b ∷ c ∷ d ∷ p) = a + b * 256 + c * 2 ^ 16 + d * 2 ^ 24
read_i32 _ = 0

unfoldable pub pack : ℕ → ℕ → Bytes → Bytes
pack type id body =
    write_i32 ((4 + 4 + length body + 2) % 2 ^ 32)
    ++ (write_i32 id ++ (write_i32 type ++ (body ++ (0 ∷ 0 ∷ []))))

pub record Link : Type 0 where
  pub connected : Bool
  pub ok : Bool
  pub id : ℕ
  pub pass : Bytes
  pub reconnect_enabled : Bool
  pub reconnect_interval_sec : ℕ
  pub last_reconnect_attempt : ℕ
  -- The bytes of the socket that are still to be read, and those that were sent.
  pub unread : Bytes
  pub sent : Bytes

-- What the calls of the system give: the connection, the bytes that then arrive in it, whether a `send`
-- goes through, what arrives behind that, and the time in seconds.
pub record Network : Type 0 where
  pub reachable : Bool
  pub greeting : Bytes
  pub send_ok : Bool
  pub arrives : Bytes
  pub now : ℕ

abbrev pub disconnect : Link → Link
disconnect l = record l { connected = false; ok = false; unread = [] }

-- The length of a read that the time cuts off, and the bytes of the others.
abbrev pub read_header : Link → Link
read_header l = record l { unread = drop 12 l.unread }

abbrev pub give_up : Link → Link
give_up l = record l { connected = false; unread = [] }

-- The answer to the password, of which the header alone is read.
abbrev pub authenticate : Link → Bool × Link
authenticate l =
    if ltb (length l.unread) 12
    then (false, give_up l)
    else if read_i32 (drop 4 l.unread) == 2 ^ 32 - 1
    then (false, give_up (read_header l))
    else (true, record (read_header l) { ok = true })

unfoldable pub connect : Network → Link → Bool × Link
connect n l =
    if n.reachable
    then authenticate (record l {
      connected = true;
      id = suc l.id;
      unread = n.greeting;
      sent = l.sent ++ pack 3 l.id l.pass;
    })
    else (false, record l { connected = false })

unfoldable pub reconnect : Network → Link → Bool × Link
reconnect n l =
    let r = connect n (disconnect l) in (r.0, record (r.1) { last_reconnect_attempt = n.now })

unfoldable pub should_attempt_reconnect : ℕ → Link → Bool
should_attempt_reconnect now l =
    if not l.reconnect_enabled || l.ok
    then false
    else leb l.reconnect_interval_sec (now - l.last_reconnect_attempt)

-- A size below four as an `int`.
abbrev pub is_small : ℕ → Bool
is_small sz = ltb sz 4 || leb (2 ^ 31) sz

-- What is made of the `sz` bytes behind the header: without the first eight, and without two more; a
-- length below that wraps around, and then nothing is taken off the end.
abbrev pub body_part : Bytes → Bytes
body_part body =
    if ltb 8 (length body)
    then (if ltb (length body) 10 then drop 8 body else take (length body - 10) (drop 8 body))
    else []

abbrev pub read_body : ℕ → Link → Bytes × Link
read_body sz l =
    if is_small sz
    then ([], l)
    else if ltb (length l.unread) sz
    then ([], record l { unread = [] })
    else (body_part (take sz l.unread), record l { unread = drop sz l.unread })

abbrev pub read_answer : Link → Bytes × Link
read_answer l =
    if ltb (length l.unread) 12
    then ([], record l { unread = [] })
    else read_body (read_i32 l.unread) (read_header l)

abbrev pub send_command : Network → Bytes → Link → Bytes × Link
send_command n cmd l =
    if n.send_ok
    then read_answer (record l {
      id = suc l.id;
      unread = l.unread ++ n.arrives;
      sent = l.sent ++ pack 2 l.id cmd;
    })
    else ([], record l { id = suc l.id; ok = false })

abbrev pub exec_now : Network → Bytes → Link → Bytes × Link
exec_now n cmd l = if l.ok then send_command n cmd l else ([], l)

unfoldable pub exec : Network → Bytes → Link → Bytes × Link
exec n cmd l =
    if not l.ok && (l.reconnect_enabled && should_attempt_reconnect n.now l)
    then exec_now n cmd (reconnect n l).1
    else exec_now n cmd l

-- A line of the chat as it is handed to `onChat`.
pub record ChatLine : Type 0 where
  pub chat_type : Bytes
  pub player_name : Bytes
  pub message : Bytes
  pub steam_id : Bytes

abbrev until_blank : Bytes → Option (Bytes × Bytes) → Bytes
until_blank sid none = sid
until_blank sid (some (front, rest)) = front

abbrev steam_of : Option (Bytes × Bytes) → Bytes
steam_of none = []
steam_of (some (front, sid)) = until_blank sid (split_at b' ' sid)

-- From one byte behind a bracket to the separator; where there is no such byte the length wraps around.
abbrev name_part : Bytes → Bytes → Bytes
name_part [] rest = drop 1 rest
name_part (c ∷ name) rest = name

abbrev type_part : Bytes → Bytes → Bytes
type_part [] rest = rest
type_part (c ∷ chat_type) rest = chat_type

abbrev with_message : Bytes → Bytes → Bytes → Option (Bytes × Bytes) → Option ChatLine
with_message body chat_type rest none = none
with_message body chat_type rest (some (front, message)) = some (record {
  chat_type = chat_type;
  player_name = trim (name_part front rest);
  message = message;
  steam_id = steam_of (find (codes "Steam:") body);
})

abbrev with_ids : Bytes → Bytes → Option (Bytes × Bytes) → Option ChatLine
with_ids body chat_type none = none
with_ids body chat_type (some (ids, rest)) =
    with_message body chat_type rest (find (codes " : ") rest)

abbrev with_type : Bytes → Option (Bytes × Bytes) → Option ChatLine
with_type body none = none
with_type body (some (front, rest)) = with_ids body (type_part front rest) (split_at b']' rest)

unfoldable pub parse_chat : Bytes → Option ChatLine
parse_chat body = with_type body (split_at b']' body)

-- `pollChat`, over the bytes of its one `recv`; with two bytes less than a packet has it throws, as the
-- length of the text wraps around.
pub data Polled : Type 0 where
  quiet : Polled
  chat : ChatLine → Polled
  length_error : Polled

abbrev of_chat : Option ChatLine → Polled
of_chat none = quiet
of_chat (some line) = chat line

unfoldable pub poll_chat : Bytes → Link → Polled
poll_chat buf l =
    if not l.ok || not l.connected
    then quiet
    else if ltb (length buf) 12
    then quiet
    else if read_i32 (drop 8 buf) == 1
    then (if ltb (length buf) 14
        then length_error
        else of_chat (parse_chat (take (length buf - 14) (drop 12 buf))))
    else quiet
