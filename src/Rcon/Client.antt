-- ===== src/Rcon/Client.antt =====
-- `RconClient` of src/net/rcon.cpp. A call holds the mutex from start to end, so it is one step.
-- What the operating system and the peer do during a call is the argument `Network`.
pub mod Response
pub mod Consistent
use mbsquad.Prelude.{
  ℕ, zero, suc, ◌+◌, ◌-◌, ◌%◌, ◌^◌, Bool, true, false, not, ◌||◌, List, [], ◌∷◌, ◌++◌, Option, none,
  some, ◌==◌, if◌then◌else◌,
}
use mbsquad.Prelude.Bytes.{Bytes}
use mbsquad.Rcon.Packet.{Packet, rcon_exec_command, rcon_auth, recv_packet}

-- The result of the call of `::connect` on a socket that does not block.
pub data ConnectResult : Type 0 where
  at_once in_progress refused : ConnectResult

pub record Network : Type 0 where
  pub resolves : Bool
  pub socket_opens : Bool
  pub connects : ConnectResult
  pub becomes_writable : Bool
  pub no_socket_error : Bool
  -- what arrives on a new connection before the time-outs
  pub incoming : Bytes
  -- whether `send` takes the whole buffer, for the three kinds of packet of a call
  pub auth_sent : Bool
  pub command_sent : Bool
  pub terminator_sent : Bool

-- `socket` is `none` for `sock_ == -1`, and else what the peer sends on it; `sent` is what went
-- out, oldest first.
pub record Client : Type 0 where
  pub password : Bytes
  pub connected : Bool
  pub socket : Option Bytes
  pub next_id : ℕ
  pub sent : List Packet

abbrev next : ℕ → ℕ
next id = (id + 1) % 2 ^ 32

-- The id of an answer to a refused password, -1.
abbrev pub refused_id : ℕ
refused_id = 2 ^ 32 - 1

abbrev closed : Client → Client
closed c = record c { connected = false; socket = none }

-- Whether the connection is there when the blocking mode is set again.
tcp_connected : Network → Bool
tcp_connected net = if not net.resolves || not net.socket_opens then false else elim net.connects [
  | refused ↦ false
  | at_once ↦ true
  | in_progress ↦ if net.becomes_writable then net.no_socket_error else false
]

second_answer : Client → Option Packet × Bytes → Client × Bool
second_answer c (none, s) = (closed c, false)
second_answer c (some p, s) =
    if p.id == refused_id
    then (closed c, false)
    else (record c { connected = true; socket = some s }, true)

first_answer : Client → Option Packet × Bytes → Client × Bool
first_answer c (none, s) = (closed c, false)
first_answer c (some p, s) = second_answer c (recv_packet s)

pub connect_internal : Network → Client → Client × Bool
connect_internal net c =
    if not (tcp_connected net)
    then (closed c, false)
    else let auth : Packet = record { id = c.next_id; type = rcon_auth; body = c.password } in
      let c' = record (closed c) { next_id = next c.next_id } in
      let answered =
        first_answer (record c' { sent = c.sent ++ auth ∷ [] }) (recv_packet net.incoming) in
      if net.auth_sent then answered else (c', false)

pub connect : Network → Client → Client × Bool
connect net c = if c.connected then (c, true) else connect_internal net c

pub disconnect : Client → Client
disconnect c = closed c

-- The loop of `execute`: the response, whether the connection is still good, and the bytes left.
pub collect : ℕ → ℕ → ℕ → Bytes → Bytes → Bytes × Bool × Bytes
collect zero cmd_id term_id response s = (response, true, s)
collect (suc rounds) cmd_id term_id response s =
    let (received, s') = recv_packet s in
    elim received [
      | none ↦ (response, false, s')
      | some p ↦
          let more =
            collect rounds cmd_id term_id (if p.id == cmd_id then response ++ p.body else response)
              s' in
          if p.id == term_id then (response, true, s') else more
    ]

finish : Client → Bytes × Bool × Bytes → Bytes × Client
finish c (response, alive, s) = (response, record c { connected = alive; socket = some s })

-- Sends a packet of type 2; a failure marks the connection as lost.
send_command : Bool → ℕ → Bytes → Client → Client × Bool
send_command sent id body c =
    if sent
    then (
      record c { sent = c.sent ++ record { id = id; type = rcon_exec_command; body = body } ∷ [] },
      true,
    )
    else (record c { connected = false }, false)

stream : Option Bytes → Bytes
stream none = []
stream (some s) = s

execute_on : Network → Bytes → Client → Bytes × Client
execute_on net cmd c =
    let cmd_id = c.next_id in
    let term_id = next c.next_id in
    let (c₁, commanded) =
      send_command net.command_sent cmd_id cmd (record c { next_id = next term_id }) in
    let (c₂, terminated) = send_command net.terminator_sent term_id [] c₁ in
    let answer = finish c₂ (collect 64 cmd_id term_id [] (stream c₂.socket)) in
    if not commanded then ([], c₁) else if not terminated then ([], c₂) else answer

abbrev is_open : Option Bytes → Bool
is_open none = false
is_open (some s) = true

reconnected : Network → Bytes → Client × Bool → Bytes × Client
reconnected net cmd (c, true) = execute_on net cmd c
reconnected net cmd (c, false) = ([], c)

pub execute : Network → Bytes → Client → Bytes × Client
execute net cmd c =
    if not c.connected || not (is_open c.socket)
    then reconnected net cmd (connect_internal net c)
    else execute_on net cmd c

-- The loop of `ping`; after the rounds it is content with any four answers.
await : ℕ → ℕ → Bytes → Bool × Bytes
await zero term_id s = (true, s)
await (suc rounds) term_id s =
    let (received, s') = recv_packet s in
    elim received [
      | none ↦ (false, s')
      | some p ↦ let more = await rounds term_id s' in if p.id == term_id then (true, s') else more
    ]

awaited : Client → Bool × Bytes → Bool × Client
awaited c (true, s) = (true, record c { socket = some s })
awaited c (false, s) = (false, record c { connected = false; socket = some s })

pub ping : Network → Client → Bool × Client
ping net c =
    if not c.connected || not (is_open c.socket)
    then (false, c)
    else let term_id = next c.next_id in
      let (c₁, commanded) =
        send_command net.command_sent c.next_id [] (record c { next_id = next term_id }) in
      let (c₂, terminated) = send_command net.terminator_sent term_id [] c₁ in
      let answer = awaited c₂ (await 4 term_id (stream c₂.socket)) in
      if not commanded then (false, c₁) else if not terminated then (false, c₂) else answer
