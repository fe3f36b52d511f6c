-- ===== src/Rcon/Client/Consistent.antt =====
-- A connection that counts as good has a socket, after every call.
use mbsquad.Prelude.{
  ◌≡◌, refl, Bool, true, false, not, ◌||◌, List, [], ◌∷◌, Option, none, some, arith, ◌==◌,
  Bool-cases, inl, inr,
}
use mbsquad.Prelude.Bytes.{Bytes}
use mbsquad.Rcon.Packet.{Packet, recv_packet}
use mbsquad.Rcon.Client.{
  Network, Client, refused_id, tcp_connected, second_answer, first_answer, connect_internal,
  connect, disconnect, finish, send_command, execute_on, is_open, reconnected, execute, awaited,
  ping,
}

abbrev pub IsConsistent : Client → Type 0
IsConsistent c = (not c.connected || is_open c.socket) ≡ true

-- What a call of `connectInternal` has done: either the connection is open and was answered twice,
-- the second time not with -1, or there is no socket left.
abbrev pub Connects : Bytes → Client × Bool → Type 0
Connects incoming (c, true) =
    (c.connected ≡ true)
    × (s : Bytes) × (c.socket ≡ some s)
    × (p q : Packet) × (rest : Bytes) × (recv_packet incoming ≡ (some p, rest))
    × (recv_packet rest ≡ (some q, s))
    × ((q.id == refused_id) ≡ false)
Connects incoming (c, false) = (c.connected ≡ false) × (c.socket ≡ none)

second_answer-Connects :
    (incoming rest : Bytes) (p : Packet) (c : Client) (r : Option Packet × Bytes)
    → recv_packet incoming ≡ (some p, rest)
    → recv_packet rest ≡ r
    → Connects incoming (second_answer c r)
unfolding second_answer
second_answer-Connects incoming rest p c (none, s) h e = (refl, refl)
second_answer-Connects incoming rest p c (some q, s) h e = elim (Bool-cases (q.id == refused_id)) [
  | inl refused ↦ rw refused (refl, refl)
  | inr taken ↦ rw taken (refl, s, refl, p, q, rest, h, e, taken)
]

first_answer-Connects :
    (incoming : Bytes) (c : Client) (r : Option Packet × Bytes)
    → recv_packet incoming ≡ r
    → Connects incoming (first_answer c r)
unfolding first_answer
first_answer-Connects incoming c (none, s) e = (refl, refl)
first_answer-Connects incoming c (some p, s) e =
    second_answer-Connects incoming s p c (recv_packet s) e refl

-- A connection counts as good only after two answers, of which the second was no refusal of the
-- password; after any failure the socket is closed.
pub connect_internal-Connects :
    (net : Network) (c : Client) → Connects net.incoming (connect_internal net c)
unfolding connect_internal
connect_internal-Connects net c = elim (Bool-cases (tcp_connected net)) [
  | inr down ↦ rw down (refl, refl)
  | inl up ↦ rw up (elim (Bool-cases net.auth_sent) [
    | inr lost ↦ rw lost (refl, refl)
    | inl out ↦ rw out (first_answer-Connects net.incoming _ (recv_packet net.incoming) refl)
  ])
]

Connects-IsConsistent :
    (incoming : Bytes) (r : Client × Bool) → Connects incoming r → IsConsistent r.0
Connects-IsConsistent incoming (c, true) (up, s, e, p, q, rest, h, h', taken) = ground arith
Connects-IsConsistent incoming (c, false) (down, none_left) = ground arith

connect_internal-IsConsistent :
    (net : Network) (c : Client) → IsConsistent (connect_internal net c).0
connect_internal-IsConsistent net c =
    Connects-IsConsistent net.incoming (connect_internal net c) (connect_internal-Connects net c)

pub connect-IsConsistent :
    (net : Network) (c : Client) → IsConsistent c → IsConsistent (connect net c).0
unfolding connect
connect-IsConsistent net c h = ground (arith, connect_internal-IsConsistent net c)

execute_on-IsConsistent :
    (net : Network) (cmd : Bytes) (c : Client)
    → IsConsistent c
    → IsConsistent (execute_on net cmd c).1
unfolding execute_on send_command finish
execute_on-IsConsistent net cmd c h = ground arith

reconnected-IsConsistent :
    (net : Network) (cmd : Bytes) (r : Client × Bool)
    → IsConsistent r.0
    → IsConsistent (reconnected net cmd r).1
unfolding reconnected
reconnected-IsConsistent net cmd (c, true) h = execute_on-IsConsistent net cmd c h
reconnected-IsConsistent net cmd (c, false) h = h

pub execute-IsConsistent :
    (net : Network) (cmd : Bytes) (c : Client) → IsConsistent c → IsConsistent (execute net cmd c).1
unfolding execute
execute-IsConsistent net cmd c h = ground (
  arith,
  execute_on-IsConsistent net cmd c h,
  reconnected-IsConsistent net cmd (connect_internal net c) (connect_internal-IsConsistent net c),
)

-- The calls of the panel on a client.
pub data Call : Type 0 where
  connects : Network → Call
  disconnects : Call
  executes : Network → Bytes → Call
  pings : Network → Call

pub step : Call → Client → Client
step (connects net) c = (connect net c).0
step disconnects c = disconnect c
step (executes net cmd) c = (execute net cmd c).1
step (pings net) c = (ping net c).1

pub run : List Call → Client → Client
run [] c = c
run (call ∷ calls) c = run calls (step call c)

awaited-IsConsistent : (c : Client) (r : Bool × Bytes) → IsConsistent (awaited c r).1
unfolding awaited
awaited-IsConsistent c (true, s) = ground arith
awaited-IsConsistent c (false, s) = refl

pub ping-IsConsistent : (net : Network) (c : Client) → IsConsistent c → IsConsistent (ping net c).1
unfolding ping send_command
ping-IsConsistent net c h = elim (Bool-cases (not c.connected || not (is_open c.socket))) [
  | inl down ↦ rw down h
  | inr up ↦ rw up (elim (Bool-cases net.command_sent) [
    | inr lost ↦ rw lost refl
    | inl out ↦ rw out (elim (Bool-cases net.terminator_sent) [
      | inr lost ↦ rw lost refl
      | inl both ↦ rw both (awaited-IsConsistent _ _)
    ])
  ])
]

-- A client that can be sent to.
abbrev pub IsAlive : Client → Type 0
IsAlive c = (c.connected ≡ true) × (is_open c.socket ≡ true)

awaited-IsAlive :
    (c : Client) (r : Bool × Bytes)
    → c.connected ≡ true
    → (awaited c r).0 ≡ true
    → IsAlive (awaited c r).1
unfolding awaited
awaited-IsAlive c (true, s) up h = (up, refl)
awaited-IsAlive c (false, s) up h = absurd (cc h)

up_of : (a b : Bool) → (not a || not b) ≡ false → a ≡ true
up_of a b h = ground arith

-- A client that answers a ping is connected and has a socket.
pub ping-IsAlive : (net : Network) (c : Client) → (ping net c).0 ≡ true → IsAlive (ping net c).1
unfolding ping send_command
ping-IsAlive net c = elim (Bool-cases (not c.connected || not (is_open c.socket))) [
  | inl down ↦ rw down (λ h. absurd (cc h))
  | inr up ↦ rw up (elim (Bool-cases net.command_sent) [
    | inr lost ↦ rw lost (λ h. absurd (cc h))
    | inl out ↦ rw out (elim (Bool-cases net.terminator_sent) [
      | inr lost ↦ rw lost (λ h. absurd (cc h))
      | inl both ↦ rw both (awaited-IsAlive _ _ (up_of c.connected (is_open c.socket) up))
    ])
  ])
]

step-IsConsistent : (call : Call) (c : Client) → IsConsistent c → IsConsistent (step call c)
unfolding step
step-IsConsistent (connects net) c h = connect-IsConsistent net c h
step-IsConsistent disconnects c h = unfold disconnect in refl
step-IsConsistent (executes net cmd) c h = execute-IsConsistent net cmd c h
step-IsConsistent (pings net) c h = ping-IsConsistent net c h

-- After any calls, whatever the network does, a client that counts as connected has a socket.
pub run-IsConsistent :
    (calls : List Call) (c : Client) → IsConsistent c → IsConsistent (run calls c)
unfolding run
run-IsConsistent [] c h = h
run-IsConsistent (call ∷ calls) c h =
    run-IsConsistent calls (step call c) (step-IsConsistent call c h)
