-- ===== src/Rcon/Client/Response.antt =====
-- What `execute` returns, and what it leaves in the stream.
use mbsquad.Prelude.{
  ℕ, suc, ◌+◌, ◌-◌, ◌<◌, ◌≡◌, refl, ◌∙◌, true, false, List, [], ◌∷◌, ◌++◌, append_assoc, append-nil,
  some, arith, ◌==◌, if◌then◌else◌, length, All, Bool-cases, inl, inr,
}
use mbsquad.Prelude.Bytes.{Bytes}
use mbsquad.Rcon.Packet.{Packet, rcon_exec_command, encode}
use mbsquad.Rcon.Packet.Wire.{IsSendable, recv_packet-encode}
use mbsquad.Rcon.Client.{
  Network, Client, next, collect, finish, send_command, stream, execute_on, execute,
}

-- Packets one behind the other, and then more bytes.
abbrev pub encode_all : List Packet → Bytes → Bytes
encode_all [] rest = rest
encode_all (p ∷ ps) rest = encode p ++ encode_all ps rest

-- The bodies of the packets that answer a command.
abbrev pub answers : ℕ → List Packet → Bytes
answers cmd_id [] = []
answers cmd_id (p ∷ ps) = if p.id == cmd_id then p.body ++ answers cmd_id ps else answers cmd_id ps

-- Packets that the receiver takes and that do not end the answer.
abbrev pub NoTerminator : ℕ → List Packet → Type 0
NoTerminator term_id = All (λ p. IsSendable p × ((p.id == term_id) ≡ false))

module _ (cmd_id term_id : ℕ) where
  collect_step :
      (k : ℕ) (p : Packet) (response rest : Bytes)
      → IsSendable p
      → (p.id == term_id) ≡ false
      → collect (suc k) cmd_id term_id response (encode p ++ rest)
        ≡ collect k cmd_id term_id (if p.id == cmd_id then response ++ p.body else response) rest
  unfolding collect
  collect_step k p response rest h other = ground (arith, recv_packet-encode p rest h)

  response_step :
      (p : Packet) (ps : List Packet) (response : Bytes)
      → (if p.id == cmd_id then response ++ p.body else response) ++ answers cmd_id ps
        ≡ response ++ answers cmd_id (p ∷ ps)
  response_step p ps response = elim (Bool-cases (p.id == cmd_id)) [
    | inl own ↦ rw own (append_assoc response p.body (answers cmd_id ps))
    | inr other ↦ rw other
  ]

  collect-encode_all :
      (ps : List Packet) (k : ℕ) (response rest : Bytes)
      → NoTerminator term_id ps
      → collect (length ps + k) cmd_id term_id response (encode_all ps rest)
        ≡ collect k cmd_id term_id (response ++ answers cmd_id ps) rest
  collect-encode_all [] k response rest h =
      let none_left : 0 + k ≡ k = omega arith in rw (none_left, append-nil)
  collect-encode_all (p ∷ ps) k response rest ((sendable, other), h) =
      let one_more : suc (length ps) + k ≡ suc (length ps + k) = omega arith in
      rw one_more (
        collect_step (length ps + k) p response (encode_all ps rest) sendable other
        ∙ collect-encode_all ps k _ rest h
        ∙ rw (response_step p ps response))

  -- The terminator ends the answer, and what follows it stays in the stream.
  collect_terminated :
      (ps : List Packet) (k : ℕ) (last : Packet) (response rest : Bytes)
      → NoTerminator term_id ps
      → IsSendable last
      → last.id ≡ term_id
      → length ps < k
      → collect k cmd_id term_id response (encode_all ps (encode last ++ rest))
        ≡ (response ++ answers cmd_id ps, true, rest)
  collect_terminated ps k last response rest h sendable ends enough =
      let rounds : k ≡ length ps + suc (k - length ps - 1) = omega arith in
      rw rounds (
        collect-encode_all ps (suc (k - length ps - 1)) response (encode last ++ rest) h
        ∙ unfold collect in ground (arith, recv_packet-encode last rest sendable))

  -- With no terminator among the packets of all rounds the answer ends where the rounds do; the
  -- connection counts as good, and the other packets stay in the stream.
  collect_truncated :
      (ps later : List Packet) (response rest : Bytes)
      → NoTerminator term_id ps
      → collect (length ps) cmd_id term_id response (encode_all ps (encode_all later rest))
        ≡ (response ++ answers cmd_id ps, true, encode_all later rest)
  collect_truncated ps later response rest h =
      let rounds : length ps ≡ length ps + 0 = omega arith in
      rw rounds
        (collect-encode_all ps 0 response (encode_all later rest) h ∙ unfold collect in refl)

-- What a client has sent after a command.
abbrev pub commanded : Client → Bytes → List Packet
commanded c cmd =
    (c.sent ++ record { id = c.next_id; type = rcon_exec_command; body = cmd } ∷ [])
    ++ record { id = next c.next_id; type = rcon_exec_command; body = [] } ∷ []

execute_on-eq :
    (net : Network) (cmd s : Bytes) (c : Client)
    → net.command_sent ≡ true
    → net.terminator_sent ≡ true
    → c.socket ≡ some s
    → execute_on net cmd c
      ≡ finish
          (record c { next_id = next (next c.next_id); sent = commanded c cmd })
          (collect 64 c.next_id (next c.next_id) [] s)
unfolding execute_on send_command stream finish
execute_on-eq net cmd s c h₁ h₂ e = rw (h₁, h₂, e, stream)

execute_open :
    (net : Network) (cmd s : Bytes) (c : Client)
    → c.connected ≡ true
    → c.socket ≡ some s
    → execute net cmd c ≡ execute_on net cmd c
unfolding execute
execute_open net cmd s c up e = ground arith

-- On an open connection on which both packets go out, a command returns the bodies of the packets
-- that carry its id, in order, and no others, if the receiver takes all packets up to the one with
-- the id of the terminator and that is among the first 64. The terminator was sent behind the
-- command, and what follows the answer stays in the stream.
pub execute_response :
    (net : Network) (cmd rest : Bytes) (c : Client) (ps : List Packet) (last : Packet)
    → c.connected ≡ true
    → net.command_sent ≡ true
    → net.terminator_sent ≡ true
    → c.socket ≡ some (encode_all ps (encode last ++ rest))
    → NoTerminator (next c.next_id) ps
    → IsSendable last
    → last.id ≡ next c.next_id
    → length ps < 64
    → execute net cmd c ≡ (
      answers c.next_id ps,
      record c {
        connected = true;
        socket = some rest;
        next_id = next (next c.next_id);
        sent = commanded c cmd;
      },
    )
execute_response net cmd rest c ps last up h₁ h₂ e plain sendable ends short =
    execute_open net cmd (encode_all ps (encode last ++ rest)) c up e
    ∙ execute_on-eq net cmd (encode_all ps (encode last ++ rest)) c h₁ h₂ e
    ∙ rw
        (collect_terminated c.next_id (next c.next_id) ps 64 last [] rest plain sendable ends short)
        (unfold finish in refl)

-- On an open connection on which both packets go out, with 64 packets or more before the
-- terminator that the receiver takes, only the first 64 are read: the command returns what they
-- hold, reports no error, and the rest of its answer stays in the stream.
pub execute_truncated :
    (net : Network) (cmd rest : Bytes) (c : Client) (ps later : List Packet)
    → c.connected ≡ true
    → net.command_sent ≡ true
    → net.terminator_sent ≡ true
    → c.socket ≡ some (encode_all ps (encode_all later rest))
    → NoTerminator (next c.next_id) ps
    → length ps ≡ 64
    → execute net cmd c ≡ (
      answers c.next_id ps,
      record c {
        connected = true;
        socket = some (encode_all later rest);
        next_id = next (next c.next_id);
        sent = commanded c cmd;
      },
    )
execute_truncated net cmd rest c ps later up h₁ h₂ e plain full =
    execute_open net cmd (encode_all ps (encode_all later rest)) c up e
    ∙ execute_on-eq net cmd (encode_all ps (encode_all later rest)) c h₁ h₂ e
    ∙ rw (rw full at (collect_truncated c.next_id (next c.next_id) ps later [] rest plain))
        (unfold finish in refl)
