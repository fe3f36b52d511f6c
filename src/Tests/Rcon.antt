-- ===== src/Tests/Rcon.antt =====
-- Runs of src/net/rcon.cpp.
use mbsquad.Prelude.{
  ℕ, zero, suc, ◌^◌, ◌<◌, ◌≤◌, ap, ◌≡◌, refl, List, [], ◌∷◌, ◌++◌, some, true, arith, length,
}
use mbsquad.Prelude.Bytes.{Bytes, codes, AllBytes}
use mbsquad.Rcon.Packet.{Packet, le32, encode, recv_packet}
use mbsquad.Rcon.Packet.Wire.{IsSendable, recv_packet-encode}
use mbsquad.Rcon.Client.{at_once, Network, Client, execute}
use mbsquad.Rcon.Client.Consistent.{Call, connects, disconnects, executes, pings}
use mbsquad.Rcon.Client.Response.{encode_all, answers, NoTerminator, commanded, execute_response}

abbrev packet : ℕ → Bytes → Packet
packet n text = record { id = n; type = 0; body = text }

packet-IsSendable :
    (n : ℕ) (text : Bytes) → n < 2 ^ 32 → length text ≤ 65526 → IsSendable (packet n text)
packet-IsSendable n text h short = record {
  id_fits = h;
  type_fits = omega arith;
  body_fits = short;
}

recv_packet-encode_example :
    recv_packet (encode (packet 5 (codes "ok")) ++ codes "more")
    ≡ (some (packet 5 (codes "ok")), codes "more")
recv_packet-encode_example =
    recv_packet-encode (packet 5 (codes "ok")) (codes "more")
      (packet-IsSendable 5 (codes "ok") (omega arith) (omega arith))

abbrev stream : Bytes
stream = encode (packet 5 (codes "ok")) ++ codes "more"

stream-AllBytes : AllBytes stream
unfolding encode le32
stream-AllBytes = omega arith

zeros : ℕ → Bytes
zeros zero = []
zeros (suc n) = 0 ∷ zeros n

length-zeros : (n : ℕ) → length (zeros n) ≡ n
unfolding zeros
length-zeros zero = refl
length-zeros (suc n) = ap suc (length-zeros n)

abbrev network : Network
network = record {
  resolves = true;
  socket_opens = true;
  connects = at_once;
  becomes_writable = true;
  no_socket_error = true;
  incoming = encode_all (packet 1 [] ∷ packet 1 [] ∷ []) [];
  auth_sent = true;
  command_sent = true;
  terminator_sent = true;
}

abbrev client : Bytes → Client
client s = record {
  password = codes "pw";
  connected = true;
  socket = some s;
  next_id = 7;
  sent = [];
}

abbrev calls : List Call
calls = executes network (codes "ListPlayers") ∷ pings network ∷ disconnects ∷ connects network ∷ []

abbrev answer : List Packet
answer = packet 7 (codes "one ") ∷ packet 3 (codes "stray") ∷ packet 7 (codes "two") ∷ []

answer-NoTerminator : NoTerminator 8 answer
answer-NoTerminator = (
  (packet-IsSendable 7 (codes "one ") (omega arith) (omega arith), refl),
  (
    (packet-IsSendable 3 (codes "stray") (omega arith) (omega arith), refl),
    ((packet-IsSendable 7 (codes "two") (omega arith) (omega arith), refl), tt),
  ),
)

abbrev answering : Client
answering = client (encode_all answer (encode (packet 8 []) ++ codes "next"))

execute_response_example : execute network (codes "cmd") answering ≡ (
  answers 7 answer,
  record answering {
    connected = true;
    socket = some (codes "next");
    next_id = 9;
    sent = commanded answering (codes "cmd");
  },
)
execute_response_example =
    execute_response network (codes "cmd") (codes "next") answering answer (packet 8 []) refl refl
      refl refl answer-NoTerminator (packet-IsSendable 8 [] (omega arith) (omega arith)) refl
      (omega arith)

abbrev copies : ℕ → List Packet
copies zero = []
copies (suc n) = packet 7 (codes "x") ∷ copies n

copies-NoTerminator : (n : ℕ) → NoTerminator 8 (copies n)
copies-NoTerminator zero = tt
copies-NoTerminator (suc n) =
    ((packet-IsSendable 7 (codes "x") (omega arith) (omega arith), refl), copies-NoTerminator n)

abbrev flooded : Client
flooded = client (encode_all (copies 64) (encode_all (packet 7 (codes "lost") ∷ []) []))
