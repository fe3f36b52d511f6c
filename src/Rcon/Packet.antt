-- ===== src/Rcon/Packet.antt =====
-- The wire format of src/net/rcon.cpp: `sendPacket` and `recvPacket`. An `int32_t` is its bit
-- pattern, a number below 2^32, stored low byte first.
pub mod Wire
use mbsquad.Prelude.{
  ℕ, zero, suc, ◌+◌, ◌-◌, ◌*◌, ◌/◌, ◌%◌, ◌^◌, Bool, true, false, ◌||◌, [], ◌∷◌, ◌++◌, Option, none,
  some, ltb, leb, if◌then◌else◌, length, take, drop,
}
use mbsquad.Prelude.Bytes.{Bytes}

pub record Packet : Type 0 where
  pub id : ℕ
  pub type : ℕ
  pub body : Bytes

-- `RconPacketType`
abbrev pub rcon_exec_command : ℕ
rcon_exec_command = 2

abbrev pub rcon_auth : ℕ
rcon_auth = 3

-- `std::memcpy` of four bytes from and to an integer.
unfoldable pub le32 : ℕ → Bytes
le32 n = (n % 256) ∷ (n / 256 % 256) ∷ (n / 2 ^ 16 % 256) ∷ (n / 2 ^ 24 % 256) ∷ []

pub of_le32 : Bytes → ℕ
of_le32 (a ∷ b ∷ c ∷ d ∷ s) = a + b * 256 + c * 2 ^ 16 + d * 2 ^ 24
of_le32 _ = 0

-- The buffer that `sendPacket` hands to `send`. The lengths are `uint32_t`.
unfoldable pub encode : Packet → Bytes
encode p =
    let body_len = length p.body % 2 ^ 32 in
    let size = (4 + 4 + body_len + 1 + 1) % 2 ^ 32 in
    le32 size ++ (le32 p.id ++ (le32 p.type ++ (take body_len p.body ++ (0 ∷ 0 ∷ []))))

-- The fields of a packet in the bytes behind its size.
parse_body : ℕ → Bytes → Packet
parse_body size buf = record {
  id = of_le32 buf;
  type = of_le32 (drop 4 buf);
  body = take (size - 8 - 2) (drop 8 buf);
}

recv_rest : ℕ → Bytes → Option Packet × Bytes
recv_rest size s =
    if ltb (length s) size then (none, []) else (some (parse_body size (take size s)), drop size s)

-- `recvPacket` on what arrives before the time is up or the peer closes; the second part is what
-- is left unread. A short read takes all there is, a size out of range only the four bytes of it.
pub recv_packet : Bytes → Option Packet × Bytes
recv_packet s =
    if ltb (length s) 4
    then (none, [])
    else let size = of_le32 s in
      if ltb size 10 || ltb 65536 size then (none, drop 4 s) else recv_rest size (drop 4 s)
