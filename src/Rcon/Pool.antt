-- ===== src/Rcon/Pool.antt =====
-- `RconPool` of src/net/rcon.cpp. Every call holds the mutex of the pool, and nothing else has its
-- clients, so that they are values. `Option Bytes` is `none` where `std::stoi` throws.
pub mod Calls
pub mod Kept
use mbsquad.Prelude.{
  ℕ, Bool, true, false, List, [], ◌∷◌, Option, none, some, ◌||◌, ◌&&◌, not, if◌then◌else◌,
}
use mbsquad.Prelude.Bytes.{Bytes, codes}
use mbsquad.Prelude.Maps.{lookup, insert, remove, nat_key}
use mbsquad.Core.Numbers.{stoi}
use mbsquad.Rcon.Client.{Network, Client, connect, execute, ping}

-- The columns of `servers` that the pool reads.
pub record ServerRow : Type 0 where
  pub host : Bytes
  pub rcon_port : Bytes
  pub rcon_password : Bytes

abbrev pub Pool : Type 0
Pool = List (ℕ × Client)

abbrev pub is_empty : Bytes → Bool
is_empty [] = true
is_empty (c ∷ s) = false

-- What `getOrCreate` does: an exception, no client, or a new one.
pub data Created : Type 0 where
  thrown refused : Created
  made : Client → Created

pub new_client : Bytes → Client
new_client password = record {
  password = password;
  connected = false;
  socket = none;
  next_id = 1;
  sent = [];
}

port_is_read : Bytes → Bool
port_is_read [] = true
port_is_read (c ∷ s) = elim (stoi (c ∷ s)) [ none ↦ false | some port ↦ true ]

connected_client : Client × Bool → Created
connected_client (c, true) = made c
connected_client (c, false) = refused

pub create : Network → Option ServerRow → Created
create net none = refused
create net (some row) =
    if is_empty row.host || is_empty row.rcon_password
    then refused
    else if port_is_read row.rcon_port
    then connected_client (connect net (new_client row.rcon_password))
    else thrown

-- The text that a call gives, none for an exception, and the pool after it.
abbrev pub Answer : Type 0
Answer = Option Bytes × Pool

executed : ℕ → Pool → Bytes × Client → Answer
executed id pool (text, c) = (some text, insert id c pool)

pub send_new : Network → ℕ → Bytes → Created → Pool → Answer
send_new net id cmd thrown pool = (none, pool)
send_new net id cmd refused pool = (some [], pool)
send_new net id cmd (made c) pool = executed id pool (execute net cmd c)

-- The answer of a client of the pool, and the attempt on a new one where that is lost.
retried : ℕ → Answer → Pool → Bytes × Client → Answer
retried id again pool (text, c) =
    if not (is_empty text) || c.connected then executed id pool (text, c) else again

send_pooled : Network → ℕ → Bytes → Option Client → Answer → Answer → Pool → Answer
send_pooled net id cmd none fresh again pool = fresh
send_pooled net id cmd (some c) fresh again pool =
    if c.connected then retried id again pool (execute net cmd c) else fresh

-- The networks are those of the command on the pooled client, of the new connection, and of the
-- command on that.
pub send : Network × Network × Network → List (ℕ × ServerRow) → ℕ → Bytes → Pool → Answer
send (pooled, fresh, last) rows id cmd pool =
    let created = create fresh (lookup id rows) in
    send_pooled pooled id cmd (lookup id pool) (send_new last id cmd created pool)
      (send_new last id cmd created (remove id pool)) pool

pub test : Network × Network → List (ℕ × ServerRow) → ℕ → Pool → Answer
test (fresh, last) rows id pool =
    send_new last id (codes "ListPlayers") (create fresh (lookup id rows)) (remove id pool)

-- The clients that do not answer are removed; the others stay as the ping left them.
pub health_check : (ℕ → Network) → Pool → Pool
health_check nets [] = []
health_check nets ((id, c) ∷ pool) =
    let (alive, c') = ping (nets id) c in
    let rest = health_check nets pool in if alive then (id, c') ∷ rest else rest
