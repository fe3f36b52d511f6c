-- ===== src/Tests/Pool.antt =====
-- Runs of the pool of src/net/rcon.cpp.
use mbsquad.Prelude.{ℕ, List, [], ◌∷◌, some, true}
use mbsquad.Prelude.Bytes.{codes}
use mbsquad.Prelude.Maps.{nat_key}
use mbsquad.Rcon.Client.{at_once, Network, Client}
use mbsquad.Rcon.Client.Response.{encode_all}
use mbsquad.Rcon.Pool.{ServerRow, Pool}
use mbsquad.Rcon.Pool.Calls.{
  AllConsistent, PoolCall, sends, tests, removes, clears, checks, run, run-AllConsistent,
}

abbrev answered : Network
answered = record {
  resolves = true;
  socket_opens = true;
  connects = at_once;
  becomes_writable = true;
  no_socket_error = true;
  incoming =
      encode_all
        (record { id = 1; type = 0; body = [] }
          ∷ record { id = 1; type = 2; body = [] }
          ∷ record { id = 2; type = 0; body = codes "[]" }
          ∷ record { id = 3; type = 0; body = [] }
          ∷ [])
        [];
  auth_sent = true;
  command_sent = true;
  terminator_sent = true;
}

abbrev servers : List (ℕ × ServerRow)
servers =
    (1, record { host = codes "10.0.0.1"; rcon_port = codes "21114"; rcon_password = codes "pw" })
    ∷ []

abbrev idle : Client
idle = record { password = codes "pw"; connected = true; socket = some []; next_id = 4; sent = [] }

abbrev pool : Pool
pool = (2, idle) ∷ []

abbrev pool_calls : List PoolCall
pool_calls =
    clears
    ∷ tests (answered, answered) 1
    ∷ checks (λ id. answered)
    ∷ removes 1
    ∷ sends (answered, answered, answered) 1 (codes "ListSquads")
    ∷ []

run-AllConsistent_example : AllConsistent (run servers pool_calls [])
run-AllConsistent_example = run-AllConsistent servers pool_calls
