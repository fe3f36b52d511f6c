-- ===== src/Rcon/Pool/Calls.antt =====
-- The calls on a pool, in any order.
use mbsquad.Prelude.{
  ℕ, Bool, true, false, List, [], ◌∷◌, Option, none, some, refl, All, ◌||◌, not, Bool-cases,
  both_branches, inl, inr, ◌==◌,
}
use mbsquad.Prelude.Bytes.{Bytes, codes}
use mbsquad.Prelude.Maps.{lookup, insert, remove, nat_key}
use mbsquad.Rcon.Client.{Network, Client, connect, execute, ping}
use mbsquad.Rcon.Client.Consistent.{
  IsConsistent, connect-IsConsistent, execute-IsConsistent, ping-IsConsistent,
}
use mbsquad.Rcon.Pool.{
  ServerRow, Pool, is_empty, Created, thrown, refused, made, new_client, port_is_read,
  connected_client, create, Answer, executed, send_new, retried, send_pooled, send, test,
  health_check,
}

abbrev pub AllConsistent : Pool → Type 0
AllConsistent = All (λ e. IsConsistent e.1)

insert-AllConsistent :
    (id : ℕ) (c : Client) (pool : Pool)
    → IsConsistent c
    → AllConsistent pool
    → AllConsistent (insert id c pool)
unfolding insert
insert-AllConsistent id c [] h hs = (h, tt)
insert-AllConsistent id c ((j, d) ∷ pool) h (hd, hs) = elim (Bool-cases (j == id)) [
  | inl own ↦ rw own (h, hs)
  | inr other ↦ rw other (hd, insert-AllConsistent id c pool h hs)
]

remove-AllConsistent : (id : ℕ) (pool : Pool) → AllConsistent pool → AllConsistent (remove id pool)
unfolding remove
remove-AllConsistent id [] hs = tt
remove-AllConsistent id ((j, d) ∷ pool) (hd, hs) = elim (Bool-cases (j == id)) [
  | inl own ↦ rw own (remove-AllConsistent id pool hs)
  | inr other ↦ rw other (hd, remove-AllConsistent id pool hs)
]

abbrev OptionConsistent : Option Client → Type 0
OptionConsistent none = Unit
OptionConsistent (some c) = IsConsistent c

lookup-AllConsistent :
    (id : ℕ) (pool : Pool) → AllConsistent pool → OptionConsistent (lookup id pool)
unfolding lookup
lookup-AllConsistent id [] hs = tt
lookup-AllConsistent id ((j, d) ∷ pool) (hd, hs) = elim (Bool-cases (j == id)) [
  | inl own ↦ rw own hd
  | inr other ↦ rw other (lookup-AllConsistent id pool hs)
]

abbrev CreatedConsistent : Created → Type 0
CreatedConsistent thrown = Unit
CreatedConsistent refused = Unit
CreatedConsistent (made c) = IsConsistent c

connected_client-CreatedConsistent :
    (r : Client × Bool) → IsConsistent r.0 → CreatedConsistent (connected_client r)
unfolding connected_client
connected_client-CreatedConsistent (c, true) h = h
connected_client-CreatedConsistent (c, false) h = tt

create-CreatedConsistent :
    (net : Network) (row : Option ServerRow) → CreatedConsistent (create net row)
unfolding create
create-CreatedConsistent net none = tt
create-CreatedConsistent net (some row) =
    elim (Bool-cases (is_empty row.host || is_empty row.rcon_password)) [
      | inl unset ↦ rw unset tt
      | inr set ↦ rw set (elim (Bool-cases (port_is_read row.rcon_port)) [
        | inr bad ↦ rw bad tt
        | inl good ↦ rw good (
            connected_client-CreatedConsistent (connect net (new_client row.rcon_password))
              (connect-IsConsistent net (new_client row.rcon_password) (unfold new_client in refl)))
      ])
    ]

send_new-AllConsistent :
    (net : Network) (id : ℕ) (cmd : Bytes) (r : Created) (pool : Pool)
    → CreatedConsistent r
    → AllConsistent pool
    → AllConsistent (send_new net id cmd r pool).1
unfolding send_new executed
send_new-AllConsistent net id cmd thrown pool h hs = hs
send_new-AllConsistent net id cmd refused pool h hs = hs
send_new-AllConsistent net id cmd (made c) pool h hs =
    insert-AllConsistent id (execute net cmd c).1 pool (execute-IsConsistent net cmd c h) hs

retried-AllConsistent :
    (id : ℕ) (again : Answer) (pool : Pool) (r : Bytes × Client)
    → AllConsistent again.1
    → AllConsistent pool
    → IsConsistent r.1
    → AllConsistent (retried id again pool r).1
unfolding retried executed
retried-AllConsistent id again pool (text, c) ha hs h =
    both_branches (λ (a : Answer). AllConsistent a.1) (not (is_empty text) || c.connected) _ again
      (insert-AllConsistent id c pool h hs) ha

send_pooled-AllConsistent :
    (net : Network) (id : ℕ) (cmd : Bytes) (o : Option Client) (fresh again : Answer) (pool : Pool)
    → OptionConsistent o
    → AllConsistent fresh.1
    → AllConsistent again.1
    → AllConsistent pool
    → AllConsistent (send_pooled net id cmd o fresh again pool).1
unfolding send_pooled
send_pooled-AllConsistent net id cmd none fresh again pool h hf ha hs = hf
send_pooled-AllConsistent net id cmd (some c) fresh again pool h hf ha hs =
    both_branches (λ (a : Answer). AllConsistent a.1) c.connected _ fresh
      (retried-AllConsistent id again pool (execute net cmd c) ha hs
        (execute-IsConsistent net cmd c h))
      hf

health_check-AllConsistent :
    (nets : ℕ → Network) (pool : Pool) → AllConsistent pool → AllConsistent (health_check nets pool)
unfolding health_check
health_check-AllConsistent nets [] hs = tt
health_check-AllConsistent nets ((id, c) ∷ pool) (h, hs) = elim (Bool-cases (ping (nets id) c).0) [
  | inl alive ↦ rw alive (ping-IsConsistent (nets id) c h, health_check-AllConsistent nets pool hs)
  | inr dead ↦ rw dead (health_check-AllConsistent nets pool hs)
]

pub data PoolCall : Type 0 where
  sends : Network × Network × Network → ℕ → Bytes → PoolCall
  tests : Network × Network → ℕ → PoolCall
  removes : ℕ → PoolCall
  clears : PoolCall
  checks : (ℕ → Network) → PoolCall

pub step : List (ℕ × ServerRow) → PoolCall → Pool → Pool
step rows (sends nets id cmd) pool = (send nets rows id cmd pool).1
step rows (tests nets id) pool = (test nets rows id pool).1
step rows (removes id) pool = remove id pool
step rows clears pool = []
step rows (checks nets) pool = health_check nets pool

pub run : List (ℕ × ServerRow) → List PoolCall → Pool → Pool
run rows [] pool = pool
run rows (call ∷ calls) pool = run rows calls (step rows call pool)

step-AllConsistent :
    (rows : List (ℕ × ServerRow)) (call : PoolCall) (pool : Pool)
    → AllConsistent pool
    → AllConsistent (step rows call pool)
unfolding step send test
step-AllConsistent rows (sends (pooled, fresh, last) id cmd) pool hs =
    let created = create-CreatedConsistent fresh (lookup id rows) in
    send_pooled-AllConsistent pooled id cmd (lookup id pool) _ _ pool
      (lookup-AllConsistent id pool hs) (send_new-AllConsistent last id cmd _ pool created hs)
      (send_new-AllConsistent last id cmd _ (remove id pool) created
        (remove-AllConsistent id pool hs))
      hs
step-AllConsistent rows (tests (fresh, last) id) pool hs =
    send_new-AllConsistent last id (codes "ListPlayers") _ (remove id pool)
      (create-CreatedConsistent fresh (lookup id rows)) (remove-AllConsistent id pool hs)
step-AllConsistent rows (removes id) pool hs = remove-AllConsistent id pool hs
step-AllConsistent rows clears pool hs = tt
step-AllConsistent rows (checks nets) pool hs = health_check-AllConsistent nets pool hs

run_onto-AllConsistent :
    (rows : List (ℕ × ServerRow)) (calls : List PoolCall) (pool : Pool)
    → AllConsistent pool
    → AllConsistent (run rows calls pool)
unfolding run
run_onto-AllConsistent rows [] pool hs = hs
run_onto-AllConsistent rows (call ∷ calls) pool hs =
    run_onto-AllConsistent rows calls (step rows call pool) (step-AllConsistent rows call pool hs)

-- After any calls on a pool that began empty, whatever the network does, every client of the pool
-- that counts as connected has a socket.
pub run-AllConsistent :
    (rows : List (ℕ × ServerRow)) (calls : List PoolCall) → AllConsistent (run rows calls [])
run-AllConsistent rows calls = run_onto-AllConsistent rows calls [] tt
