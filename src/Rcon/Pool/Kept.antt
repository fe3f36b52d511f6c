-- ===== src/Rcon/Pool/Kept.antt =====
-- What the calls on a pool leave alone, and what a health check leaves.
use mbsquad.Prelude.{
  ℕ, true, false, List, [], ◌∷◌, Option, none, some, ◌≡◌, refl, ◌∙◌, arith, All, ◌||◌, not,
  Bool-cases, both_branches, inl, inr, ◌==◌,
}
use mbsquad.Prelude.Bytes.{Bytes}
use mbsquad.Prelude.Maps.{lookup, insert, remove, nat_key, lookup-insert, lookup-remove}
use mbsquad.Rcon.Client.{Network, Client, execute, ping}
use mbsquad.Rcon.Client.Consistent.{IsAlive, ping-IsAlive}
use mbsquad.Rcon.Pool.{
  ServerRow, Pool, is_empty, Created, thrown, refused, made, create, Answer, executed, send_new,
  retried, send_pooled, send, health_check,
}

module _ (id other : ℕ) (apart : (id == other) ≡ false) where
  executed_other :
      (pool : Pool) (r : Bytes × Client) → lookup other (executed id pool r).1 ≡ lookup other pool
  unfolding executed
  executed_other pool (text, c) = lookup-insert id other c pool ∙ rw apart

  send_new_other :
      (net : Network) (cmd : Bytes) (r : Created) (pool : Pool)
      → lookup other (send_new net id cmd r pool).1 ≡ lookup other pool
  unfolding send_new
  send_new_other net cmd thrown pool = refl
  send_new_other net cmd refused pool = refl
  send_new_other net cmd (made c) pool = executed_other pool (execute net cmd c)

  retried_other :
      (again : Answer) (pool : Pool) (r : Bytes × Client)
      → lookup other again.1 ≡ lookup other pool
      → lookup other (retried id again pool r).1 ≡ lookup other pool
  unfolding retried
  retried_other again pool (text, c) h =
      both_branches (λ (a : Answer). lookup other a.1 ≡ lookup other pool)
        (not (is_empty text) || c.connected) _ again (executed_other pool (text, c)) h

  send_pooled_other :
      (net : Network) (cmd : Bytes) (o : Option Client) (fresh again : Answer) (pool : Pool)
      → lookup other fresh.1 ≡ lookup other pool
      → lookup other again.1 ≡ lookup other pool
      → lookup other (send_pooled net id cmd o fresh again pool).1 ≡ lookup other pool
  unfolding send_pooled
  send_pooled_other net cmd none fresh again pool hf ha = hf
  send_pooled_other net cmd (some c) fresh again pool hf ha =
      both_branches (λ (a : Answer). lookup other a.1 ≡ lookup other pool) c.connected _ fresh
        (retried_other again pool (execute net cmd c) ha) hf

  -- A command to one server leaves the clients of the others as they are, whatever happens.
  pub lookup-send :
      (nets : Network × Network × Network) (rows : List (ℕ × ServerRow)) (cmd : Bytes) (pool : Pool)
      → lookup other (send nets rows id cmd pool).1 ≡ lookup other pool
  unfolding send
  lookup-send (pooled, fresh, last) rows cmd pool =
      send_pooled_other pooled cmd (lookup id pool) _ _ pool (send_new_other last cmd _ pool)
        (send_new_other last cmd _ (remove id pool) ∙ (lookup-remove id other pool ∙ rw apart))

-- Every client that a health check leaves in the pool is connected and has a socket.
pub health_check-IsAlive :
    (nets : ℕ → Network) (pool : Pool) → All (λ e. IsAlive e.1) (health_check nets pool)
unfolding health_check
health_check-IsAlive nets [] = tt
health_check-IsAlive nets ((id, c) ∷ pool) = elim (Bool-cases (ping (nets id) c).0) [
  | inl alive ↦ rw alive (ping-IsAlive (nets id) c alive, health_check-IsAlive nets pool)
  | inr dead ↦ rw dead (health_check-IsAlive nets pool)
]

-- A command whose connection is lost before any text came is executed again on a new connection,
-- and that answer is the result: the server may see the command twice.
pub send_again :
    (pooled fresh last : Network) (rows : List (ℕ × ServerRow)) (id : ℕ) (cmd : Bytes) (pool : Pool)
    (old lost new : Client)
    → lookup id pool ≡ some old
    → old.connected ≡ true
    → execute pooled cmd old ≡ ([], lost)
    → lost.connected ≡ false
    → create fresh (lookup id rows) ≡ made new
    → send (pooled, fresh, last) rows id cmd pool
      ≡ (some (execute last cmd new).0, insert id (execute last cmd new).1 (remove id pool))
unfolding send send_new executed retried send_pooled
send_again pooled fresh last rows id cmd pool old lost new found up failed down again = ground arith
