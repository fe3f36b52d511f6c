-- ===== src/Relay/Sender/Dedup.antt =====
-- The bound of `LineDedup` in relay/main.cpp.
use mbsquad.Prelude.{
  ℕ, zero, suc, ◌-◌, ◌/◌, ◌≤◌, ◌<◌, ◌≡◌, refl, false, List, [], ◌∷◌, ltb, arith, length, drop,
  Bool-cases, inl, inr,
}
use mbsquad.Prelude.Bytes.{Bytes}
use mbsquad.Prelude.Maps.{bytes_key, lookup, insert, lookup-insert_self}
use mbsquad.Relay.Sender.{LineDedup, clean, mark_and_send, fingerprint, is_seen}

length-drop {ℓ} : {A : Type ℓ} (n : ℕ) (xs : List A) → length (drop n xs) ≡ length xs - n
length-drop zero xs = omega arith
length-drop (suc n) [] = omega arith
length-drop (suc n) (x ∷ xs) = omega (arith, length-drop n xs)

clean-bound :
    (walk : List (Bytes × ℕ) → List (Bytes × ℕ)) (d : LineDedup)
    → ((m : List (Bytes × ℕ)) → length (walk m) ≡ length m)
    → length (clean walk d).seen ≤ d.max
unfolding clean
clean-bound walk d hw =
    ground (arith, hw d.seen, length-drop (length d.seen - d.max / 2) (walk d.seen))

length-insert-le :
    (a : Bytes) (v : ℕ) (m : List (Bytes × ℕ)) → length (insert a v m) ≤ suc (length m)
unfolding insert
length-insert-le a v [] = omega arith
length-insert-le a v ((j, w) ∷ m) = ground (arith, length-insert-le a v m)

clean-room :
    (walk : List (Bytes × ℕ) → List (Bytes × ℕ)) (d : LineDedup)
    → length d.seen ≤ d.max
    → clean walk d ≡ d
unfolding clean
clean-room walk d h = ground arith

-- After a call at most as many lines are remembered as the bound says, in whatever order the map walks
-- over its keys. While there is room for one more, a line that was just seen is not let through again.
pub mark_and_send-bound :
    (walk : List (Bytes × ℕ) → List (Bytes × ℕ)) (now later : ℕ) (l : Bytes) (d : LineDedup)
    → ((m : List (Bytes × ℕ)) → length (walk m) ≡ length m)
    → length d.seen < d.max
    → (length (mark_and_send walk now l d).1.seen ≤ d.max)
      × ((mark_and_send walk later l (mark_and_send walk now l d).1).0 ≡ false)
unfolding mark_and_send
mark_and_send-bound walk now later l d hw h = elim (Bool-cases (ltb (length l) 10)) [
  | inl e ↦ rw e (omega (arith, h), refl)
  | inr e ↦ rw e (elim (Bool-cases (is_seen (lookup (fingerprint l) d.seen))) [
    | inl s ↦ rw s (omega (arith, h), rw s refl)
    | inr s ↦
        let d' : LineDedup = record d { seen = insert (fingerprint l) now d.seen } in
        rw s (
          rw (clean-room walk d' (omega (arith, h, length-insert-le (fingerprint l) now d.seen))) (
            omega (arith, h, length-insert-le (fingerprint l) now d.seen),
            rw (lookup-insert_self (fingerprint l) now d.seen) refl,
          ))
  ])
]
