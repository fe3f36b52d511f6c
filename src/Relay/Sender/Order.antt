-- ===== src/Relay/Sender/Order.antt =====
-- The lines that `RawSender` of relay/main.cpp hands on.
use mbsquad.Prelude.{
  ℕ, zero, suc, ◌+◌, ◌≤◌, ◌≡◌, refl, sym, ap, subst, ◌∙◌, min, Bool, true, false, List, [], ◌∷◌,
  ◌++◌, ltb, arith, if◌then◌else◌, length, take, drop, All, All-append, append_assoc, append-nil,
  Bool-cases, inl, inr, length-take,
}
use mbsquad.Prelude.Bytes.{Bytes}
use mbsquad.Relay.Sender.{
  RawSender, SenderStep, added, flushed, add, flush, flush_batch, sender_step, run, new_sender,
}

-- The lines of the requests one behind the other, and the number of those that were answered well.
abbrev pub posted : List (List Bytes × Bool) → List Bytes
posted [] = []
posted ((b, ok) ∷ posts) = b ++ posted posts

abbrev pub delivered : List (List Bytes × Bool) → ℕ
delivered [] = 0
delivered ((b, ok) ∷ posts) = (if ok then length b else 0) + delivered posts

-- The lines that are handed over and long enough.
abbrev pub offered : List SenderStep → List Bytes
offered [] = []
offered (added l ∷ steps) = if ltb (length l) 10 then offered steps else l ∷ offered steps
offered (flushed ok ∷ steps) = offered steps

posted-append : (p q : List (List Bytes × Bool)) → posted (p ++ q) ≡ posted p ++ posted q
posted-append [] q = refl
posted-append ((b, ok) ∷ p) q =
    ap (b ++◌) (posted-append p q) ∙ sym (append_assoc b (posted p) (posted q))

delivered-append : (p q : List (List Bytes × Bool)) → delivered (p ++ q) ≡ delivered p + delivered q
delivered-append [] q = omega arith
delivered-append ((b, ok) ∷ p) q = omega (arith, delivered-append p q)

take-drop {ℓ} : {A : Type ℓ} (n : ℕ) (xs : List A) → take n xs ++ drop n xs ≡ xs
take-drop zero xs = refl
take-drop (suc n) [] = refl
take-drop (suc n) (x ∷ xs) = ap (x ∷◌) (take-drop n xs)

-- Every request has at most a batch of lines.
abbrev pub InBatches : ℕ → List (List Bytes × Bool) → Type 0
InBatches n = All (λ post. length post.0 ≤ n)

-- What holds of a sender that was handed these lines: its requests and then its buffer are the lines
-- in their order, none twice and none left out.
pub record IsInOrder (n : ℕ) (lines : List Bytes) (s : RawSender) : Type 0 where
  pub batch_size : s.batch_size ≡ n
  pub in_order : posted s.posts ++ s.buf ≡ lines
  pub in_batches : InBatches n s.posts
  pub counted : s.sent ≡ delivered s.posts

add-IsInOrder :
    (n : ℕ) (lines : List Bytes) (l : Bytes) (s : RawSender)
    → IsInOrder n lines s
    → IsInOrder n (lines ++ offered (added l ∷ [])) (add l s)
unfolding add
add-IsInOrder n lines l s h = elim (Bool-cases (ltb (length l) 10)) [
  | inl e ↦ rw e (rw (append-nil lines) h)
  | inr e ↦ rw e record {
    batch_size = h.batch_size;
    in_order = sym (append_assoc (posted s.posts) s.buf (l ∷ [])) ∙ ap (◌++ (l ∷ [])) h.in_order;
    in_batches = h.in_batches;
    counted = h.counted;
  }
]

counted_post :
    (posts : List (List Bytes × Bool)) (b : List Bytes) (ok : Bool) (sent : ℕ)
    → sent ≡ delivered posts
    → (if ok then sent + length b else sent) ≡ delivered (posts ++ ((b, ok) ∷ []))
counted_post posts b true sent h = omega (arith, h, delivered-append posts ((b, true) ∷ []))
counted_post posts b false sent h = omega (arith, h, delivered-append posts ((b, false) ∷ []))

flush_batch-IsInOrder :
    (n : ℕ) (lines : List Bytes) (ok : Bool) (s : RawSender) (buf : List Bytes)
    → s.buf ≡ buf
    → IsInOrder n lines s
    → IsInOrder n lines (flush_batch ok buf s)
flush_batch-IsInOrder n lines ok s [] e h = h
flush_batch-IsInOrder n lines ok s (l ∷ buf) e h =
    let m = min (length (l ∷ buf)) s.batch_size in
    let b = take m (l ∷ buf) in
    record {
      batch_size = h.batch_size;
      in_order =
          ap (λ p. p ++ drop m (l ∷ buf)) (posted-append s.posts ((b, ok) ∷ []))
          ∙ ap (λ p. (posted s.posts ++ p) ++ drop m (l ∷ buf)) (append-nil b)
          ∙ append_assoc (posted s.posts) b (drop m (l ∷ buf))
          ∙ ap (posted s.posts ++◌) (take-drop m (l ∷ buf) ∙ sym e)
          ∙ h.in_order;
      in_batches =
          All-append _ s.posts ((b, ok) ∷ []) h.in_batches
            (omega (arith, h.batch_size, length-take m (l ∷ buf)), tt);
      counted = counted_post s.posts b ok s.sent h.counted;
    }

step-IsInOrder :
    (n : ℕ) (lines : List Bytes) (step : SenderStep) (s : RawSender)
    → IsInOrder n lines s
    → IsInOrder n (lines ++ offered (step ∷ [])) (sender_step step s)
unfolding flush
step-IsInOrder n lines (added l) s h = add-IsInOrder n lines l s h
step-IsInOrder n lines (flushed ok) s h =
    rw (append-nil lines) (flush_batch-IsInOrder n lines ok s s.buf refl h)

offered-append :
    (step : SenderStep) (steps : List SenderStep)
    → offered (step ∷ steps) ≡ offered (step ∷ []) ++ offered steps
offered-append (added l) steps = ground arith
offered-append (flushed ok) steps = refl

run_from-IsInOrder :
    (n : ℕ) (lines : List Bytes) (steps : List SenderStep) (s : RawSender)
    → IsInOrder n lines s
    → IsInOrder n (lines ++ offered steps) (run steps s)
unfolding run
run_from-IsInOrder n lines [] s h = rw (append-nil lines) h
run_from-IsInOrder n lines (step ∷ steps) s h =
    subst (λ all. IsInOrder n all (run steps (sender_step step s)))
      (append_assoc lines (offered (step ∷ [])) (offered steps)
        ∙ ap (lines ++◌) (sym (offered-append step steps)))
      (run_from-IsInOrder n (lines ++ offered (step ∷ [])) steps (sender_step step s)
        (step-IsInOrder n lines step s h))

-- Whatever is handed over and flushed, in whatever order and with whatever answers: the lines of the
-- requests and then the buffer are the lines that were handed over and are long enough, in their order,
-- each request has at most a batch of them, and the count is of the lines in the requests that were
-- answered well.
pub run-IsInOrder :
    (n : ℕ) (steps : List SenderStep) → IsInOrder n (offered steps) (run steps (new_sender n))
run-IsInOrder n steps =
    run_from-IsInOrder n [] steps (new_sender n)
      record { batch_size = refl; in_order = refl; in_batches = tt; counted = refl }
