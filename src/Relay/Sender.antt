-- ===== src/Relay/Sender.antt =====
-- relay/main.cpp, the lines on their way to the panel: `LineDedup` and `RawSender`. The order in
-- which `std::unordered_map` walks over its keys is an argument, and so is what each request of the
-- sender answers.
pub mod Order
pub mod Dedup
use mbsquad.Prelude.{
  ℕ, zero, suc, ◌+◌, ◌-◌, ◌/◌, min, Bool, true, false, List, [], ◌∷◌, Option, none, some, ◌++◌, ltb,
  leb, ◌==◌, if◌then◌else◌, length, take, drop, exists,
}
use mbsquad.Prelude.Bytes.{Bytes, codes, equal}
use mbsquad.Prelude.Maps.{bytes_key, lookup, insert}
use mbsquad.Core.Numbers.{decimal_nat}

-- `LineDedup`: the lines it has seen, with the times.
pub record LineDedup : Type 0 where
  pub seen : List (Bytes × ℕ)
  pub max : ℕ

unfoldable pub fingerprint : Bytes → Bytes
fingerprint l = take 50 l ++ (b'|' ∷ decimal_nat (length l))

-- The keys that the loop of `clean` erases go from the front of the walk.
unfoldable pub clean : (List (Bytes × ℕ) → List (Bytes × ℕ)) → LineDedup → LineDedup
clean walk d =
    if leb (length d.seen) d.max
    then d
    else record d { seen = drop (length d.seen - d.max / 2) (walk d.seen) }

abbrev pub is_seen : Option ℕ → Bool
is_seen none = false
is_seen (some time) = true

unfoldable pub mark_and_send :
    (List (Bytes × ℕ) → List (Bytes × ℕ)) → ℕ → Bytes → LineDedup → Bool × LineDedup
mark_and_send walk now l d =
    if ltb (length l) 10
    then (false, d)
    else if is_seen (lookup (fingerprint l) d.seen)
    then (false, d)
    else (true, clean walk (record d { seen = insert (fingerprint l) now d.seen }))

-- `RawSender`: the buffer, the number of the lines sent, and the requests made so far, each with
-- whether it was answered well.
pub record RawSender : Type 0 where
  pub buf : List Bytes
  pub sent : ℕ
  pub posts : List (List Bytes × Bool)
  pub batch_size : ℕ

unfoldable pub add : Bytes → RawSender → RawSender
add l s = if ltb (length l) 10 then s else record s { buf = s.buf ++ (l ∷ []) }

abbrev pub flush_batch : Bool → List Bytes → RawSender → RawSender
flush_batch ok [] s = s
flush_batch ok (l ∷ buf) s =
    let n = min (length (l ∷ buf)) s.batch_size in
    let b = take n (l ∷ buf) in
    record s {
      buf = drop n (l ∷ buf);
      sent = if ok then s.sent + length b else s.sent;
      posts = s.posts ++ ((b, ok) ∷ []);
    }

unfoldable pub flush : Bool → RawSender → RawSender
flush ok s = flush_batch ok s.buf s

-- What happens to a sender, in the order in which it takes the lock; the thread flushes, its last
-- time after `stop`.
pub data SenderStep : Type 0 where
  added : Bytes → SenderStep
  flushed : Bool → SenderStep

abbrev pub sender_step : SenderStep → RawSender → RawSender
sender_step (added l) s = add l s
sender_step (flushed ok) s = flush ok s

unfoldable pub run : List SenderStep → RawSender → RawSender
run [] s = s
run (step ∷ steps) s = run steps (sender_step step s)

abbrev pub new_sender : ℕ → RawSender
new_sender batch_size = record { buf = []; sent = 0; posts = []; batch_size = batch_size }
