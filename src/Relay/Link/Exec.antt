-- ===== src/Relay/Link/Exec.antt =====
-- The answers to commands in relay/main.cpp: what `exec` makes of a packet.
use mbsquad.Prelude.{
  ℕ, suc, ◌+◌, ◌^◌, ◌<◌, ◌≡◌, refl, ap, ◌∙◌, true, false, not, ◌&&◌, [], ◌∷◌, ◌++◌, arith, ltb,
  if◌then◌else◌, length, drop, length-append, ltb_of_le,
}
use mbsquad.Prelude.Bytes.{Bytes}
use mbsquad.Relay.Link.{
  Link, Network, write_i32, read_i32, pack, exec, exec_now, send_command, read_answer, is_small,
  should_attempt_reconnect, reconnect,
}

pub read_i32-write_i32 : (n : ℕ) (s : Bytes) → n < 2 ^ 32 → read_i32 (write_i32 n ++ s) ≡ n
unfolding read_i32 write_i32
read_i32-write_i32 n s h = omega arith

-- What stands behind the header of a packet.
drop-pack :
    (type id : ℕ) (body s : Bytes) → drop 12 (pack type id body ++ s) ≡ (body ++ (0 ∷ 0 ∷ [])) ++ s
unfolding pack write_i32
drop-pack type id body s = refl

size-pack :
    (type id : ℕ) (body s : Bytes)
    → length body + 10 < 2 ^ 31
    → read_i32 (pack type id body ++ s) ≡ length body + 10
unfolding pack write_i32 read_i32
size-pack type id body s h = omega arith

length-pack : (type id : ℕ) (body : Bytes) → length (pack type id body) ≡ length body + 14
unfolding pack write_i32
length-pack type id body = omega (arith, length-append body (0 ∷ 0 ∷ []))

read_answer-short :
    (type id : ℕ) (body rest : Bytes) (l : Link)
    → l.unread ≡ pack type id body ++ rest
    → length body + 10 < 2 ^ 31
    → length rest < 8
    → read_answer l ≡ ([], record l { unread = [] })
read_answer-short type id body rest l e hb hr =
    let s = pack type id body ++ rest in
    let behind = (body ++ (0 ∷ 0 ∷ [])) ++ rest in
    let long : ltb (length s) 12 ≡ false =
      ltb_of_le 12 (length s)
        (omega (arith, length-append (pack type id body) rest, length-pack type id body)) in
    let not_small : is_small (length body + 10) ≡ false = ground arith in
    let cut : ltb (length behind) (length body + 10) ≡ true =
      ground (arith, length-append (body ++ (0 ∷ 0 ∷ [])) rest, length-append body (0 ∷ 0 ∷ [])) in
    rw (e, long, size-pack type id body rest hb, not_small, drop-pack type id body rest, cut) refl

-- A command that is answered with one packet, and with less than eight bytes behind it before the time
-- is up, gives the empty text whatever the packet holds; the connection still counts as good. Nothing is
-- left to read from before.
pub exec-single_packet :
    (n : Network) (cmd : Bytes) (l : Link) (type id : ℕ) (body rest : Bytes)
    → l.ok ≡ true
    → l.unread ≡ []
    → n.send_ok ≡ true
    → n.arrives ≡ pack type id body ++ rest
    → length body + 10 < 2 ^ 31
    → length rest < 8
    → ((exec n cmd l).0 ≡ []) × ((exec n cmd l).1.ok ≡ true)
unfolding exec
exec-single_packet n cmd l type id body rest ho hu hs ha hb hr =
    let sent = record l {
      id = suc l.id;
      unread = l.unread ++ n.arrives;
      sent = l.sent ++ pack 2 l.id cmd;
    } in
    let answered : exec n cmd l ≡ ([], record sent { unread = [] }) =
      ap
        (λ b.
          if not b && (l.reconnect_enabled && should_attempt_reconnect n.now l)
          then exec_now n cmd (reconnect n l).1
          else exec_now n cmd l)
        ho
      ∙ ap (λ b. if b then send_command n cmd l else ([], l)) ho
      ∙ ap (λ b. if b then read_answer sent else ([], record l { id = suc l.id; ok = false })) hs
      ∙ read_answer-short type id body rest sent (ap (◌++ n.arrives) hu ∙ ha) hb hr in
    (ap (λ r. r.0) answered, ap (λ r. r.1.ok) answered ∙ ho)
