-- ===== src/Core/Escape/Rcon.antt =====
-- `rconSafe` against a reader of quoted arguments.
use mbsquad.Prelude.{
  ℕ, Bool, true, false, ◌≡◌, refl, [], ◌∷◌, ◌++◌, append_assoc, Option, none, some, ◌>>=◌, arith,
  ◌==◌, if◌then◌else◌,
}
use mathlib.Core.Option
use mbsquad.Prelude.Bytes.{Bytes, codes, strip_prefix, strip_prefix-append}
use mbsquad.Core.Escape.{escape_byte, rcon_safe, warn_command}

abbrev push : ℕ → Option (Bytes × Bytes) → Option (Bytes × Bytes)
push c none = none
push c (some (x, rest)) = some (c ∷ x, rest)

-- The text up to the closing quote, and what follows it. A backslash makes the next byte stand
-- for itself; the flag says that one was just read.
pub read_quoted : Bool → Bytes → Option (Bytes × Bytes)
read_quoted _ [] = none
read_quoted true (c ∷ s) = push c (read_quoted false s)
read_quoted false (c ∷ s) =
    let escaped = read_quoted true s in
    let plain = push c (read_quoted false s) in
    if c == b'"' then some ([], s) else if c == b'\\' then escaped else plain

read_quoted-escape_byte :
    (c : ℕ) (s : Bytes) → read_quoted false (escape_byte c ++ s) ≡ push c (read_quoted false s)
unfolding read_quoted escape_byte
read_quoted-escape_byte c s = ground arith

-- An escaped text between quotes is read back as it was, and the reader stops at the quote
-- behind it: nothing in the text can end the argument early.
pub read_quoted-rcon_safe :
    (s rest : Bytes) → read_quoted false (rcon_safe s ++ b'"' ∷ rest) ≡ some (s, rest)
unfolding rcon_safe
read_quoted-rcon_safe [] rest = unfold read_quoted in refl
read_quoted-rcon_safe (c ∷ s) rest =
    rw append_assoc
      (rw (read_quoted-escape_byte c (rcon_safe s ++ b'"' ∷ rest), read_quoted-rcon_safe s rest))

-- The command as the game server reads it: the word, the quoted id, a space, and the message,
-- which has no quotes round it and so reaches the end.
after_id : Option (Bytes × Bytes) → Option (Bytes × Bytes)
after_id none = none
after_id (some (id, rest)) = Option.map (λ message. (id, message)) (strip_prefix (codes " ") rest)

pub read_warning : Bytes → Option (Bytes × Bytes)
read_warning command =
    strip_prefix (codes "AdminWarn \"") command >>= λ s. after_id (read_quoted false s)

-- The command of `adminWarn` for a non-empty id is read as that very id, whatever bytes the id
-- and the message hold, with the escaped message behind it.
pub read_warning-warn_command :
    (c : ℕ) (id message : Bytes)
    → (warn_command (c ∷ id) message >>= read_warning) ≡ some (c ∷ id, rcon_safe message)
unfolding warn_command read_warning after_id
read_warning-warn_command c id message =
    rw
      (strip_prefix-append (codes "AdminWarn \"")
        (rcon_safe (c ∷ id) ++ (codes "\" " ++ rcon_safe message)))
      (rw (read_quoted-rcon_safe (c ∷ id) (b' ' ∷ rcon_safe message))
        (rw (strip_prefix-append (codes " ") (rcon_safe message))))
