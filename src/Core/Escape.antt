-- ===== src/Core/Escape.antt =====
-- The escapers: `rconSafe` and `adminWarn` of src/core/shared_utils.h, `htmlEscape` and
-- `urlDecode` of src/core/core.cpp. The readers that stand for the other side are in the children.
pub mod Rcon
pub mod Html
pub mod Percent
use mbsquad.Prelude.{
  ℕ, zero, suc, ◌+◌, ◌-◌, ◌*◌, ◌%◌, ◌^◌, Bool, true, false, ◌&&◌, ◌||◌, List, [], ◌∷◌, ◌++◌, Option,
  none, some, leb, ◌==◌, if◌then◌else◌,
}
use mbsquad.Prelude.Bytes.{Bytes, codes}

-- What one round of the loop of `rconSafe` appends.
escape_byte : ℕ → Bytes
escape_byte c =
    if c == b'"' then b'\\' ∷ b'"' ∷ [] else if c == b'\\' then b'\\' ∷ b'\\' ∷ [] else c ∷ []

pub rcon_safe : Bytes → Bytes
unfolding escape_byte
rcon_safe [] = []
rcon_safe (c ∷ s) = escape_byte c ++ rcon_safe s

-- The command that `adminWarn` sends; `none` where it returns at once, for an empty id.
pub warn_command : Bytes → Bytes → Option Bytes
warn_command [] message = none
warn_command (c ∷ steam_id) message =
    some (codes "AdminWarn \"" ++ (rcon_safe (c ∷ steam_id) ++ (codes "\" " ++ rcon_safe message)))

-- The `switch` of `htmlEscape`.
html_byte : ℕ → Bytes
html_byte c =
    if c == b'&'
    then codes "&amp;"
    else if c == b'<'
    then codes "&lt;"
    else if c == b'>'
    then codes "&gt;"
    else if c == b'"'
    then codes "&quot;"
    else c ∷ []

pub html_escape : Bytes → Bytes
unfolding html_byte
html_escape [] = []
html_escape (c ∷ s) = html_byte c ++ html_escape s

-- A hexadecimal digit, as `sscanf` reads it.
pub hex_digit : ℕ → Option ℕ
hex_digit c =
    if leb b'0' c && leb c b'9'
    then some (c - b'0')
    else if leb b'a' c && leb c b'f'
    then some (c - b'a' + 10)
    else if leb b'A' c && leb c b'F'
    then some (c - b'A' + 10)
    else none

abbrev is_space : ℕ → Bool
is_space c = c == b' ' || (leb 9 c && leb c 13)

-- At most `width` digits. With no digit `sscanf` leaves the 0 that `uval` holds.
scan_digits : ℕ → ℕ → Bytes → ℕ
scan_digits zero acc s = acc
scan_digits (suc width) acc [] = acc
scan_digits (suc width) acc (c ∷ s) = elim (hex_digit c) [
  | none ↦ acc
  | some d ↦ scan_digits width (acc * 16 + d) s
]

-- `sscanf(text, "%2x", &uval)`: leading space does not count, a sign does. A prefix `0x` fills
-- the width, and reads as 0. The result is what is left in `uval`.
scan_hex : Bytes → ℕ
unfolding scan_digits
scan_hex [] = 0
scan_hex (c ∷ s) =
    let skipped = scan_hex s in
    if is_space c
    then skipped
    else if c == b'+'
    then scan_digits 1 0 s
    else if c == b'-'
    then (2 ^ 32 - scan_digits 1 0 s) % 2 ^ 32
    else scan_digits 2 0 (c ∷ s)

-- `%` wants two more bytes behind it (`i + 2 < s.size()`), whatever they are.
pub url_decode : Bytes → Bytes
url_decode [] = []
url_decode (c ∷ []) = (if c == b'+' then b' ' else c) ∷ []
url_decode (c ∷ d ∷ []) = (if c == b'+' then b' ' else c) ∷ (if d == b'+' then b' ' else d) ∷ []
url_decode (c ∷ d ∷ e ∷ s) =
    let escaped = (scan_hex (d ∷ e ∷ s) % 256) ∷ url_decode s in
    let plain = (if c == b'+' then b' ' else c) ∷ url_decode (d ∷ e ∷ s) in
    if c == b'%' then escaped else plain
