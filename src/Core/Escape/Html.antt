-- ===== src/Core/Escape/Html.antt =====
-- `htmlEscape` against a reader of the four entities.
use mbsquad.Prelude.{
  ℕ, zero, suc, Bool, true, false, ◌&&◌, ◌≡◌, refl, [], ◌∷◌, ◌++◌, none, some, arith, ◌==◌,
  if◌then◌else◌, All, All-append,
}
use mbsquad.Prelude.Bytes.{Bytes, codes, strip_prefix}
use mbsquad.Core.Escape.{html_byte, html_escape}

abbrev begins : Bytes → Bytes → Bool
begins p s = elim (strip_prefix p s) [ none ↦ false | some _ ↦ true ]

-- Replaces the entities by what they stand for. The number counts the bytes of an entity that
-- are still to be passed over.
pub html_read : ℕ → Bytes → Bytes
unfolding strip_prefix
html_read _ [] = []
html_read (suc k) (c ∷ s) = html_read k s
html_read zero (c ∷ s) =
    let amp = b'&' ∷ html_read 4 s in
    let lt = b'<' ∷ html_read 3 s in
    let gt = b'>' ∷ html_read 3 s in
    let quot = b'"' ∷ html_read 5 s in
    let plain = c ∷ html_read 0 s in
    if c == b'&' && begins (codes "amp;") s
    then amp
    else if c == b'&' && begins (codes "lt;") s
    then lt
    else if c == b'&' && begins (codes "gt;") s
    then gt
    else if c == b'&' && begins (codes "quot;") s
    then quot
    else plain

html_read-html_byte : (c : ℕ) (s : Bytes) → html_read 0 (html_byte c ++ s) ≡ c ∷ html_read 0 s
unfolding html_read html_byte
html_read-html_byte c s = ground arith

-- Reading the entities gives back the text that was escaped.
pub html_read-html_escape : (s : Bytes) → html_read 0 (html_escape s) ≡ s
unfolding html_escape
html_read-html_escape [] = unfold html_read in refl
html_read-html_escape (c ∷ s) = rw (html_read-html_byte c (html_escape s), html_read-html_escape s)

-- A byte that may stand in the text of an element or in a quoted attribute.
abbrev pub IsInert : ℕ → Type 0
IsInert c = ((c == b'<') ≡ false) × ((c == b'>') ≡ false) × ((c == b'"') ≡ false)

html_byte-IsInert : (c : ℕ) → All IsInert (html_byte c)
unfolding html_byte
html_byte-IsInert c = ground arith

-- No byte of an escaped text opens or closes a tag or an attribute.
pub html_escape-IsInert : (s : Bytes) → All IsInert (html_escape s)
unfolding html_escape
html_escape-IsInert [] = tt
html_escape-IsInert (c ∷ s) =
    All-append IsInert (html_byte c) (html_escape s) (html_byte-IsInert c) (html_escape-IsInert s)
