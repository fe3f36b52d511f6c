-- ===== src/Relay/Files/Lines.antt =====
-- The lines of relay/main.cpp, written and read again, and `trim` of a line that ends in no blanks.
use mbsquad.Prelude.{
  ℕ, false, ◌≡◌, refl, sym, ap, ◌∙◌, List, [], ◌∷◌, ◌++◌, map, arith, ◌==◌, All, append_assoc,
}
use mbsquad.Prelude.Bytes.{Bytes, Lacks, get_lines, add_char}
use mbsquad.Logs.Tail.{drop_return}
use mbsquad.Relay.Files.{is_blank, skip_blanks, keep_last, drop_blanks, trim, split_lines}

-- The lines with the line ends that the relay writes.
abbrev pub joined : List Bytes → Bytes
joined [] = []
joined (l ∷ ls) = (l ++ (13 ∷ 10 ∷ [])) ++ joined ls

pub joined-append : (ls ms : List Bytes) → joined (ls ++ ms) ≡ joined ls ++ joined ms
joined-append [] ms = refl
joined-append (l ∷ ls) ms =
    ap (λ s. (l ++ (13 ∷ 10 ∷ [])) ++ s) (joined-append ls ms)
    ∙ sym (append_assoc (l ++ (13 ∷ 10 ∷ [])) (joined ls) (joined ms))

get_lines-crlf :
    (l s : Bytes)
    → Lacks 10 l
    → get_lines ((l ++ (13 ∷ 10 ∷ [])) ++ s) ≡ (l ++ (13 ∷ [])) ∷ get_lines s
unfolding get_lines
get_lines-crlf [] s h = refl
get_lines-crlf (c ∷ l) s h = ground (arith, get_lines-crlf l s h.1)

drop_return-return : (l : Bytes) → drop_return (l ++ (13 ∷ [])) ≡ l
unfolding drop_return
drop_return-return [] = refl
drop_return-return (c ∷ []) = refl
drop_return-return (c ∷ d ∷ l) = ap (c ∷◌) (drop_return-return (d ∷ l))

-- What the relay has written it reads again as the same lines.
pub split_lines-joined : (ls : List Bytes) → All (Lacks 10) ls → split_lines (joined ls) ≡ ls
unfolding split_lines get_lines
split_lines-joined [] h = refl
split_lines-joined (l ∷ ls) h =
    ap (map drop_return) (get_lines-crlf l (joined ls) h.0)
    ∙ cc (drop_return-return l, split_lines-joined ls h.1)

drop_return-Lacks : (l : Bytes) → Lacks 10 l → Lacks 10 (drop_return l)
unfolding drop_return
drop_return-Lacks [] h = h
drop_return-Lacks (c ∷ []) h = ground arith
drop_return-Lacks (c ∷ d ∷ l) h = (h.0, drop_return-Lacks (d ∷ l) h.1)

add_char-Lacks :
    (c : ℕ) (ls : List Bytes)
    → (c == 10) ≡ false
    → All (Lacks 10) ls
    → All (Lacks 10) (add_char c ls)
add_char-Lacks c [] e h = ground arith
add_char-Lacks c (l ∷ ls) e h = ground arith

get_lines-Lacks : (s : Bytes) → All (Lacks 10) (get_lines s)
unfolding get_lines
get_lines-Lacks [] = ground arith
get_lines-Lacks (c ∷ s) = ground (arith, get_lines-Lacks s, add_char-Lacks c (get_lines s))

drop_returns-Lacks : (ls : List Bytes) → All (Lacks 10) ls → All (Lacks 10) (map drop_return ls)
drop_returns-Lacks [] h = h
drop_returns-Lacks (l ∷ ls) h = (drop_return-Lacks l h.0, drop_returns-Lacks ls h.1)

pub split_lines-Lacks : (s : Bytes) → All (Lacks 10) (split_lines s)
unfolding split_lines
split_lines-Lacks s = drop_returns-Lacks (get_lines s) (get_lines-Lacks s)

-- A line that begins and ends with other bytes than blanks is left as it is.
drop_blanks-end :
    (s : Bytes) (c : ℕ) → is_blank c ≡ false → drop_blanks (s ++ (c ∷ [])) ≡ s ++ (c ∷ [])
unfolding drop_blanks
drop_blanks-end [] c h = rw h refl
drop_blanks-end (d ∷ s) c h = rw (drop_blanks-end s c h) (kept d s c)
  where
    kept : (d : ℕ) (s : Bytes) (c : ℕ) → keep_last d (s ++ (c ∷ [])) ≡ d ∷ (s ++ (c ∷ []))
    kept d [] c = refl
    kept d (e ∷ s) c = refl

pub trim_none :
    (d : ℕ) (s : Bytes) (c : ℕ)
    → is_blank d ≡ false
    → is_blank c ≡ false
    → trim (d ∷ (s ++ (c ∷ []))) ≡ d ∷ (s ++ (c ∷ []))
unfolding trim skip_blanks
trim_none d s c hd hc = rw hd (drop_blanks-end (d ∷ s) c hc)
