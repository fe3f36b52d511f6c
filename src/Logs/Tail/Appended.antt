-- ===== src/Logs/Tail/Appended.antt =====
-- The first read of a tailer after lines are written to the file.
use mbsquad.Prelude.{
  ℕ, true, false, List, [], ◌∷◌, ◌++◌, some, ltb, leb, if◌then◌else◌, length, map, keep, ◌≡◌, refl,
  ap, ◌∙◌, arith, All, drop-length_append, length-append,
}
use mbsquad.Prelude.Bytes.{Bytes, Lacks, get_lines, add_char}
use mbsquad.Logs.Tail.{
  Look, drop_return, is_text, clean_lines, read_file, read_new_lines, start_position, tail_rounds,
  tail_loop,
}

-- The lines as the game's server writes them, with the two bytes at the end of each.
abbrev pub written : List Bytes → Bytes
written [] = []
written (line ∷ lines) = line ++ 13 ∷ 10 ∷ written lines

get_lines-line :
    (line rest : Bytes)
    → Lacks 10 line
    → get_lines (line ++ 13 ∷ 10 ∷ rest) ≡ (line ++ 13 ∷ []) ∷ get_lines rest
unfolding get_lines
get_lines-line [] rest h = refl
get_lines-line (c ∷ line) rest (hc, h) = rw hc (ap (add_char c) (get_lines-line line rest h))

drop_return-append : (line : Bytes) → drop_return (line ++ 13 ∷ []) ≡ line
unfolding drop_return
drop_return-append [] = refl
drop_return-append (c ∷ []) = refl
drop_return-append (c ∷ d ∷ line) = ap (◌∷◌ c) (drop_return-append (d ∷ line))

clean_lines-written :
    (lines : List Bytes)
    → All (Lacks 10) lines
    → clean_lines (get_lines (written lines)) ≡ keep is_text lines
unfolding clean_lines get_lines
clean_lines-written [] h = refl
clean_lines-written (line ∷ lines) (h, hs) =
    let rest = clean_lines-written lines hs in
    ap clean_lines (get_lines-line line (written lines) h)
    ∙ ap (λ l. keep is_text (l ∷ map drop_return (get_lines (written lines))))
        (drop_return-append line)
    ∙ ap (λ k. if is_text line then line ∷ k else k) rest

read_file-append :
    (old : Bytes) (lines : List Bytes)
    → All (Lacks 10) lines
    → (read_file (length old) (old ++ written lines)).0 ≡ keep is_text lines
unfolding read_file
read_file-append old lines h =
    ap (λ s. clean_lines (get_lines s)) (drop-length_append old (written lines))
    ∙ clean_lines-written lines h

abbrev pub there : Bytes → Look
there contents = record { exists = true; size = some (length contents); opened = some contents }

read_new_lines-append :
    (old : Bytes) (lines : List Bytes)
    → All (Lacks 10) lines
    → (read_new_lines (there (old ++ written lines)) (length old)).0 ≡ keep is_text lines
unfolding read_new_lines
read_new_lines-append old [] h =
    let same : leb (length (old ++ [])) (length old) ≡ true =
      ground (arith, length-append {A = ℕ} old []) in
    ap (λ b. (if b then ([], length old) else read_file (length old) (old ++ [])).0) same
read_new_lines-append old (line ∷ lines) h =
    let tail = line ++ 13 ∷ 10 ∷ written lines in
    let grown : leb (length (old ++ tail)) (length old) ≡ false =
      ground (arith, length-append old tail, length-append line (13 ∷ 10 ∷ written lines)) in
    ap (λ b. (if b then ([], length old) else read_file (length old) (old ++ tail)).0) grown
    ∙ read_file-append old (line ∷ lines) h

-- What the file holds at the start is passed over; the lines that are added to it by the first round,
-- each with its carriage return and line feed and none with a line feed inside, are handed on in order,
-- without the empty ones.
pub tail_loop-append :
    (old : Bytes) (lines : List Bytes)
    → All (Lacks 10) lines
    → tail_loop (there old) (there (old ++ written lines) ∷ []) 0 ≡ keep is_text lines ∷ []
unfolding tail_loop tail_rounds start_position
tail_loop-append old lines h =
    let from : (if ltb 0 (length old) then length old else 0) ≡ length old = ground arith in
    ap (λ p. (read_new_lines (there (old ++ written lines)) p).0 ∷ []) from
    ∙ ap (λ b. b ∷ []) (read_new_lines-append old lines h)
