-- ===== src/Logs/Tail/Once.antt =====
-- What a tailer hands on over its rounds.
use mbsquad.Prelude.{
  ℕ, ◌≤◌, Bool, true, false, List, [], ◌∷◌, some, leb, if◌then◌else◌, length, keep, ◌≡◌, refl, ap,
  sym, subst, ◌⊎◌, ◌∙◌, arith, All, Bool-cases, Option-cases, inl, inr,
}
use mbsquad.Prelude.Bytes.{Bytes}
use mbsquad.Logs.Tail.{
  minus_one, Look, next_position, read_file, read_sized, read_opened, read_new_lines,
  start_position, tail_rounds, tail_loop,
}

-- A size is a `uintmax_t`.
abbrev pub IsSize : Look → Type 0
IsSize look = (n : ℕ) → look.size ≡ some n → n ≤ minus_one

abbrev pub is_batch : List Bytes → Bool
is_batch [] = false
is_batch (line ∷ lines) = true

read_file-position :
    (last_file_pos : ℕ) (contents : Bytes) → (read_file last_file_pos contents).1 ≡ minus_one
unfolding read_file next_position
read_file-position last_file_pos contents = refl

round_cases :
    (look : Look) (p : ℕ)
    → (read_new_lines look p ≡ ([], p)) ⊎ ((read_new_lines look p).1 ≡ minus_one)
unfolding read_new_lines
round_cases look p = elim (Bool-cases look.exists) [
  | inr missing ↦ inl (ap (λ b. if b then read_sized p look.size look.opened else ([], p)) missing)
  | inl there ↦ elim (Option-cases look.size) [
    | inl none_known ↦ inl (
        ap (λ b. if b then read_sized p look.size look.opened else ([], p)) there
        ∙ ap (λ o. read_sized p o look.opened) none_known)
    | inr (n, known) ↦
        let by_size : read_new_lines look p
            ≡ (if leb n p then ([], p) else read_opened p look.opened) =
          ap (λ b. if b then read_sized p look.size look.opened else ([], p)) there
          ∙ ap (λ o. read_sized p o look.opened) known in
        elim (Bool-cases (leb n p)) [
          | inl small ↦
              inl (by_size ∙ ap (λ b. if b then ([], p) else read_opened p look.opened) small)
          | inr grown ↦
              let read : read_new_lines look p ≡ read_opened p look.opened =
                by_size ∙ ap (λ b. if b then ([], p) else read_opened p look.opened) grown in
              elim (Option-cases look.opened) [
                | inl closed ↦ inl (read ∙ ap (read_opened p) closed)
                | inr (contents, opened) ↦ inr (
                    ap (λ r. r.1) (read ∙ ap (read_opened p) opened)
                    ∙ read_file-position p contents)
              ]
        ]
  ]
]

at_minus_one : (look : Look) → IsSize look → read_new_lines look minus_one ≡ ([], minus_one)
unfolding read_new_lines
at_minus_one look h = elim (Bool-cases look.exists) [
  | inr missing ↦
      ap (λ b. if b then read_sized minus_one look.size look.opened else ([], minus_one)) missing
  | inl there ↦
      ap (λ b. if b then read_sized minus_one look.size look.opened else ([], minus_one)) there
      ∙ elim (Option-cases look.size) [
        | inl none_known ↦ ap (λ o. read_sized minus_one o look.opened) none_known
        | inr (n, known) ↦
            let small : leb n minus_one ≡ true = ground (arith, h n known) in
            ap (λ o. read_sized minus_one o look.opened) known
            ∙ ap (λ b. if b then ([], minus_one) else read_opened minus_one look.opened) small
      ]
]

rounds_at_minus_one :
    (looks : List Look) → All IsSize looks → keep is_batch (tail_rounds looks minus_one) ≡ []
unfolding tail_rounds
rounds_at_minus_one [] h = refl
rounds_at_minus_one (look ∷ looks) (h, hs) = rw (at_minus_one look h) (rounds_at_minus_one looks hs)

at_most_one_more :
    (lines : List Bytes) (rest : List (List Bytes))
    → keep is_batch rest ≡ []
    → length (keep is_batch (lines ∷ rest)) ≤ 1
at_most_one_more [] rest h = rw h (omega arith)
at_most_one_more (line ∷ lines) rest h = rw h (omega arith)

tail_rounds-once :
    (looks : List Look) (p : ℕ)
    → All IsSize looks
    → length (keep is_batch (tail_rounds looks p)) ≤ 1
unfolding tail_rounds
tail_rounds-once [] p h = omega arith
tail_rounds-once (look ∷ looks) p (h, hs) = elim (round_cases look p) [
  | inl idle ↦
      subst (λ r. length (keep is_batch (r.0 ∷ tail_rounds looks r.1)) ≤ 1) (sym idle)
        (tail_rounds-once looks p hs)
  | inr ended ↦
      at_most_one_more (read_new_lines look p).0 (tail_rounds looks (read_new_lines look p).1)
        (ap (λ q. keep is_batch (tail_rounds looks q)) ended ∙ rounds_at_minus_one looks hs)
]

-- Over any run of the loop, whatever is written to the file, lines are handed on in at most one round:
-- from the first read on the position is the greatest number of its type, and no size passes it.
pub tail_loop-once :
    (first : Look) (looks : List Look) (last_file_pos : ℕ)
    → All IsSize looks
    → length (keep is_batch (tail_loop first looks last_file_pos)) ≤ 1
unfolding tail_loop
tail_loop-once first looks last_file_pos h =
    tail_rounds-once looks (start_position first last_file_pos) h
