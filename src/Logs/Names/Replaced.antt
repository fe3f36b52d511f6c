-- ===== src/Logs/Names/Replaced.antt =====
-- `preprocessInvalidIds` replaces every id that is "INVALID".
use mbsquad.Prelude.{
  ℕ, zero, suc, ◌+◌, ◌<◌, [], ◌++◌, ◌≡◌, refl, ap, sym, ◌∙◌, arith, length, length-append, take,
  drop, Option-cases, inl, inr, append_assoc,
}
use mbsquad.Prelude.Bytes.{Bytes, codes, Lacks}
use mbsquad.Prelude.Find.{
  find, put_before, replace_all, find-Lacks, find_eq, replace_all-none, replace_all-found,
}
use mbsquad.Logs.Names.{placeholder, replace_match, replace_ids, preprocess_invalid_ids}

abbrev invalid_tail : Bytes
invalid_tail = codes "NVALID"

-- The line with the placeholder for each "INVALID".
abbrev pub with_placeholders : Bytes → Bytes
with_placeholders = replace_all b'I' invalid_tail placeholder 0

zeros_lack : Lacks b'I' (drop 53 placeholder)
zeros_lack = (refl, (refl, (refl, (refl, (refl, (refl, (refl, (refl, tt))))))))

replace_ids_after :
    (fuel : ℕ) (z a : Bytes)
    → Lacks b'I' z
    → length a < fuel
    → replace_ids fuel (z ++ a) ≡ z ++ with_placeholders a
unfolding replace_ids
replace_ids_after zero z a h small = absurd (omega arith)
replace_ids_after (suc fuel) z a h small = elim (Option-cases (find (codes "INVALID") a)) [
  | inl e ↦
      ap (replace_match (replace_ids fuel) (z ++ a))
        (find-Lacks b'I' invalid_tail z a h ∙ ap (put_before z) e)
      ∙ ap (◌++◌ z) (sym (replace_all-none b'I' invalid_tail placeholder a e))
  | inr ((before, after), e) ↦
      let shorter : length after < fuel = omega (
        arith,
        small,
        ap length (find_eq b'I' invalid_tail a before after e),
        length-append before (codes "INVALID" ++ after),
        length-append (codes "INVALID") after,
      ) in
      let next = replace_ids_after fuel (drop 53 placeholder) after zeros_lack shorter in
      ap (replace_match (replace_ids fuel) (z ++ a))
        (find-Lacks b'I' invalid_tail z a h ∙ ap (put_before z) e)
      ∙ ap (λ x. (z ++ before) ++ (take 53 placeholder ++ x)) next
      ∙ append_assoc z before (placeholder ++ with_placeholders after)
      ∙ ap (◌++◌ z) (sym (replace_all-found b'I' invalid_tail placeholder a before after e))
]

-- The fuel is enough for every line, and the loop replaces each "INVALID" from left to right and
-- nothing else.
pub preprocess_invalid_ids-with_placeholders :
    (line : Bytes) → preprocess_invalid_ids line ≡ with_placeholders line
unfolding preprocess_invalid_ids
preprocess_invalid_ids-with_placeholders line =
    replace_ids_after (length line + 1) [] line tt (omega arith)
