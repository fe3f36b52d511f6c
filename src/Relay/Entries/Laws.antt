-- ===== src/Relay/Entries/Laws.antt =====
-- What the edits of relay/main.cpp make of a file of entries: the loop against the list of the
-- lines that it keeps, and the ids that the new content lists.
use mbsquad.Prelude.{
  Bool, true, false, not, ◌&&◌, ◌||◌, ◌≡◌, refl, sym, ap, subst, ◌∙◌, List, [], ◌∷◌, ◌++◌, Option,
  none, some, arith, if◌then◌else◌, exists, keep, All, All-append, append_assoc, append-nil,
  Bool-cases, both_branches, inl, inr,
}
use mbsquad.Prelude.Bytes.{Bytes, Lacks, equal, equal_iff}
use mbsquad.Relay.Files.{trim, split_lines}
use mbsquad.Relay.Files.Lines.{joined, joined-append, split_lines-joined, split_lines-Lacks}
use mbsquad.Relay.Entries.{is_id, crlf, edit_lines, with_line, lists}

or_false : (b : Bool) → b ≡ (b || false)
or_false false = refl
or_false true = refl

or_true : (b : Bool) → (b || true) ≡ true
or_true false = refl
or_true true = refl

exists-append {ℓ} :
    {A : Type ℓ} (p : A → Bool) (xs ys : List A)
    → exists p (xs ++ ys) ≡ (exists p xs || exists p ys)
exists-append p [] ys = refl
exists-append p (x ∷ xs) ys = ground (arith, exists-append p xs ys)

module _ (entry : Bytes → Option Bytes) where
  abbrev pub is_of : Bytes → Bytes → Bool
  is_of id l = is_id id (entry (trim l))

  -- The lines that stay.
  abbrev pub kept : Bytes → Bool → List Bytes → List Bytes
  kept sid copies ls = keep (λ l. copies || not (is_of sid l)) ls

  pub edit_lines_lem :
      (sid : Bytes) (copies : Bool) (ls : List Bytes) (found : Bool) (nc : Bytes)
      → edit_lines entry sid copies ls found nc
        ≡ (found || exists (is_of sid) ls, nc ++ joined (kept sid copies ls))
  unfolding edit_lines
  edit_lines_lem sid copies [] found nc = cc (append-nil nc, or_false found)
  edit_lines_lem sid copies (l ∷ ls) found nc = ground (
    arith,
    edit_lines_lem sid copies ls true nc,
    edit_lines_lem sid copies ls true (nc ++ (l ++ crlf)),
    edit_lines_lem sid copies ls found (nc ++ (l ++ crlf)),
    append_assoc nc (l ++ crlf) (joined (kept sid copies ls)),
    or_true found,
  )

  -- A line of one id is a line of another only if the ids are equal.
  is_id-others :
      (id sid : Bytes) (o : Option Bytes)
      → (not (is_id sid o) && is_id id o) ≡ (not (equal sid id) && is_id id o)
  is_id-others id sid none = ground arith
  is_id-others id sid (some x) = ground (arith, equal_iff x sid, equal_iff x id, equal_iff sid id)

  exists-kept :
      (id sid : Bytes) (copies : Bool) (ls : List Bytes)
      → exists (is_of id) (kept sid copies ls)
        ≡ ((copies || not (equal sid id)) && exists (is_of id) ls)
  exists-kept id sid copies [] = ground arith
  exists-kept id sid true (l ∷ ls) = ground (arith, exists-kept id sid true ls)
  exists-kept id sid false (l ∷ ls) = elim (Bool-cases (is_of sid l)) [
    | inl e ↦
        rw e (ground (arith, exists-kept id sid false ls, is_id-others id sid (entry (trim l))))
    | inr e ↦
        rw e (ground (arith, exists-kept id sid false ls, is_id-others id sid (entry (trim l))))
  ]

  kept-Lacks :
      (sid : Bytes) (copies : Bool) (ls : List Bytes)
      → All (Lacks 10) ls
      → All (Lacks 10) (kept sid copies ls)
  kept-Lacks sid copies [] h = h
  kept-Lacks sid copies (l ∷ ls) h =
      both_branches (All (Lacks 10)) (copies || not (is_of sid l)) _ _
        (h.0, kept-Lacks sid copies ls h.1) (kept-Lacks sid copies ls h.1)

  abbrev pub edited : Bytes → Bool → Bytes → Bool × Bytes
  edited sid copies content = edit_lines entry sid copies (split_lines content) false []

  -- Whether an id is found is whether the content lists it.
  pub found-lists :
      (sid : Bytes) (copies : Bool) (content : Bytes)
      → (edited sid copies content).0 ≡ lists entry content sid
  unfolding lists
  found-lists sid copies content =
      ap (λ r. r.0) (edit_lines_lem sid copies (split_lines content) false [])

  edited-joined :
      (sid : Bytes) (copies : Bool) (content : Bytes)
      → (edited sid copies content).1 ≡ joined (kept sid copies (split_lines content))
  edited-joined sid copies content =
      ap (λ r. r.1) (edit_lines_lem sid copies (split_lines content) false [])

  lists-joined :
      (ls : List Bytes) (id : Bytes)
      → All (Lacks 10) ls
      → lists entry (joined ls) id ≡ exists (is_of id) ls
  unfolding lists
  lists-joined ls id h = ap (exists (is_of id)) (split_lines-joined ls h)

  -- The new content lists the ids of the old one; the id itself only where its lines are copied.
  pub lists-edited :
      (sid : Bytes) (copies : Bool) (content id : Bytes)
      → lists entry (edited sid copies content).1 id
        ≡ ((copies || not (equal sid id)) && lists entry content id)
  unfolding lists
  lists-edited sid copies content id =
      let ls = split_lines content in
      ap (λ c. lists entry c id) (edited-joined sid copies content)
      ∙ lists-joined (kept sid copies ls) id (kept-Lacks sid copies ls (split_lines-Lacks content))
      ∙ exists-kept id sid copies ls

  -- So it does with a line behind it, and the id of that line.
  pub lists-added :
      (sid : Bytes) (copies : Bool) (content line id : Bytes)
      → Lacks 10 line
      → lists entry ((edited sid copies content).1 ++ (line ++ crlf)) id
        ≡ (((copies || not (equal sid id)) && lists entry content id) || is_of id line)
  unfolding lists
  lists-added sid copies content line id h =
      let ls = split_lines content in
      ap (λ c. lists entry (c ++ (line ++ crlf)) id) (edited-joined sid copies content)
      ∙ ap (λ c. lists entry (joined (kept sid copies ls) ++ c) id)
          (sym (append-nil (line ++ crlf)))
      ∙ ap (λ c. lists entry c id) (sym (joined-append (kept sid copies ls) (line ∷ [])))
      ∙ lists-joined (kept sid copies ls ++ (line ∷ [])) id (
          All-append (Lacks 10) (kept sid copies ls) (line ∷ [])
            (kept-Lacks sid copies ls (split_lines-Lacks content)) (h, tt))
      ∙ exists-append (is_of id) (kept sid copies ls) (line ∷ [])
      ∙ ground (arith, exists-kept id sid copies ls)

  abbrev pub updated : Bytes → Bool → Bool → Bytes → Bytes → Bytes
  updated sid copies adds content line =
      with_line adds line (edited sid copies content).0 (edited sid copies content).1

  -- The ids that are listed after an id is added or taken out.
  pub lists-updated :
      (sid : Bytes) (copies adds : Bool) (content line id : Bytes)
      → Lacks 10 line
      → is_of id line ≡ equal sid id
      → (adds ≡ true → copies ≡ true)
      → lists entry (updated sid copies adds content line) id ≡ (
          if adds
          then lists entry content id || equal sid id
          else (copies || not (equal sid id)) && lists entry content id)
  lists-updated sid copies false content line id hn hl hc = lists-edited sid copies content id
  lists-updated sid copies true content line id hn hl hc =
      let found : (edited sid copies content).0 ≡ lists entry content sid =
        found-lists sid copies content in
      elim (Bool-cases (edited sid copies content).0) [
        | inl e ↦ rw e (
            lists-edited sid copies content id
            ∙ rw (hc refl) (listed_already sid content id (sym found ∙ e)))
        | inr e ↦ rw e (lists-added sid copies content line id hn ∙ rw (hc refl) (rw hl refl))
      ]
    where
      listed_already :
          (sid content id : Bytes)
          → lists entry content sid ≡ true
          → lists entry content id ≡ (lists entry content id || equal sid id)
      listed_already sid content id h = elim (Bool-cases (equal sid id)) [
        | inl e ↦ rw (subst (λ i. lists entry content i ≡ true) ((equal_iff sid id).0 e) h) refl
        | inr e ↦ rw e (or_false (lists entry content id))
      ]
