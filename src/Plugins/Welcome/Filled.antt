-- ===== src/Plugins/Welcome/Filled.antt =====
-- When the loop of the welcome message ends.
use mbsquad.Prelude.{
  ℕ, zero, suc, ◌+◌, ◌<◌, List, [], ◌∷◌, ◌++◌, Option, none, some, length, ◌≡◌, refl, ap, sym, ◌∙◌,
  arith, All, All-append, append_assoc, append-nil, ◌==◌, false,
}
use mbsquad.Prelude.Bytes.{Bytes, codes, Lacks, strip_prefix}
use mbsquad.Prelude.Find.{find, found_here_or, put_before, find-Lacks, find_here}
use mbsquad.Plugins.Welcome.{player_mark, put_name, fill_player}

abbrev mark_tail : Bytes
mark_tail = codes "player}"

found_before :
    (c : ℕ) (o : Option (Bytes × Bytes)) (s : Option Bytes)
    → ((r : Bytes × Bytes) × (o ≡ some r))
    → (r : Bytes × Bytes) × (found_here_or c o s ≡ some r)
found_before c o (some rest) h = (([], rest), refl)
found_before c o none ((b, a), e) = ((c ∷ b, a), ap (put_before (c ∷ [])) e)

-- A text that holds the mark is searched with success.
find_mark :
    (u v : Bytes) → (r : Bytes × Bytes) × (find player_mark (u ++ (player_mark ++ v)) ≡ some r)
unfolding find
find_mark [] v = (([], v), unfold find in find_here b'{' mark_tail v)
find_mark (c ∷ u) v =
    found_before c (find player_mark (u ++ (player_mark ++ v)))
      (strip_prefix player_mark (c ∷ (u ++ (player_mark ++ v)))) (find_mark u v)

regroup :
    (b x y a : Bytes)
    → b ++ ((x ++ (player_mark ++ y)) ++ a) ≡ (b ++ x) ++ (player_mark ++ (y ++ a))
regroup b x y a =
    ap (◌++◌ b) (append_assoc x (player_mark ++ y) a)
    ∙ sym (append_assoc b x (player_mark ++ (y ++ a)))

-- For a player whose name holds the mark `{player}`, and any message with the mark in it, the loop never
-- ends: no number of rounds is enough.
pub fill_player_endless :
    (fuel : ℕ) (x y before after : Bytes)
    → fill_player fuel (x ++ (player_mark ++ y)) (before ++ (player_mark ++ after)) ≡ none
unfolding fill_player
fill_player_endless zero x y before after = refl
fill_player_endless (suc fuel) x y before after =
    let ((b, a), e) = find_mark before after in
    let name = x ++ (player_mark ++ y) in
    ap (put_name (fill_player fuel name) name (before ++ (player_mark ++ after))) e
    ∙ ap (fill_player fuel name) (regroup b x y a)
    ∙ fill_player_endless fuel x y (b ++ x) (y ++ a)

-- The texts between the marks, with something in the place of each mark.
pub joined : Bytes → List Bytes → Bytes
joined mark [] = []
joined mark (part ∷ []) = part
joined mark (part ∷ next ∷ parts) = part ++ (mark ++ joined mark (next ∷ parts))

abbrev opening : ℕ
opening = b'{'

find-absent : (z : Bytes) → Lacks opening z → find player_mark z ≡ none
unfolding find
find-absent z h = ap (find player_mark) (sym (append-nil z)) ∙ find-Lacks opening mark_tail z [] h

fill_absent :
    (fuel : ℕ) (name z : Bytes) → Lacks opening z → 0 < fuel → fill_player fuel name z ≡ some z
unfolding fill_player
fill_absent zero name z h more = absurd (omega arith)
fill_absent (suc fuel) name z h more =
    ap (put_name (fill_player fuel name) name z) (find-absent z h)

Lacks-append : (a b : Bytes) → Lacks opening a → Lacks opening b → Lacks opening (a ++ b)
Lacks-append = All-append (λ c. (c == opening) ≡ false)

-- The first mark behind a text without the opening byte.
find_first :
    (z rest : Bytes)
    → Lacks opening z
    → find player_mark (z ++ (player_mark ++ rest)) ≡ some (z ++ [], rest)
find_first z rest h =
    find-Lacks opening mark_tail z (player_mark ++ rest) h
    ∙ ap (put_before z) (find_here opening mark_tail rest)

moved :
    (z part name rest : Bytes)
    → ((z ++ part) ++ []) ++ (name ++ rest) ≡ ((z ++ part) ++ name) ++ rest
moved z part name rest =
    ap (λ x. x ++ (name ++ rest)) (append-nil (z ++ part))
    ∙ sym (append_assoc (z ++ part) name rest)

fill_player_joined :
    (fuel : ℕ) (name z : Bytes) (parts : List Bytes)
    → Lacks opening name
    → Lacks opening z
    → All (Lacks opening) parts
    → length parts < fuel
    → fill_player fuel name (z ++ joined player_mark parts) ≡ some (z ++ joined name parts)
unfolding fill_player joined
fill_player_joined zero name z parts hn hz hs more = absurd (omega arith)
fill_player_joined (suc fuel) name z [] hn hz hs more =
    unfold fill_player in
    fill_absent (suc fuel) name (z ++ []) (Lacks-append z [] hz tt) (omega arith)
fill_player_joined (suc fuel) name z (part ∷ []) hn hz (h, hs) more =
    unfold fill_player in
    fill_absent (suc fuel) name (z ++ part) (Lacks-append z part hz h) (omega arith)
fill_player_joined (suc fuel) name z (part ∷ next ∷ parts) hn hz (h, hs) more =
    let rest = joined player_mark (next ∷ parts) in
    let msg = z ++ (part ++ (player_mark ++ rest)) in
    let front = Lacks-append z part hz h in
    ap (put_name (fill_player fuel name) name msg) (
      ap (find player_mark) (sym (append_assoc z part (player_mark ++ rest)))
      ∙ find_first (z ++ part) rest front)
    ∙ ap (fill_player fuel name) (moved z part name rest)
    ∙ fill_player_joined fuel name ((z ++ part) ++ name) (next ∷ parts) hn
        (Lacks-append (z ++ part) name front hn) hs (omega (arith, more))
    ∙ ap some (
        append_assoc (z ++ part) name (joined name (next ∷ parts))
        ∙ append_assoc z part (name ++ joined name (next ∷ parts)))

-- Where neither the name nor the message outside its marks has an opening brace, one round more than
-- there are parts between the marks is enough, and the message has the name for each mark.
pub fill_player_ends :
    (name : Bytes) (parts : List Bytes)
    → Lacks b'{' name
    → All (Lacks b'{') parts
    → fill_player (length parts + 1) name (joined player_mark parts) ≡ some (joined name parts)
fill_player_ends name parts hn hs =
    fill_player_joined (length parts + 1) name [] parts hn tt hs (omega arith)
