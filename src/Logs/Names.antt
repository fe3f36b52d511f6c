-- ===== src/Logs/Names.antt =====
-- The clean-up of texts in src/core/log_parser.cpp: `preprocessInvalidIds`, `cleanPlayerName`,
-- `extractWeapon` and `extractWeaponMiddle`.
pub mod Replaced
use mbsquad.Prelude.{
  ℕ, zero, suc, ◌+◌, ◌-◌, ◌*◌, ◌/◌, Bool, true, false, not, ◌&&◌, List, [], ◌∷◌, ◌++◌, Option, none,
  some, ltb, leb, ◌==◌, if◌then◌else◌, length, take, drop, keep,
}
use mbsquad.Prelude.Bytes.{Bytes, codes, equal, strip_prefix, contains}
use mbsquad.Prelude.Find.{find}

-- The text in the place of an id that is "INVALID".
abbrev pub placeholder : Bytes
placeholder = codes "EOS: 0000000000000000000000000000000 steam: 00000000000000000"

abbrev pub replace_match : (Bytes → Bytes) → Bytes → Option (Bytes × Bytes) → Bytes
replace_match again s none = s
replace_match again s (some (before, after)) =
    before ++ (take 53 placeholder ++ again (drop 53 placeholder ++ after))

-- The loop of `preprocessInvalidIds`. The search goes on 53 bytes behind the start of a match, in
-- the replaced text; the fuel bounds the number of matches.
unfoldable pub replace_ids : ℕ → Bytes → Bytes
replace_ids zero s = s
replace_ids (suc fuel) s = replace_match (replace_ids fuel) s (find (codes "INVALID") s)

unfoldable pub preprocess_invalid_ids : Bytes → Bytes
preprocess_invalid_ids line = replace_ids (length line + 1) line

abbrev is_printable : ℕ → Bool
is_printable c = leb 32 c && not (c == 127)

latin1_count : Bytes → ℕ
latin1_count [] = 0
latin1_count (c ∷ s) = let rest = latin1_count s in if leb 192 c then suc rest else rest

-- The last two bytes are not looked at.
cjk_count : Bytes → ℕ
cjk_count (c ∷ d ∷ e ∷ s) =
    let rest = cjk_count (d ∷ e ∷ s) in if leb 228 c && leb c 233 then suc rest else rest
cjk_count _ = 0

judge_name : Bytes → Bytes
judge_name cleaned =
    if ltb (length cleaned * 3 / 10) (latin1_count cleaned) && cjk_count cleaned == 0
    then []
    else cleaned

pub clean_player_name : Bytes → Bytes
clean_player_name name = judge_name (keep is_printable name)

-- The loops that take blanks off the end.
abbrev keep_blank : ℕ → Bytes → Bytes
keep_blank c [] = if c == b' ' then [] else c ∷ []
keep_blank c (d ∷ s) = c ∷ d ∷ s

unfoldable pub trim_blanks : Bytes → Bytes
trim_blanks [] = []
trim_blanks (c ∷ s) = keep_blank c (trim_blanks s)

-- `substr(0, size() - 2)` where the text ends in `_C` and is longer.
unfoldable pub strip_suffix : Bytes → Bytes
strip_suffix s =
    if ltb 2 (length s) && equal (drop (length s - 2) s) (codes "_C")
    then take (length s - 2) s
    else s

abbrev or_else : Bytes → Option Bytes → Bytes
or_else s none = s
or_else s (some rest) = rest

-- The first of the two prefixes that the text has.
unfoldable pub strip_class : Bytes → Bytes
strip_class s = elim (strip_prefix (codes "BP_") s) [
  | some rest ↦ rest
  | none ↦ or_else s (strip_prefix (codes "SQ_") s)
]

abbrev pub or_unknown : Bytes → Bytes
or_unknown [] = codes "Unknown"
or_unknown (c ∷ s) = c ∷ s

unfoldable pub extract_weapon : Bytes → Bytes
extract_weapon [] = codes "Unknown"
extract_weapon (c ∷ s) = or_unknown (strip_class (strip_suffix (c ∷ s)))

-- The parts between underscores, without the empty ones.
abbrev add_part : ℕ → List Bytes → List Bytes
add_part c [] = (c ∷ []) ∷ []
add_part c (part ∷ parts) = (c ∷ part) ∷ parts

pub split_parts : Bytes → List Bytes
split_parts [] = [] ∷ []
split_parts (c ∷ s) = let rest = split_parts s in if c == b'_' then [] ∷ rest else add_part c rest

abbrev is_part : Bytes → Bool
is_part [] = false
is_part (c ∷ s) = true

pub join_parts : List Bytes → Bytes
join_parts [] = []
join_parts (part ∷ []) = part
join_parts (part ∷ next ∷ parts) = part ++ (b'_' ∷ join_parts (next ∷ parts))

middle_of : List Bytes → List Bytes
middle_of parts = take (length parts - 3) (drop 1 parts)

or_weapon : Bytes → Bytes → Bytes
or_weapon s [] = extract_weapon s
or_weapon s (c ∷ result) = c ∷ result

middle_or : Bytes → List Bytes → Bytes
middle_or s parts =
    if ltb (length parts) 4 then extract_weapon s else or_weapon s (join_parts (middle_of parts))

pub extract_weapon_middle : Bytes → Bytes
extract_weapon_middle [] = codes "Unknown"
extract_weapon_middle (c ∷ s) = middle_or (c ∷ s) (keep is_part (split_parts (c ∷ s)))
