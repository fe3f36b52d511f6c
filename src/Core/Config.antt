-- ===== src/Core/Config.antt =====
-- `Config` of src/core/core.cpp: the settings file and the look-ups. The environment and the file
-- system are outside; a file is its text.
pub mod Lines
use mbsquad.Prelude.{
  ℕ, Bool, true, false, ◌||◌, List, [], ◌∷◌, Option, none, some, ◌==◌, if◌then◌else◌,
}
use mbsquad.Prelude.Bytes.{Bytes, codes, equal, split_at}
use mbsquad.Prelude.Maps.{lookup, insert, bytes_key}
use mbsquad.Prelude.Int.{ℤ}
use mbsquad.Core.Numbers.{stoi}

abbrev pub Settings : Type 0
Settings = List (Bytes × Bytes)

-- A blank or a carriage return, which the loops take off the end; a blank or a tab, off the front.
abbrev pub is_back : ℕ → Bool
is_back c = c == b' ' || c == 13

abbrev pub is_front : ℕ → Bool
is_front c = c == b' ' || c == 9

abbrev pub put_front : ℕ → Bytes → Bytes
put_front c [] = if is_back c then [] else c ∷ []
put_front c (d ∷ rest) = c ∷ d ∷ rest

unfoldable pub trim_back : Bytes → Bytes
trim_back [] = []
trim_back (c ∷ s) = put_front c (trim_back s)

unfoldable pub trim_front : Bytes → Bytes
trim_front [] = []
trim_front (c ∷ s) = let rest = trim_front s in if is_front c then rest else c ∷ s

store : Bytes → Bytes → Settings → Settings
store [] val settings = settings
store (c ∷ key) val settings = insert (c ∷ key) val settings

abbrev pub is_comment : Bytes → Bool
is_comment [] = false
is_comment (c ∷ line) = c == b'#'

load_parts : Option (Bytes × Bytes) → Settings → Settings
load_parts none settings = settings
load_parts (some (key, val)) settings = store (trim_back key) (trim_back (trim_front val)) settings

pub load_line : Bytes → Settings → Settings
load_line line settings =
    if is_comment line then settings else load_parts (split_at b'=' line) settings

-- The lines that `std::getline` gives; an empty last one makes no difference.
abbrev pub add_byte : ℕ → List Bytes → List Bytes
add_byte c [] = (c ∷ []) ∷ []
add_byte c (line ∷ lines) = (c ∷ line) ∷ lines

pub lines_of : Bytes → List Bytes
lines_of [] = [] ∷ []
lines_of (c ∷ s) = let rest = lines_of s in if c == b'\n' then [] ∷ rest else add_byte c rest

pub load_lines : List Bytes → Settings → Settings
load_lines [] settings = settings
load_lines (line ∷ lines) settings = load_lines lines (load_line line settings)

pub load_from_file : Bytes → Settings → Settings
load_from_file text settings = load_lines (lines_of text) settings

or_default : Bytes → Option Bytes → Bytes
or_default fallback none = fallback
or_default fallback (some v) = v

pub get : Bytes → Bytes → Settings → Bytes
get key fallback settings = or_default fallback (lookup key settings)

int_or : ℤ → Option ℤ → ℤ
int_or fallback none = fallback
int_or fallback (some z) = z

get_int_from : ℤ → Option Bytes → ℤ
get_int_from fallback none = fallback
get_int_from fallback (some v) = int_or fallback (stoi v)

pub get_int : Bytes → ℤ → Settings → ℤ
get_int key fallback settings = get_int_from fallback (lookup key settings)

get_bool_from : Bool → Option Bytes → Bool
get_bool_from fallback none = fallback
get_bool_from fallback (some v) =
    equal v (codes "1") || equal v (codes "true") || equal v (codes "yes")

pub get_bool : Bytes → Bool → Settings → Bool
get_bool key fallback settings = get_bool_from fallback (lookup key settings)

pub set : Bytes → Bytes → Settings → Settings
set key val settings = insert key val settings
