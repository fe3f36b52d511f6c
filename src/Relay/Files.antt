-- ===== src/Relay/Files.antt =====
-- relay/main.cpp, the texts and the files: `trim`, `dirOf`, `baseName`, `splitLines`, `readFile`,
-- `writeFile`, and the places where the configuration files of the game are looked for.
pub mod Lines
pub mod Paths
use mbsquad.Prelude.{
  ℕ, Bool, true, false, ◌||◌, List, [], ◌∷◌, ◌++◌, map, Option, none, some, ◌==◌, if◌then◌else◌,
}
use mbsquad.Prelude.Bytes.{Bytes, codes, get_lines}
use mbsquad.Prelude.Maps.{bytes_key, lookup, insert}
use mbsquad.Logs.Tail.{drop_return}

abbrev pub is_blank : ℕ → Bool
is_blank c = c == b' ' || c == 9 || c == 13 || c == 10

unfoldable pub skip_blanks : Bytes → Bytes
skip_blanks [] = []
skip_blanks (c ∷ s) = if is_blank c then skip_blanks s else c ∷ s

abbrev pub keep_last : ℕ → Bytes → Bytes
keep_last c [] = if is_blank c then [] else c ∷ []
keep_last c (d ∷ s) = c ∷ d ∷ s

unfoldable pub drop_blanks : Bytes → Bytes
drop_blanks [] = []
drop_blanks (c ∷ s) = keep_last c (drop_blanks s)

unfoldable pub trim : Bytes → Bytes
trim s = drop_blanks (skip_blanks s)

abbrev is_slash : ℕ → Bool
is_slash c = c == 92 || c == b'/'

-- The texts before and behind the last slash or backslash.
unfoldable pub split_last : Bytes → Option (Bytes × Bytes)
split_last [] = none
split_last (c ∷ s) = elim (split_last s) [
  | none ↦ if is_slash c then some ([], s) else none
  | some (front, back) ↦ some (c ∷ front, back)
]

unfoldable pub dir_of : Bytes → Bytes
dir_of p = elim (split_last p) [ none ↦ codes "." | some (front, back) ↦ front ]

unfoldable pub base_name : Bytes → Bytes
base_name p = elim (split_last p) [ none ↦ p | some (front, back) ↦ back ]

unfoldable pub split_lines : Bytes → List Bytes
split_lines s = map drop_return (get_lines s)

-- The files by their paths, and which of them can be opened for writing.
pub record Disk : Type 0 where
  pub files : List (Bytes × Bytes)
  pub writable : Bytes → Bool

abbrev or_empty : Option Bytes → Bytes
or_empty none = []
or_empty (some c) = c

unfoldable pub read_file : Disk → Bytes → Bytes
read_file d p = or_empty (lookup p d.files)

-- What the call answers is not used anywhere.
unfoldable pub write_file : Disk → Bytes → Bytes → Disk
write_file d p c = if d.writable p then record d { files = insert p c d.files } else d

abbrev is_some : Option Bytes → Bool
is_some none = false
is_some (some c) = true

unfoldable pub file_exists : Disk → Bytes → Bool
file_exists d p = is_some (lookup p d.files)

-- The first of the paths that is a file, and the empty text if none is.
unfoldable pub first_existing : Disk → List Bytes → Bytes
first_existing d [] = []
first_existing d (p ∷ paths) =
    let rest = first_existing d paths in if file_exists d p then p else rest

abbrev pub path_or : Bytes → Bytes → Bytes
path_or q [] = q
path_or q (c ∷ p) = c ∷ p

abbrev pub config_dir : Bytes → Bytes
config_dir log_dir = dir_of (dir_of log_dir) ++ codes "/ServerConfig"

unfoldable pub find_reserved_slots : Disk → Bytes → Bytes
find_reserved_slots d log_dir = first_existing d (
    (config_dir log_dir ++ codes "/ReservedSlots.cfg")
    ∷ codes "/opt/squad/SquadGame/ServerConfig/ReservedSlots.cfg"
    ∷ [])

unfoldable pub find_ban_list : Disk → Bytes → Bytes
find_ban_list d log_dir = first_existing d (
    (config_dir log_dir ++ codes "/BanList.cfg")
    ∷ codes "/opt/squad/SquadGame/ServerConfig/BanList.cfg"
    ∷ [])

unfoldable pub find_admins : Disk → Bytes → Bytes
find_admins d log_dir = first_existing d (
    (config_dir log_dir ++ codes "/Admins.cfg")
    ∷ codes "/opt/squad/SquadGame/ServerConfig/Admins.cfg"
    ∷ [])
