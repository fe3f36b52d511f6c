-- ===== src/Logs/Tail.antt =====
-- src/core/local_log_tailer.cpp. The file system's answers are an argument of each round: whether the
-- file is there, its size, and what is in it when it is opened. The stream keeps the two error bits of
-- `std::ifstream`, as `getline`, `seekg` and `tellg` set and read them.
pub mod Once
pub mod Appended
pub mod Servers
use mbsquad.Prelude.{
  ℕ, ◌-◌, ◌^◌, Bool, true, false, not, ◌&&◌, ◌||◌, List, [], ◌∷◌, Option, none, some, ltb, leb,
  ◌==◌, if◌then◌else◌, length, drop, map, keep,
}
use mbsquad.Prelude.Bytes.{Bytes, codes, equal, get_lines}
use mbsquad.Prelude.Int.{ℤ, eqb_ℤ}
use mbsquad.Core.Numbers.{stoi}

pub record Stream : Type 0 where
  pub contents : Bytes
  pub at : ℕ
  pub eofbit : Bool
  pub failbit : Bool

abbrev pub opened_at : Bytes → Stream
opened_at contents = record { contents = contents; at = 0; eofbit = false; failbit = false }

-- `seekg` takes the end bit away, and moves a stream that has not failed.
abbrev pub seekg : ℕ → Stream → Stream
seekg n s = record s { at = if s.failbit then s.at else n; eofbit = false }

abbrev pub seekg_end : Stream → Stream
seekg_end s = seekg (length s.contents) s

abbrev pub minus_one : ℕ
minus_one = 2 ^ 64 - 1

-- `tellg`, as it is stored in a `uint64_t`: of a failed stream it is -1.
abbrev pub tellg : Stream → ℕ
tellg s = if s.failbit then minus_one else s.at

-- The loop on `getline` ends with the call that finds nothing, which sets both bits.
abbrev pub read_lines : Stream → List Bytes × Stream
read_lines s = (
  if s.failbit then [] else get_lines (drop s.at s.contents),
  record s { at = if s.failbit then s.at else length s.contents; eofbit = true; failbit = true },
)

unfoldable pub drop_return : Bytes → Bytes
drop_return [] = []
drop_return (c ∷ []) = if c == 13 then [] else c ∷ []
drop_return (c ∷ d ∷ s) = c ∷ drop_return (d ∷ s)

abbrev pub is_text : Bytes → Bool
is_text [] = false
is_text (c ∷ s) = true

unfoldable pub clean_lines : List Bytes → List Bytes
clean_lines lines = keep is_text (map drop_return lines)

-- What a round finds: none for a size that cannot be had, and for a file that cannot be opened.
pub record Look : Type 0 where
  pub exists : Bool
  pub size : Option ℕ
  pub opened : Option Bytes

-- The position after the lines are read.
unfoldable pub next_position : Stream → ℕ
next_position s = if tellg s == minus_one then tellg (seekg_end s) else tellg s

unfoldable pub read_file : ℕ → Bytes → List Bytes × ℕ
read_file last_file_pos contents =
    let r = read_lines (seekg last_file_pos (opened_at contents)) in
    (clean_lines r.0, next_position r.1)

abbrev pub read_opened : ℕ → Option Bytes → List Bytes × ℕ
read_opened last_file_pos none = ([], last_file_pos)
read_opened last_file_pos (some contents) = read_file last_file_pos contents

abbrev pub read_sized : ℕ → Option ℕ → Option Bytes → List Bytes × ℕ
read_sized last_file_pos none opened = ([], last_file_pos)
read_sized last_file_pos (some size) opened =
    if leb size last_file_pos then ([], last_file_pos) else read_opened last_file_pos opened

-- The lines, none of them where the call is false, and the position.
unfoldable pub read_new_lines : Look → ℕ → List Bytes × ℕ
read_new_lines look last_file_pos =
    if look.exists then read_sized last_file_pos look.size look.opened else ([], last_file_pos)

abbrev positive : ℕ → ℕ → ℕ
positive last_file_pos size = if ltb 0 size then size else last_file_pos

abbrev start_sized : ℕ → Option ℕ → ℕ
start_sized last_file_pos none = last_file_pos
start_sized last_file_pos (some size) = positive last_file_pos size

-- The position that the loop starts with: the end of the file, if there is one.
unfoldable pub start_position : Look → ℕ → ℕ
start_position look last_file_pos =
    if look.exists then start_sized last_file_pos look.size else last_file_pos

-- The rounds of the loop of `tailLoop`: the batches that are handed to `postRawLines`.
unfoldable pub tail_rounds : List Look → ℕ → List (List Bytes)
tail_rounds [] last_file_pos = []
tail_rounds (look ∷ looks) last_file_pos =
    let r = read_new_lines look last_file_pos in r.0 ∷ tail_rounds looks r.1

-- `tailLoop`, over what it finds at first and in each of its rounds.
unfoldable pub tail_loop : Look → List Look → ℕ → List (List Bytes)
tail_loop first looks last_file_pos = tail_rounds looks (start_position first last_file_pos)

-- `postRawLines`: none where nothing is sent.
abbrev pub post_raw_lines : List Bytes → Bytes → Option (List Bytes)
post_raw_lines [] api_key = none
post_raw_lines (line ∷ lines) [] = none
post_raw_lines (line ∷ lines) (c ∷ api_key) = some (line ∷ lines)

pub record LocalLogTailer : Type 0 where
  pub server_id : ℤ
  pub log_path : Bytes
  pub api_key : Bytes
  pub running : Bool

abbrev start : LocalLogTailer → LocalLogTailer
start t = record t { running = true }

abbrev pub is_tailed : ℤ → List LocalLogTailer → Bool
is_tailed server_id [] = false
is_tailed server_id (t ∷ tailers) = eqb_ℤ t.server_id server_id || is_tailed server_id tailers

-- The new tailer, at the end.
unfoldable pub push_back : List LocalLogTailer → LocalLogTailer → List LocalLogTailer
push_back [] t = t ∷ []
push_back (u ∷ tailers) t = u ∷ push_back tailers t

unfoldable pub start_server : ℤ → Bytes → Bytes → List LocalLogTailer → List LocalLogTailer
start_server server_id log_path api_key tailers =
    if is_tailed server_id tailers
    then tailers
    else push_back tailers (
        start (record {
          server_id = server_id;
          log_path = log_path;
          api_key = api_key;
          running = false;
        }))

-- The first tailer of the server is stopped and thrown away.
unfoldable pub stop_server : ℤ → List LocalLogTailer → List LocalLogTailer
stop_server server_id [] = []
stop_server server_id (t ∷ tailers) =
    if eqb_ℤ t.server_id server_id then tailers else t ∷ stop_server server_id tailers

abbrev pub stop_all : List LocalLogTailer → List LocalLogTailer
stop_all tailers = []

-- A row of `servers` as the query gives it: texts, an empty one for NULL.
pub record LocalServer : Type 0 where
  pub id : Bytes
  pub connection_mode : Bytes
  pub log_path : Bytes
  pub server_api_key : Bytes

-- The condition of the query.
abbrev pub is_local : LocalServer → Bool
is_local row = equal row.connection_mode (codes "local") && is_text row.log_path

abbrev pub start_row : LocalServer → List LocalLogTailer → Option ℤ → Option (List LocalLogTailer)
start_row row tailers none = none
start_row row tailers (some id) = some (start_server id row.log_path row.server_api_key tailers)

abbrev pub go_on :
    (List LocalLogTailer → List LocalLogTailer × Bool)
    → List LocalLogTailer
    → Option (List LocalLogTailer)
    → List LocalLogTailer × Bool
go_on again tailers none = (tailers, false)
go_on again tailers (some started) = again started

-- The rows before one at which `stoi` throws have their tailers.
abbrev pub start_rows : List LocalServer → List LocalLogTailer → List LocalLogTailer × Bool
start_rows [] tailers = (tailers, true)
start_rows (row ∷ rows) tailers =
    go_on (start_rows rows) tailers (start_row row tailers (stoi row.id))

-- Whether it came to the end, or `stoi` threw at a row.
unfoldable pub start_all : List LocalServer → List LocalLogTailer → List LocalLogTailer × Bool
start_all rows tailers = start_rows (keep is_local rows) tailers
