-- ===== src/Relay/Entries.antt =====
-- relay/main.cpp, the configuration files of the game that the relay edits, one entry a line:
-- `unban`, `syncAdmin`, and the two copies of the reserved-slots synchronisation.
pub mod Laws
pub mod Edits
pub mod Admins
pub mod Slots
use mbsquad.Prelude.{
  ℕ, Bool, true, false, not, ◌&&◌, List, [], ◌∷◌, ◌++◌, Option, none, some, ◌==◌, if◌then◌else◌,
  exists, keep,
}
use mbsquad.Prelude.Bytes.{Bytes, codes, utf8, equal, split_at}
use mbsquad.Relay.Files.{
  Disk, trim, split_lines, read_file, write_file, config_dir, find_ban_list, find_admins,
  find_reserved_slots, path_or,
}

-- An exception with its message.
pub data Outcome {ℓ} (A : Type ℓ) : Type ℓ where
  throws : Bytes → Outcome A
  returns : A → Outcome A

abbrev pub is_comment : Bytes → Bool
is_comment [] = true
is_comment (c ∷ t) = c == b'#'

abbrev pub before_colon : Option (Bytes × Bytes) → Option Bytes
before_colon none = none
before_colon (some (front, rest)) = some front

abbrev pub field_of : Bytes → Option (Bytes × Bytes) → Bytes
field_of r none = r
field_of r (some (field, rest)) = field

abbrev pub second_field : Option (Bytes × Bytes) → Option Bytes
second_field none = none
second_field (some (front, r)) = some (field_of r (split_at b':' r))

-- The id that a trimmed line of each file stands for; none for a comment and for a line without one.
unfoldable pub ban_entry : Bytes → Option Bytes
ban_entry t = if is_comment t then none else before_colon (split_at b':' t)

unfoldable pub admin_entry : Bytes → Option Bytes
admin_entry t = if is_comment t then none else second_field (split_at b':' t)

unfoldable pub slot_entry : Bytes → Option Bytes
slot_entry t = if is_comment t then none else some t

abbrev pub is_id : Bytes → Option Bytes → Bool
is_id sid none = false
is_id sid (some id) = equal id sid

abbrev pub crlf : Bytes
crlf = 13 ∷ 10 ∷ []

-- The loop of the three edits: whether a line of the id was found, and the new content. Such a line
-- is copied only where `copies` says so.
unfoldable pub edit_lines :
    (Bytes → Option Bytes) → Bytes → Bool → List Bytes → Bool → Bytes → Bool × Bytes
edit_lines entry sid copies [] found nc = (found, nc)
edit_lines entry sid copies (l ∷ ls) found nc =
    if is_id sid (entry (trim l))
    then edit_lines entry sid copies ls true (if copies then nc ++ (l ++ crlf) else nc)
    else edit_lines entry sid copies ls found (nc ++ (l ++ crlf))

-- `unban`
abbrev pub unban_result : Disk → Bytes → Bytes → Bool → Bytes → Outcome Disk
unban_result d p sid false nc = throws (utf8 "未找到" ++ sid)
unban_result d p sid true nc = returns (write_file d p nc)

abbrev pub unban_at : Disk → Bytes → Bytes → Outcome Disk
unban_at d [] sid = throws (utf8 "找不到BanList.cfg")
unban_at d (c ∷ p) sid =
    let r = edit_lines ban_entry sid false (split_lines (read_file d (c ∷ p))) false [] in
    unban_result d (c ∷ p) sid r.0 r.1

unfoldable pub unban : Disk → Bytes → Bytes → Outcome Disk
unban d log_dir sid = unban_at d (find_ban_list d log_dir) sid

pub record SyncResult : Type 0 where
  pub success : Bool
  pub already : Bool
  pub not_found : Bool

-- The line that `syncAdmin` adds.
unfoldable pub admin_line : Bytes → Bytes → Bytes
admin_line sid lv =
    let is_owner = equal lv (codes "server_owner") in
    codes "Admin:"
    ++ (sid
        ++ (if is_owner
            then codes ":Admin:cankickcanban"
            else codes ":Moderator:canbalancecanrestart"))

abbrev pub sync_result : Bytes → Bool → SyncResult
sync_result act found =
    if equal act (codes "add") && not found
    then record { success = true; already = false; not_found = false }
    else if equal act (codes "add") && found
    then record { success = false; already = true; not_found = false }
    else if equal act (codes "remove") && found
    then record { success = true; already = false; not_found = false }
    else record { success = false; already = false; not_found = true }

-- The content with the line that is added where the id was not found.
abbrev pub with_line : Bool → Bytes → Bool → Bytes → Bytes
with_line adds line found nc = if adds && not found then nc ++ (line ++ crlf) else nc

abbrev pub sync_admin_at : Disk → Bytes → Bytes → Bytes → Bytes → Outcome (SyncResult × Disk)
sync_admin_at d [] sid act lv = throws (utf8 "找不到Admins.cfg")
sync_admin_at d (c ∷ p) sid act lv =
    let r =
      edit_lines admin_entry sid (equal act (codes "add")) (split_lines (read_file d (c ∷ p))) false
        [] in
    returns (
      sync_result act r.0,
      write_file d (c ∷ p) (with_line (equal act (codes "add")) (admin_line sid lv) r.0 r.1),
    )

-- `syncAdmin`. The file is written whatever was asked for.
unfoldable pub sync_admin : Disk → Bytes → Bytes → Bytes → Bytes → Outcome (SyncResult × Disk)
sync_admin d log_dir sid act lv = sync_admin_at d (find_admins d log_dir) sid act lv

-- The path of the reserved slots, made up where there is no such file.
abbrev pub slots_path : Disk → Bytes → Bytes
slots_path d log_dir =
    path_or (config_dir log_dir ++ codes "/ReservedSlots.cfg") (find_reserved_slots d log_dir)

-- The work of `/api/reserved-slots/sync`, after its guards.
unfoldable pub sync_slots : Disk → Bytes → Bytes → Bytes → Disk
sync_slots d log_dir action steam_id =
    let p = slots_path d log_dir in
    let r =
      edit_lines slot_entry steam_id (not (equal action (codes "remove")))
        (split_lines (read_file d p)) false [] in
    write_file d p (with_line (equal action (codes "add")) steam_id r.0 r.1)

-- The ids that a content lists.
unfoldable pub lists : (Bytes → Option Bytes) → Bytes → Bytes → Bool
lists entry content id = exists (λ l. is_id id (entry (trim l))) (split_lines content)

unfoldable pub is_banned : Disk → Bytes → Bytes → Bool
is_banned d log_dir id = lists ban_entry (read_file d (find_ban_list d log_dir)) id

unfoldable pub is_admin : Disk → Bytes → Bytes → Bool
is_admin d log_dir id = lists admin_entry (read_file d (find_admins d log_dir)) id

unfoldable pub has_slot : Disk → Bytes → Bytes → Bool
has_slot d log_dir id = lists slot_entry (read_file d (slots_path d log_dir)) id

abbrev pub synced_disk : Disk → Outcome (SyncResult × Disk) → Disk
synced_disk d (throws message) = d
synced_disk d (returns (r, d')) = d'

abbrev pub succeeded : Outcome (SyncResult × Disk) → Bool
succeeded (throws message) = false
succeeded (returns (r, d')) = r.success

-- The files after a call, and whether it came to its end.
abbrev pub disk_after : Disk → Outcome Disk → Disk
disk_after d (throws message) = d
disk_after d (returns d') = d'

abbrev pub has_returned {ℓ} : {A : Type ℓ} → Outcome A → Bool
has_returned (throws message) = false
has_returned (returns a) = true

abbrev pub list_slots : List Bytes → List Bytes
list_slots [] = []
list_slots (l ∷ ls) =
    let rest = list_slots ls in if is_comment (trim l) then rest else trim l ∷ rest

abbrev slots_at : Disk → Bytes → List Bytes
slots_at d [] = []
slots_at d (c ∷ p) = list_slots (split_lines (read_file d (c ∷ p)))

-- `GET /api/reserved-slots`
unfoldable pub reserved_slots : Disk → Bytes → List Bytes
reserved_slots d log_dir = slots_at d (find_reserved_slots d log_dir)
