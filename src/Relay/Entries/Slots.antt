-- ===== src/Relay/Entries/Slots.antt =====
-- The synchronisation of the reserved slots in relay/main.cpp against the ids that the file lists.
use mbsquad.Prelude.{Bool, true, false, not, ◌&&◌, ◌||◌, ◌≡◌, refl, ap, ◌∙◌, arith, if◌then◌else◌}
use mbsquad.Prelude.Bytes.{Bytes, codes, Lacks, equal, equal_iff}
use mbsquad.Relay.Files.{Disk, trim, read_file, write_file, find_reserved_slots}
use mbsquad.Relay.Files.Paths.{read_file-write_file, path_or_again}
use mbsquad.Relay.Entries.{slot_entry, is_id, is_comment, slots_path, sync_slots, has_slot, lists}
use mbsquad.Relay.Entries.Laws.{lists-updated}

-- The path is the same after the file is written, also where it was made up.
slots_path_again :
    (d : Disk) (log_dir c : Bytes)
    → d.writable (slots_path d log_dir) ≡ true
    → slots_path (write_file d (slots_path d log_dir) c) log_dir ≡ slots_path d log_dir
unfolding find_reserved_slots
slots_path_again d log_dir c w = path_or_again d _ c _ w

slots_again :
    (d : Disk) (log_dir c id : Bytes)
    → d.writable (slots_path d log_dir) ≡ true
    → has_slot (write_file d (slots_path d log_dir) c) log_dir id ≡ lists slot_entry c id
unfolding has_slot
slots_again d log_dir c id w =
    ap (λ q. lists slot_entry (read_file (write_file d (slots_path d log_dir) c) q) id)
      (slots_path_again d log_dir c w)
    ∙ ap (λ c. lists slot_entry c id) (read_file-write_file d (slots_path d log_dir) c w)

is_id-slot :
    (sid id : Bytes)
    → trim sid ≡ sid
    → is_comment sid ≡ false
    → is_id id (slot_entry (trim sid)) ≡ equal sid id
unfolding slot_entry
is_id-slot sid id ht hc = rw ht (rw hc refl)

-- What the list has after a call: with "add" the id too, with "remove" all but the id, and with any
-- other action what it had.
abbrev pub slots_after : Bytes → Bytes → Bytes → Bool → Bool
slots_after action sid id listed =
    if equal action (codes "add")
    then listed || equal sid id
    else if equal action (codes "remove")
    then not (equal sid id) && listed
    else listed

copied_if_added :
    (action : Bytes)
    → equal action (codes "add") ≡ true
    → not (equal action (codes "remove")) ≡ true
unfolding equal
copied_if_added action e =
    ap (λ a. not (equal a (codes "remove"))) ((equal_iff action (codes "add")).0 e)

as_slots_after :
    (action sid id : Bytes) (listed : Bool)
    → (if equal action (codes "add")
        then listed || equal sid id
        else (not (equal action (codes "remove")) || not (equal sid id)) && listed)
      ≡ slots_after action sid id listed
as_slots_after action sid id listed = ground arith

-- After a call the file of the reserved slots lists what the action asks for, where it can be written,
-- also if there was no such file; the id has no blanks at its ends, no line feed and no leading `#`.
pub sync_slots-has_slot :
    (d : Disk) (log_dir action sid id : Bytes)
    → d.writable (slots_path d log_dir) ≡ true
    → trim sid ≡ sid
    → is_comment sid ≡ false
    → Lacks 10 sid
    → has_slot (sync_slots d log_dir action sid) log_dir id
      ≡ slots_after action sid id (has_slot d log_dir id)
unfolding sync_slots has_slot
sync_slots-has_slot d log_dir action sid id w ht hc hn =
    let content = read_file d (slots_path d log_dir) in
    slots_again d log_dir _ id w
    ∙ lists-updated slot_entry sid (not (equal action (codes "remove")))
        (equal action (codes "add")) content sid id hn (is_id-slot sid id ht hc)
        (copied_if_added action)
    ∙ as_slots_after action sid id (lists slot_entry content id)
