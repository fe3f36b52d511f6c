-- ===== src/Tests/Relay.antt =====
-- Runs of the relay, relay/main.cpp.
use mbsquad.Prelude.{◌≡◌, refl, true, false, not, ◌&&◌, [], ◌∷◌}
use mbsquad.Prelude.Bytes.{Bytes, codes, equal, split_at, get_lines}
use mbsquad.Prelude.Maps.{bytes_key, lookup, insert}
use mbsquad.Logs.Tail.{drop_return}
use mbsquad.Relay.Files.{
  Disk, trim, skip_blanks, drop_blanks, split_last, dir_of, split_lines, read_file, write_file,
  file_exists, first_existing, find_ban_list, find_admins,
}
use mbsquad.Relay.Entries.{
  ban_entry, admin_entry, edit_lines, lists, unban, sync_admin, is_banned, is_admin, disk_after,
  has_returned, synced_disk, succeeded,
}
use mbsquad.Relay.Entries.Edits.{unban-is_banned}
use mbsquad.Relay.Entries.Admins.{succeeds, synced, sync_admin-is_admin}

abbrev log_dir : Bytes
log_dir = codes "/squad/Saved/Logs"

abbrev disk : Disk
disk = record {
  files =
      (codes "/squad/ServerConfig/BanList.cfg", codes "#7656:0\r\n7656:0\r\n 7657:0 // x\n")
      ∷ (codes "/squad/ServerConfig/Admins.cfg", codes "Admin:7656:Admin:cankickcanban\r\n")
      ∷ [];
  writable = λ p. true;
}

unban_run : disk_after disk (unban disk log_dir (codes "7656")) ≡ record disk {
  files =
      (codes "/squad/ServerConfig/BanList.cfg", codes "#7656:0\r\n 7657:0 // x\r\n")
      ∷ (codes "/squad/ServerConfig/Admins.cfg", codes "Admin:7656:Admin:cankickcanban\r\n")
      ∷ [];
}
unfolding unban find_ban_list first_existing file_exists dir_of split_last lookup equal read_file
    split_lines get_lines drop_return trim skip_blanks drop_blanks edit_lines ban_entry split_at
    write_file insert
unban_run = refl

unban-is_banned_example :
    (has_returned (unban disk log_dir (codes "7656")) ≡ is_banned disk log_dir (codes "7656"))
    × (is_banned (disk_after disk (unban disk log_dir (codes "7656"))) log_dir (codes "7657")
        ≡ (not (equal (codes "7656") (codes "7657")) && is_banned disk log_dir (codes "7657")))
unfolding find_ban_list first_existing file_exists dir_of split_last lookup equal
unban-is_banned_example =
    unban-is_banned disk log_dir (codes "7656") (codes "7657") b'/'
      (codes "squad/ServerConfig/BanList.cfg") refl refl

-- An action that is neither of the two takes the administrator out, and answers that it was not found.
sync_admin_unknown :
    (succeeded (sync_admin disk log_dir (codes "7656") (codes "check") []) ≡ false)
    × (is_admin
          (synced_disk disk (sync_admin disk log_dir (codes "7656") (codes "check") []))
          log_dir
          (codes "7656")
        ≡ false)
unfolding sync_admin find_admins first_existing file_exists dir_of split_last lookup equal read_file
    split_lines get_lines drop_return trim skip_blanks drop_blanks edit_lines admin_entry split_at
    write_file insert is_admin lists
sync_admin_unknown = (refl, refl)

sync_admin-is_admin_example :
    (succeeded (sync_admin disk log_dir (codes "7658") (codes "add") (codes "server_owner"))
      ≡ succeeds (codes "add") (is_admin disk log_dir (codes "7658")))
    × (is_admin
          (synced_disk disk
            (sync_admin disk log_dir (codes "7658") (codes "add") (codes "server_owner")))
          log_dir
          (codes "7658")
        ≡ synced (codes "add") (codes "7658") (codes "7658") (is_admin disk log_dir (codes "7658")))
unfolding find_admins first_existing file_exists dir_of split_last lookup equal
sync_admin-is_admin_example =
    sync_admin-is_admin disk log_dir (codes "7658") (codes "add") (codes "server_owner")
      (codes "7658") b'/' (codes "squad/ServerConfig/Admins.cfg") refl refl
      (refl, (refl, (refl, (refl, tt)))) (refl, (refl, (refl, (refl, tt))))
