-- ===== src/Relay/Entries/Admins.antt =====
-- `syncAdmin` of relay/main.cpp against the ids that the file of the administrators lists.
use mbsquad.Prelude.{
  ℕ, Bool, true, false, not, ◌&&◌, ◌||◌, ◌≡◌, refl, sym, ap, ◌∙◌, [], ◌∷◌, ◌++◌, some, arith,
  if◌then◌else◌, Bool-cases, inl, inr, append_assoc, All-append,
}
use mbsquad.Prelude.Bytes.{Bytes, codes, Lacks, equal, equal_iff, split_at, split_at-append}
use mbsquad.Relay.Files.{Disk, is_blank, trim, read_file, write_file, find_admins}
use mbsquad.Relay.Files.Lines.{trim_none}
use mbsquad.Relay.Files.Paths.{read_file-write_file, first_existing_again}
use mbsquad.Relay.Entries.{
  field_of, admin_entry, is_id, sync_admin, sync_admin_at, sync_result, admin_line, is_admin,
  synced_disk, succeeded, lists,
}
use mbsquad.Relay.Entries.Laws.{edited, found-lists, lists-updated}

admins_again :
    (d : Disk) (log_dir : Bytes) (b : ℕ) (p c id : Bytes)
    → find_admins d log_dir ≡ b ∷ p
    → d.writable (b ∷ p) ≡ true
    → is_admin (write_file d (b ∷ p) c) log_dir id ≡ lists admin_entry c id
unfolding is_admin find_admins
admins_again d log_dir b p c id h w =
    ap (λ q. lists admin_entry (read_file (write_file d (b ∷ p) c) q) id)
      (first_existing_again d _ b p c h)
    ∙ ap (λ c. lists admin_entry c id) (read_file-write_file d (b ∷ p) c w)

is_admin_at :
    (d : Disk) (log_dir : Bytes) (b : ℕ) (p id : Bytes)
    → find_admins d log_dir ≡ b ∷ p
    → is_admin d log_dir id ≡ lists admin_entry (read_file d (b ∷ p)) id
unfolding is_admin
is_admin_at d log_dir b p id h = ap (λ q. lists admin_entry (read_file d q) id) h

-- A line of the form that is added stands for the id in it.
admin_entry_of :
    (sid init : Bytes) (c : ℕ)
    → is_blank c ≡ false
    → Lacks b':' sid
    → admin_entry (trim (codes "Admin:" ++ (sid ++ ((b':' ∷ init) ++ (c ∷ []))))) ≡ some sid
unfolding admin_entry split_at
admin_entry_of sid init c hc h =
    ap (λ s. admin_entry (trim (codes "Admin:" ++ s)))
      (sym (append_assoc sid (b':' ∷ init) (c ∷ [])))
    ∙ ap admin_entry (trim_none b'A' (codes "dmin:" ++ (sid ++ (b':' ∷ init))) c refl hc)
    ∙ ap (λ s. admin_entry (codes "Admin:" ++ s)) (append_assoc sid (b':' ∷ init) (c ∷ []))
    ∙ ap (λ o. some (field_of (sid ++ ((b':' ∷ init) ++ (c ∷ []))) o))
        (split_at-append b':' sid (init ++ (c ∷ [])) h)

is_id-admin_line :
    (sid lv id : Bytes)
    → Lacks b':' sid
    → is_id id (admin_entry (trim (admin_line sid lv))) ≡ equal sid id
unfolding admin_line
is_id-admin_line sid lv id h = elim (Bool-cases (equal lv (codes "server_owner"))) [
  | inl e ↦ rw e (ap (is_id id) (admin_entry_of sid (codes "Admin:cankickcanba") b'n' refl h))
  | inr e ↦
      rw e (ap (is_id id) (admin_entry_of sid (codes "Moderator:canbalancecanrestar") b't' refl h))
]

admin_line-Lacks : (sid lv : Bytes) → Lacks 10 sid → Lacks 10 (admin_line sid lv)
unfolding admin_line
admin_line-Lacks sid lv h = elim (Bool-cases (equal lv (codes "server_owner"))) [
  | inl e ↦ rw e (
      All-append _ (codes "Admin:") _ (ground arith)
        (All-append _ sid (codes ":Admin:cankickcanban") h (ground arith)))
  | inr e ↦ rw e (
      All-append _ (codes "Admin:") _ (ground arith)
        (All-append _ sid (codes ":Moderator:canbalancecanrestart") h (ground arith)))
]

abbrev pub succeeds : Bytes → Bool → Bool
succeeds act listed = if listed then equal act (codes "remove") else equal act (codes "add")

-- No action is both of the two.
add_or_remove : (act : Bytes) → (equal act (codes "add") && equal act (codes "remove")) ≡ false
unfolding equal
add_or_remove act = elim (Bool-cases (equal act (codes "add"))) [
  | inl e ↦
      ap (λ a. equal a (codes "add") && equal a (codes "remove")) ((equal_iff act _).0 e) ∙ refl
  | inr e ↦ rw e refl
]

sync_result-success :
    (act : Bytes) (found : Bool) → (sync_result act found).success ≡ succeeds act found
sync_result-success act true = ground (arith, add_or_remove act)
sync_result-success act false = ground (arith, add_or_remove act)

-- What the list has after a call.
abbrev pub synced : Bytes → Bytes → Bytes → Bool → Bool
synced act sid id listed =
    if equal act (codes "add") then listed || equal sid id else not (equal sid id) && listed

-- Where there is a list that can be written, a call answers success just if it changes the list, as
-- asked: an id that was not listed is added, an id that was is removed. After it the list has the id
-- too, if it is added, and otherwise all ids but this one. The id has no colon and no line feed.
pub sync_admin-is_admin :
    (d : Disk) (log_dir sid act lv id : Bytes) (b : ℕ) (p : Bytes)
    → find_admins d log_dir ≡ b ∷ p
    → d.writable (b ∷ p) ≡ true
    → Lacks b':' sid
    → Lacks 10 sid
    → (succeeded (sync_admin d log_dir sid act lv) ≡ succeeds act (is_admin d log_dir sid))
      × (is_admin (synced_disk d (sync_admin d log_dir sid act lv)) log_dir id
          ≡ synced act sid id (is_admin d log_dir id))
unfolding sync_admin
sync_admin-is_admin d log_dir sid act lv id b p h w hc hn =
    let content = read_file d (b ∷ p) in
    let adds = equal act (codes "add") in
    (
      ap (λ q. succeeded (sync_admin_at d q sid act lv)) h
          ∙ sync_result-success act (edited admin_entry sid adds content).0
          ∙ ap (succeeds act)
              (found-lists admin_entry sid adds content ∙ sym (is_admin_at d log_dir b p sid h)),
      ap (λ q. is_admin (synced_disk d (sync_admin_at d q sid act lv)) log_dir id) h
          ∙ admins_again d log_dir b p _ id h w
          ∙ lists-updated admin_entry sid adds adds content (admin_line sid lv) id
              (admin_line-Lacks sid lv hn) (is_id-admin_line sid lv id hc) (λ e. e)
          ∙ as_synced act sid id (lists admin_entry content id)
          ∙ ap (synced act sid id) (sym (is_admin_at d log_dir b p id h)),
    )
  where
    as_synced :
        (act sid id : Bytes) (listed : Bool)
        → (if equal act (codes "add")
            then listed || equal sid id
            else (equal act (codes "add") || not (equal sid id)) && listed)
          ≡ synced act sid id listed
    as_synced act sid id listed = ground arith
