-- ===== src/Relay/Entries/Edits.antt =====
-- The edits of relay/main.cpp against the ids that the files list: `unban`, `syncAdmin` and the
-- synchronisation of the reserved slots.
use mbsquad.Prelude.{
  ℕ, Bool, true, false, not, ◌&&◌, ◌≡◌, refl, sym, ap, subst, ◌∙◌, ◌∷◌, Option, Bool-cases, inl,
  inr,
}
use mbsquad.Prelude.Bytes.{Bytes, equal, equal_iff}
use mbsquad.Relay.Files.{Disk, read_file, write_file, find_ban_list}
use mbsquad.Relay.Files.Paths.{read_file-write_file, first_existing_again}
use mbsquad.Relay.Entries.{
  ban_entry, unban, unban_at, unban_result, is_banned, disk_after, has_returned, lists,
}
use mbsquad.Relay.Entries.Laws.{edited, found-lists, lists-edited}

ban_list_again :
    (d : Disk) (log_dir : Bytes) (b : ℕ) (p c id : Bytes)
    → find_ban_list d log_dir ≡ b ∷ p
    → d.writable (b ∷ p) ≡ true
    → is_banned (write_file d (b ∷ p) c) log_dir id ≡ lists ban_entry c id
unfolding is_banned find_ban_list
ban_list_again d log_dir b p c id h w =
    ap (λ q. lists ban_entry (read_file (write_file d (b ∷ p) c) q) id)
      (first_existing_again d _ b p c h)
    ∙ ap (λ c. lists ban_entry c id) (read_file-write_file d (b ∷ p) c w)

is_banned_at :
    (d : Disk) (log_dir : Bytes) (b : ℕ) (p id : Bytes)
    → find_ban_list d log_dir ≡ b ∷ p
    → is_banned d log_dir id ≡ lists ban_entry (read_file d (b ∷ p)) id
unfolding is_banned
is_banned_at d log_dir b p id h = ap (λ q. lists ban_entry (read_file d q) id) h

has_returned-unban_result :
    (d : Disk) (p sid : Bytes) (found : Bool) (nc : Bytes)
    → has_returned (unban_result d p sid found nc) ≡ found
has_returned-unban_result d p sid true nc = refl
has_returned-unban_result d p sid false nc = refl

-- Taking out an id that is not there changes nothing.
without_absent :
    (entry : Bytes → Option Bytes) (content sid id : Bytes)
    → lists entry content sid ≡ false
    → lists entry content id ≡ (not (equal sid id) && lists entry content id)
without_absent entry content sid id h = elim (Bool-cases (equal sid id)) [
  | inl e ↦ rw e (subst (λ i. lists entry content i ≡ false) ((equal_iff sid id).0 e) h)
  | inr e ↦ rw e refl
]

-- A call of `unban` comes to its end just if the list has the id, and after it, whichever way it
-- ends, the list has the ids that it had without this one; the list is a file that can be written.
pub unban-is_banned :
    (d : Disk) (log_dir sid id : Bytes) (b : ℕ) (p : Bytes)
    → find_ban_list d log_dir ≡ b ∷ p
    → d.writable (b ∷ p) ≡ true
    → (has_returned (unban d log_dir sid) ≡ is_banned d log_dir sid)
      × (is_banned (disk_after d (unban d log_dir sid)) log_dir id
          ≡ (not (equal sid id) && is_banned d log_dir id))
unfolding unban
unban-is_banned d log_dir sid id b p h w =
    let content = read_file d (b ∷ p) in
    let r = edited ban_entry sid false content in
    let found : r.0 ≡ is_banned d log_dir sid =
      found-lists ban_entry sid false content ∙ sym (is_banned_at d log_dir b p sid h) in
    let old : lists ban_entry content id ≡ is_banned d log_dir id =
      sym (is_banned_at d log_dir b p id h) in
    (
      ap (λ q. has_returned (unban_at d q sid)) h
          ∙ has_returned-unban_result d (b ∷ p) sid r.0 r.1
          ∙ found,
      ap (λ q. is_banned (disk_after d (unban_at d q sid)) log_dir id) h ∙ elim (Bool-cases r.0) [
        | inl e ↦
            ap (λ f. is_banned (disk_after d (unban_result d (b ∷ p) sid f r.1)) log_dir id) e
            ∙ ban_list_again d log_dir b p r.1 id h w
            ∙ lists-edited ban_entry sid false content id
            ∙ ap (not (equal sid id) &&◌) old
        | inr e ↦
            ap (λ f. is_banned (disk_after d (unban_result d (b ∷ p) sid f r.1)) log_dir id) e
            ∙ sym old
            ∙ without_absent ban_entry content sid id
                (sym (found-lists ban_entry sid false content) ∙ e)
            ∙ ap (not (equal sid id) &&◌) old
      ],
    )
