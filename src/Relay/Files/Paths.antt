-- ===== src/Relay/Files/Paths.antt =====
-- Files of relay/main.cpp that are written and looked for again.
use mbsquad.Prelude.{ℕ, true, ◌≡◌, refl, ap, ◌∙◌, List, [], ◌∷◌, arith}
use mbsquad.Prelude.Bytes.{Bytes, equal_iff}
use mbsquad.Prelude.Maps.{bytes_key, lookup-insert, lookup-insert_self}
use mbsquad.Relay.Files.{Disk, read_file, write_file, file_exists, first_existing, path_or}

pub read_file-write_file :
    (d : Disk) (p c : Bytes) → d.writable p ≡ true → read_file (write_file d p c) p ≡ c
unfolding read_file write_file
read_file-write_file d p c h = rw h (rw (lookup-insert_self p c d.files) refl)

-- Writing over a file leaves the same paths.
file_exists-write_file :
    (d : Disk) (p c q : Bytes)
    → file_exists d p ≡ true
    → file_exists (write_file d p c) q ≡ file_exists d q
unfolding file_exists write_file
file_exists-write_file d p c q h = ground (arith, lookup-insert p q c d.files, equal_iff p q)

first_existing-write_file :
    (d : Disk) (p c : Bytes) (paths : List Bytes)
    → file_exists d p ≡ true
    → first_existing (write_file d p c) paths ≡ first_existing d paths
unfolding first_existing
first_existing-write_file d p c [] h = refl
first_existing-write_file d p c (q ∷ paths) h =
    cc (file_exists-write_file d p c q h, first_existing-write_file d p c paths h)

first_existing-file_exists :
    (d : Disk) (paths : List Bytes) (b : ℕ) (p : Bytes)
    → first_existing d paths ≡ b ∷ p
    → file_exists d (b ∷ p) ≡ true
unfolding first_existing
first_existing-file_exists d [] b p h = ground arith
first_existing-file_exists d (q ∷ paths) b p h =
    ground (arith, first_existing-file_exists d paths b p)

-- What is found is found again after it is written.
pub first_existing_again :
    (d : Disk) (paths : List Bytes) (b : ℕ) (p c : Bytes)
    → first_existing d paths ≡ b ∷ p
    → first_existing (write_file d (b ∷ p) c) paths ≡ b ∷ p
first_existing_again d paths b p c h =
    first_existing-write_file d (b ∷ p) c paths (first_existing-file_exists d paths b p h) ∙ h

-- A first path that is written is found, whether or not it was there.
first_existing_new :
    (d : Disk) (q c : Bytes) (paths : List Bytes)
    → d.writable q ≡ true
    → first_existing (write_file d q c) (q ∷ paths) ≡ q
unfolding first_existing file_exists write_file
first_existing_new d q c paths w = rw w (rw (lookup-insert_self q c d.files) refl)

path_or_self : (q : Bytes) → path_or q q ≡ q
path_or_self [] = refl
path_or_self (c ∷ q) = refl

path_or_at :
    (d : Disk) (q c : Bytes) (rest : List Bytes) (found : Bytes)
    → first_existing d (q ∷ rest) ≡ found
    → d.writable (path_or q found) ≡ true
    → path_or q (first_existing (write_file d (path_or q found) c) (q ∷ rest)) ≡ path_or q found
path_or_at d q c rest [] h w = ap (path_or q) (first_existing_new d q c rest w) ∙ path_or_self q
path_or_at d q c rest (b ∷ p) h w = ap (path_or q) (first_existing_again d (q ∷ rest) b p c h)

-- A path that is made up when no file is found is the same one after the file is written.
pub path_or_again :
    (d : Disk) (q c : Bytes) (rest : List Bytes)
    → d.writable (path_or q (first_existing d (q ∷ rest))) ≡ true
    → path_or q
        (first_existing (write_file d (path_or q (first_existing d (q ∷ rest))) c) (q ∷ rest))
      ≡ path_or q (first_existing d (q ∷ rest))
path_or_again d q c rest w = path_or_at d q c rest (first_existing d (q ∷ rest)) refl w
