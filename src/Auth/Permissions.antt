-- ===== src/Auth/Permissions.antt =====
-- The permissions of src/core/auth.cpp. The table `user_permissions` is the list of its rows, in
-- the order in which they were inserted.
use mbsquad.Prelude.{
  ℕ, ◌≡◌, refl, ap, sym, ◌∙◌, Bool, true, false, ◌&&◌, List, [], ◌∷◌, ◌++◌, Option, none, some,
  arith, ◌==◌, if◌then◌else◌, Bool-cases, Option-cases, inl, inr, All, and_true, ==_iff,
}
use mathlib.Core.Bool.{false≢true}
use mbsquad.Prelude.Bytes.{Bytes, codes, equal, equal_iff, equal_refl}
use mbsquad.Prelude.Maps.{lookup, insert, lookup-insert, bytes_key}

-- `ALL_PERMISSIONS`
abbrev pub all_permissions : List Bytes
all_permissions =
    codes "players"
    ∷ codes "kick"
    ∷ codes "ban"
    ∷ codes "reserved"
    ∷ codes "tk"
    ∷ codes "points"
    ∷ codes "quick_commands"
    ∷ codes "rcon"
    ∷ codes "settings"
    ∷ codes "user_admin"
    ∷ codes "plugins"
    ∷ []

-- `DEFAULT_OP_PERMISSIONS`
abbrev pub default_op_permissions : List Bytes
default_op_permissions =
    codes "players"
    ∷ codes "kick"
    ∷ codes "ban"
    ∷ codes "reserved"
    ∷ codes "tk"
    ∷ codes "points"
    ∷ codes "quick_commands"
    ∷ []

pub record PermissionRow : Type 0 where
  pub user_id : ℕ
  pub permission : Bytes
  pub granted : Bytes

abbrev pub Permissions : Type 0
Permissions = List (Bytes × Bool)

-- `for (auto& p : names) result.perms[p] = value;`
pub set_all : List Bytes → Bool → Permissions → Permissions
set_all [] value perms = perms
set_all (p ∷ names) value perms = set_all names value (insert p value perms)

-- The second loop: a name that is not there yet is set to `false`.
pub set_missing : List Bytes → Permissions → Permissions
set_missing [] perms = perms
set_missing (p ∷ names) perms =
    set_missing names (elim (lookup p perms) [ none ↦ insert p false perms | some _ ↦ perms ])

-- The rows that `SELECT … WHERE userId = ?` returns, each put into the map.
pub apply_rows : ℕ → List PermissionRow → Permissions → Permissions
apply_rows user_id [] perms = perms
apply_rows user_id (row ∷ rows) perms = apply_rows user_id rows (
    if row.user_id == user_id
    then insert row.permission (equal row.granted (codes "1")) perms
    else perms)

pub get_user_permissions : List PermissionRow → ℕ → Bytes → Permissions
get_user_permissions rows user_id role =
    if equal role (codes "server_owner")
    then set_all all_permissions true []
    else apply_rows user_id rows
        (set_missing all_permissions (set_all default_op_permissions true []))

abbrev is_set : Option Bool → Bool
is_set none = false
is_set (some value) = value

-- `Permissions::has`
pub has : Permissions → Bytes → Bool
has perms p = is_set (lookup p perms)

abbrev pub mem : Bytes → List Bytes → Bool
mem p [] = false
mem p (q ∷ names) = if equal q p then true else mem p names

-- The last row of the user about the permission decides; without one the default does.
pub decided_by : ℕ → Bytes → List PermissionRow → Bool → Bool
decided_by user_id p [] default = default
decided_by user_id p (row ∷ rows) default = decided_by user_id p rows (
    if row.user_id == user_id && equal row.permission p
    then equal row.granted (codes "1")
    else default)

has-insert :
    (p q : Bytes) (value : Bool) (perms : Permissions)
    → has (insert q value perms) p ≡ (if equal q p then value else has perms p)
unfolding has
has-insert p q value perms = ground (arith, lookup-insert q p value perms)

has-set_all :
    (names : List Bytes) (p : Bytes) (perms : Permissions)
    → has (set_all names true perms) p ≡ (if mem p names then true else has perms p)
unfolding set_all
has-set_all [] p perms = refl
has-set_all (q ∷ names) p perms =
    has-set_all names p (insert q true perms) ∙ ground (arith, has-insert p q true perms)

has_missing :
    (p q : Bytes) (perms : Permissions)
    → has (elim (lookup q perms) [ none ↦ insert q false perms | some _ ↦ perms ]) p ≡ has perms p
unfolding has
has_missing p q perms = elim (Option-cases (lookup q perms)) [
  | inl e ↦ rw e (elim (Bool-cases (equal q p)) [
    | inl same ↦ rw (lookup-insert q p false perms) (rw (same, ← (equal_iff q p).0 same) (rw e))
    | inr other ↦ rw (lookup-insert q p false perms) (rw other)
  ])
  | inr (v, e) ↦ rw e
]

has-set_missing :
    (names : List Bytes) (p : Bytes) (perms : Permissions)
    → has (set_missing names perms) p ≡ has perms p
unfolding set_missing
has-set_missing [] p perms = refl
has-set_missing (q ∷ names) p perms = has-set_missing names p _ ∙ has_missing p q perms

has-apply_rows :
    (user_id : ℕ) (rows : List PermissionRow) (p : Bytes) (perms : Permissions)
    → has (apply_rows user_id rows perms) p ≡ decided_by user_id p rows (has perms p)
unfolding apply_rows decided_by
has-apply_rows user_id [] p perms = refl
has-apply_rows user_id (row ∷ rows) p perms =
    has-apply_rows user_id rows p _
    ∙ ap (decided_by user_id p rows) (elim (Bool-cases (row.user_id == user_id)) [
      | inl own ↦ rw own (has-insert p row.permission (equal row.granted (codes "1")) perms)
      | inr other ↦ rw other
    ])

has-nil : (p : Bytes) → has [] p ≡ false
unfolding has lookup
has-nil p = refl

Bool-eta : (b : Bool) → (if b then true else false) ≡ b
Bool-eta true = refl
Bool-eta false = refl

has_defaults : (names : List Bytes) (p : Bytes) → has (set_all names true []) p ≡ mem p names
has_defaults names p = has-set_all names p [] ∙ rw (has-nil p) (Bool-eta (mem p names))

-- An owner has every permission and no other; anyone else has what the user's last row about it
-- says, and the default where there is no row.
pub has-get_user_permissions :
    (rows : List PermissionRow) (user_id : ℕ) (role p : Bytes)
    → has (get_user_permissions rows user_id role) p ≡ (
        if equal role (codes "server_owner")
        then mem p all_permissions
        else decided_by user_id p rows (mem p default_op_permissions))
unfolding get_user_permissions
has-get_user_permissions rows user_id role p =
    elim (Bool-cases (equal role (codes "server_owner"))) [
      | inl owner ↦ rw owner (has_defaults all_permissions p)
      | inr other ↦ rw other (
          has-apply_rows user_id rows p _
          ∙ ap (decided_by user_id p rows)
              (has-set_missing all_permissions p _ ∙ has_defaults default_op_permissions p))
    ]

-- `INSERT OR IGNORE`: the pair of user and permission is unique.
abbrev has_row : ℕ → Bytes → List PermissionRow → Bool
has_row user_id p [] = false
has_row user_id p (row ∷ rows) =
    if row.user_id == user_id && equal row.permission p then true else has_row user_id p rows

insert_or_ignore : ℕ → Bytes → List PermissionRow → List PermissionRow
insert_or_ignore user_id p rows =
    if has_row user_id p rows
    then rows
    else rows ++ record { user_id = user_id; permission = p; granted = codes "1" } ∷ []

insert_names : List Bytes → ℕ → List PermissionRow → List PermissionRow
insert_names [] user_id rows = rows
insert_names (p ∷ names) user_id rows = insert_names names user_id (insert_or_ignore user_id p rows)

pub insert_default_permissions : ℕ → List PermissionRow → List PermissionRow
insert_default_permissions = insert_names default_op_permissions

decided_by-append :
    (user_id : ℕ) (p : Bytes) (rows : List PermissionRow) (row : PermissionRow) (default : Bool)
    → decided_by user_id p (rows ++ row ∷ []) default ≡ (
        if row.user_id == user_id && equal row.permission p
        then equal row.granted (codes "1")
        else decided_by user_id p rows default)
unfolding decided_by
decided_by-append user_id p [] row default = refl
decided_by-append user_id p (r ∷ rows) row default = decided_by-append user_id p rows row _

absurd_bool {ℓ} : {A : Type ℓ} → true ≡ false → A
absurd_bool e = absurd (false≢true (sym e))

decided_by_no_row :
    (user_id : ℕ) (p : Bytes) (rows : List PermissionRow) (default : Bool)
    → has_row user_id p rows ≡ false
    → decided_by user_id p rows default ≡ default
unfolding decided_by
decided_by_no_row user_id p [] default h = refl
decided_by_no_row user_id p (row ∷ rows) default h =
    elim (Bool-cases (row.user_id == user_id && equal row.permission p)) [
      | inl own ↦ absurd_bool (rw own at h)
      | inr other ↦ rw other (decided_by_no_row user_id p rows default (rw other at h))
    ]

-- A row of a name that the default grants leaves every answer as it was.
decided_by-insert_or_ignore :
    (user_id u : ℕ) (p q : Bytes) (rows : List PermissionRow)
    → mem q default_op_permissions ≡ true
    → decided_by u p (insert_or_ignore user_id q rows) (mem p default_op_permissions)
      ≡ decided_by u p rows (mem p default_op_permissions)
unfolding insert_or_ignore
decided_by-insert_or_ignore user_id u p q rows listed = elim (Bool-cases (has_row user_id q rows)) [
  | inl old ↦ rw old
  | inr new ↦ rw new (
      decided_by-append u p rows _ (mem p default_op_permissions)
      ∙ elim (Bool-cases (user_id == u && equal q p)) [
        | inr other ↦ rw other
        | inl own ↦
            let (user, name) = and_true (user_id == u) (equal q p) own in
            let same_user = (==_iff user_id u).0 user in
            let same_name = (equal_iff q p).0 name in
            rw own (
              equal_refl (codes "1")
              ∙ sym (
                  decided_by_no_row u p rows (mem p default_op_permissions)
                    (rw (← same_user, ← same_name) new)
                  ∙ rw (← same_name) listed))
      ])
]

decided_by-insert_names :
    (names : List Bytes) (user_id u : ℕ) (p : Bytes) (rows : List PermissionRow)
    → All (λ q. mem q default_op_permissions ≡ true) names
    → decided_by u p (insert_names names user_id rows) (mem p default_op_permissions)
      ≡ decided_by u p rows (mem p default_op_permissions)
unfolding insert_names
decided_by-insert_names [] user_id u p rows h = refl
decided_by-insert_names (q ∷ names) user_id u p rows (listed, h) =
    decided_by-insert_names names user_id u p (insert_or_ignore user_id q rows) h
    ∙ decided_by-insert_or_ignore user_id u p q rows listed

defaults_listed : All (λ q. mem q default_op_permissions ≡ true) default_op_permissions
unfolding equal
defaults_listed = (refl, (refl, (refl, (refl, (refl, (refl, (refl, tt)))))))

-- The rows that are inserted for an approved user say what holds without them: no permission of
-- anyone changes, and an answer that was set before, a refusal too, is kept.
pub has-insert_default_permissions :
    (rows : List PermissionRow) (user_id u : ℕ) (role p : Bytes)
    → has (get_user_permissions (insert_default_permissions user_id rows) u role) p
      ≡ has (get_user_permissions rows u role) p
unfolding insert_default_permissions
has-insert_default_permissions rows user_id u role p =
    has-get_user_permissions (insert_names default_op_permissions user_id rows) u role p
    ∙ ap (λ b. if equal role (codes "server_owner") then mem p all_permissions else b)
        (decided_by-insert_names default_op_permissions user_id u p rows defaults_listed)
    ∙ sym (has-get_user_permissions rows u role p)
