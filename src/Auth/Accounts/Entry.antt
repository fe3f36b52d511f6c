-- ===== src/Auth/Accounts/Entry.antt =====
-- Who gets in.
use mbsquad.Prelude.{
  ℕ, ◌≤◌, Bool, true, false, List, [], ◌∷◌, ◌++◌, length, length-keep-le, keep, ◌≡◌, refl, sym,
  subst, arith, Option-cases, inl, inr,
}
use mbsquad.Prelude.Bytes.{Bytes, codes, equal}
use mbsquad.Auth.Password.{Crypto, hash_password}
use mbsquad.Auth.Accounts.{
  AccountRow, Accounts, check_registration, new_row, is_none, admit, register,
}

abbrev pub is_owner : ℕ × AccountRow → Bool
is_owner u = equal u.1.role (codes "server_owner")

-- The accounts that own the panel.
abbrev pub owners : Accounts → ℕ
owners t = length (keep is_owner t.users)

keep-append_other :
    (users : List (ℕ × AccountRow)) (u : ℕ × AccountRow)
    → is_owner u ≡ false
    → length (keep is_owner (users ++ (u ∷ []))) ≡ length (keep is_owner users)
keep-append_other [] u h = rw h refl
keep-append_other (v ∷ users) u h = ground (arith, keep-append_other users u h)

pending_other : equal (codes "pending") (codes "server_owner") ≡ false
unfolding equal
pending_other = refl

nil_of_is_none : (users : List (ℕ × AccountRow)) → is_none users ≡ true → users ≡ []
nil_of_is_none [] h = refl
nil_of_is_none (u ∷ users) h = cc h

admit-owners :
    (token : Bytes) (now : ℕ) (username hash steam_id : Bytes) (first : Bool) (t : Accounts)
    → is_none t.users ≡ first
    → owners t ≤ 1
    → owners (admit token now (new_row username hash steam_id first) first t).1 ≤ 1
unfolding admit
admit-owners token now username hash steam_id false t e h = omega (
  arith,
  h,
  keep-append_other t.users (t.next_id, new_row username hash steam_id false) pending_other,
)
admit-owners token now username hash steam_id true t e h =
    let u : ℕ × AccountRow = (t.next_id, new_row username hash steam_id true) in
    subst (λ us. length (keep is_owner (us ++ (u ∷ []))) ≤ 1) (sym (nil_of_is_none t.users e))
      (length-keep-le is_owner (u ∷ []))

-- No registration, accepted or refused, makes a second owner of the panel.
pub register-owners :
    (crypto : Crypto) (random token : Bytes) (now : ℕ) (username password steam_id : Bytes)
    (t : Accounts)
    → owners t ≤ 1
    → owners (register crypto random token now username password steam_id t).1 ≤ 1
unfolding register
register-owners crypto random token now username password steam_id t h =
    elim (Option-cases (check_registration username password steam_id t)) [
      | inl good ↦ rw good (
          admit-owners token now username (hash_password crypto random password) steam_id
            (is_none t.users) t refl h)
      | inr (why, e) ↦ rw e h
    ]
