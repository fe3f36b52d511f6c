-- ===== src/Tests/Auth.antt =====
-- Runs of src/core/auth.cpp.
use mbsquad.Prelude.{
  ℕ, zero, suc, ◌%◌, subst, sym, ap, ◌-◌, ◌<◌, min, ◌≡◌, refl, ◌↔◌, List, [], ◌∷◌, Option, none,
  some, true, ◌≤◌, arith, length, if◌then◌else◌,
}
use mbsquad.Prelude.Bytes.{Bytes, codes, AllBytes, equal, equal_iff}
use mathlib.Core.Option.{some-injective}
use mbsquad.Prelude.Maps.{lookup}
use mbsquad.Auth.Sessions.{
  AuthTables, find_session, join_user, is_expired, after, session_from, get_session,
}
use mbsquad.Prelude.Maps.{nat_key}
use mbsquad.Auth.Hex.{hex_encode}
use mbsquad.Auth.Password.{Crypto, hash_password, verify_password, verify_password-hash_password}
use mbsquad.Auth.Accounts.{Accounts, register}
use mbsquad.Auth.Accounts.Entry.{owners, register-owners}
use mbsquad.Auth.RateLimit.{Limits, RateLimits, admitted_to, calls_of, admitted_to_opening}
use mbsquad.Auth.Permissions.{
  PermissionRow, all_permissions, default_op_permissions, get_user_permissions, has, mem,
  decided_by, has-get_user_permissions,
}

-- A hash of 64 bytes that depends on the length of the password alone; the empty one is refused.
abbrev copies : ℕ → ℕ → Bytes
copies zero b = []
copies (suc n) b = b ∷ copies n b

abbrev toy_scrypt : Bytes → Bytes → Option Bytes
toy_scrypt [] salt = none
toy_scrypt (c ∷ pw) salt = some (copies 64 (length pw % 256))

copies-AllBytes : (n b : ℕ) → b < 256 → AllBytes (copies n b)
copies-AllBytes zero b h = tt
copies-AllBytes (suc n) b h = (h, copies-AllBytes n b h)

toy_bytes : (pw salt hash : Bytes) → toy_scrypt pw salt ≡ some hash → AllBytes hash
toy_bytes [] salt hash e = absurd (cc e)
toy_bytes (c ∷ pw) salt hash e =
    subst AllBytes (some-injective (copies 64 (length pw % 256)) hash e)
      (copies-AllBytes 64 (length pw % 256) (omega arith))

toy_length : (pw salt hash : Bytes) → toy_scrypt pw salt ≡ some hash → length hash ≡ 64
toy_length [] salt hash e = absurd (cc e)
toy_length (c ∷ pw) salt hash e =
    sym (ap length (some-injective (copies 64 (length pw % 256)) hash e))

abbrev toy : Crypto
toy = record {
  scrypt = toy_scrypt;
  scrypt_bytes = toy_bytes;
  scrypt_length = toy_length;
  same = equal;
  same_iff = λ a b h. equal_iff a b;
}

verify_password-hash_password_example :
    (verify_password toy (codes "abc") (hash_password toy (7 ∷ 200 ∷ []) (codes "xyz")) ≡ true)
    ↔ (toy_scrypt (codes "abc") (hex_encode (7 ∷ 200 ∷ [])) ≡ some (copies 64 2))
verify_password-hash_password_example =
    verify_password-hash_password toy (7 ∷ 200 ∷ []) (codes "xyz") (codes "abc") (copies 64 2)
      (omega arith) refl

abbrev two_tries : Limits
two_tries = record { window = 60; max_attempts = 2 }

abbrev tries : List (Bytes × ℕ)
tries = (codes "a", 20) ∷ (codes "b", 25) ∷ (codes "a", 70) ∷ []

abbrev counted : RateLimits
counted = (codes "a", (1, 10)) ∷ []

admitted_to_opening_example :
    admitted_to two_tries (codes "a") ((codes "a", 15) ∷ tries) []
    ≡ suc (min (calls_of two_tries (codes "a") tries) (2 - 1))
unfolding lookup equal
admitted_to_opening_example =
    admitted_to_opening two_tries (codes "a") 15 tries [] tt
      ((λ e. omega arith), ((λ e. omega arith), ((λ e. omega arith), tt)))

abbrev rows : List PermissionRow
rows =
    record { user_id = 4; permission = codes "rcon"; granted = codes "1" }
    ∷ record { user_id = 4; permission = codes "ban"; granted = codes "0" }
    ∷ []

has-get_user_permissions_example : has (get_user_permissions rows 4 (codes "op")) (codes "ban") ≡ (
    if equal (codes "op") (codes "server_owner")
    then mem (codes "ban") all_permissions
    else decided_by 4 (codes "ban") rows (mem (codes "ban") default_op_permissions))
has-get_user_permissions_example = has-get_user_permissions rows 4 (codes "op") (codes "ban")

abbrev auth_tables : AuthTables
auth_tables = record {
  sessions =
      record {
        token = codes "t1";
        user_id = 4;
        expires_at = codes "2026-01-02";
        last_activity = [];
      }
      ∷ [];
  users = (4, record { username = codes "u"; role = codes "op"; status = codes "active" }) ∷ [];
}

-- The session of the example is valid.
get_session-valid : (get_session (codes "2026-01-01") (codes "t1") auth_tables).0.valid ≡ true
unfolding get_session session_from find_session join_user is_expired after lookup equal
get_session-valid = refl

abbrev founding : Accounts
founding = record { users = []; next_id = 1; sessions = [] }

register-owners_example :
    owners
      (register toy (7 ∷ 200 ∷ []) (codes "t1") 40 (codes "ann") (codes "secret") [] founding).1
    ≤ 1
register-owners_example =
    register-owners toy (7 ∷ 200 ∷ []) (codes "t1") 40 (codes "ann") (codes "secret") [] founding
      (omega arith)
