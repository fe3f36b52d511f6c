-- ===== src/Auth/Accounts.antt =====
-- src/handlers/auth_handler.cpp: the accounts and the sessions that are opened and closed. The salt, the
-- token and the clocks are arguments; a time is a number of seconds.
pub mod Entry
use mbsquad.Prelude.{
  ℕ, suc, ◌+◌, ◌-◌, Bool, true, false, not, ◌&&◌, ◌||◌, List, [], ◌∷◌, ◌++◌, Option, none, some,
  ltb, ◌==◌, if◌then◌else◌, length, take, drop, keep, exists,
}
use mbsquad.Prelude.Bytes.{Bytes, codes, equal, strip_prefix}
use mbsquad.Core.Numbers.{is_digit}
use mbsquad.Auth.Password.{Crypto, hash_password, verify_password}
use mbsquad.Auth.RateLimit.{Limits, RateLimits, check_rate_limit}

-- A row of `users`.
pub record AccountRow : Type 0 where
  pub username : Bytes
  pub password_hash : Bytes
  pub role : Bytes
  pub status : Bytes
  pub steam_id : Bytes

-- A row of `sessions`.
pub record OpenSession : Type 0 where
  pub token : Bytes
  pub user_id : ℕ
  pub expires_at : ℕ

pub record Accounts : Type 0 where
  pub users : List (ℕ × AccountRow)
  pub next_id : ℕ
  pub sessions : List OpenSession

pub data Reply : Type 0 where
  refused : Bytes → Reply
  waiting : Reply
  opened : Bytes → ℕ → Bytes → Reply

unfoldable pub find_user : Bytes → List (ℕ × AccountRow) → Option (ℕ × AccountRow)
find_user username [] = none
find_user username ((id, row) ∷ users) =
    let rest = find_user username users in
    if equal row.username username then some (id, row) else rest

pub is_steam_id : Bytes → Bool
is_steam_id s =
    length s == 17 && equal (take 8 s) (codes "76561198") && not (exists (λ c. not (is_digit c)) s)

-- The first refusal, if there is one.
unfoldable pub check_registration : Bytes → Bytes → Bytes → Accounts → Option Bytes
check_registration username password steam_id t =
    if equal username [] || equal password []
    then some (codes "username and password required")
    else if ltb (length username) 3 || ltb 32 (length username)
    then some (codes "Username 3-32 chars")
    else if ltb (length password) 6
    then some (codes "Password min 6 chars")
    else if exists (λ u. equal u.1.username username) t.users
    then some (codes "Username taken")
    else if not (equal steam_id []) && not (is_steam_id steam_id)
    then some (codes "SteamID format error")
    else none

unfoldable pub week : ℕ
week = 604800

abbrev pub open_session : Bytes → ℕ → ℕ → Accounts → Accounts
open_session token id now t = record t {
  sessions = record { token = token; user_id = id; expires_at = now + week } ∷ t.sessions;
}

abbrev pub new_row : Bytes → Bytes → Bytes → Bool → AccountRow
new_row username hash steam_id first = record {
  username = username;
  password_hash = hash;
  role = if first then codes "server_owner" else codes "pending";
  status = if first then codes "active" else codes "pending";
  steam_id = steam_id;
}

abbrev pub add_user : AccountRow → Accounts → Accounts
add_user row t = record t { users = t.users ++ ((t.next_id, row) ∷ []); next_id = suc t.next_id }

abbrev pub is_none : List (ℕ × AccountRow) → Bool
is_none [] = true
is_none (u ∷ users) = false

-- Only the first user is active at once, as the owner, so that no default permissions are needed.
unfoldable pub admit : Bytes → ℕ → AccountRow → Bool → Accounts → Reply × Accounts
admit token now row true t = (
  opened token t.next_id (codes "server_owner"),
  open_session token t.next_id now (add_user row t),
)
admit token now row false t = (waiting, add_user row t)

abbrev pub register_unless : Option Bytes → Reply × Accounts → Accounts → Reply × Accounts
register_unless none admitted t = admitted
register_unless (some why) admitted t = (refused why, t)

-- `/api/auth/register`
unfoldable pub register :
    Crypto → Bytes → Bytes → ℕ → Bytes → Bytes → Bytes → Accounts → Reply × Accounts
register crypto random token now username password steam_id t =
    register_unless (check_registration username password steam_id t)
      (admit token now
        (new_row username (hash_password crypto random password) steam_id (is_none t.users))
        (is_none t.users) t)
      t

unfoldable pub login_row : Bytes → ℕ → ℕ → AccountRow → Accounts → Reply × Accounts
login_row token now id row t =
    if equal row.status (codes "pending")
    then (refused (codes "Account pending approval"), t)
    else if equal row.status (codes "rejected")
    then (refused (codes "Account rejected"), t)
    else (opened token id row.role, open_session token id now t)

unfoldable pub login_user :
    Crypto → Bytes → ℕ → Bytes → Option (ℕ × AccountRow) → Accounts → Reply × Accounts
login_user crypto token now password none t = (refused (codes "Invalid credentials"), t)
login_user crypto token now password (some (id, row)) t =
    if verify_password crypto password row.password_hash
    then login_row token now id row t
    else (refused (codes "Invalid credentials"), t)

-- `/api/auth/login`, with the attempts of the addresses.
unfoldable pub login :
    Crypto
    → Limits
    → Bytes
    → ℕ
    → Bytes
    → Bytes
    → Bytes
    → RateLimits
    → Accounts
    → Reply × Accounts × RateLimits
login crypto limits token now ip username password attempts t =
    let (allowed, counted) = check_rate_limit limits ip now attempts in
    let result = login_user crypto token now password (find_user username t.users) t in
    if not allowed
    then (refused (codes "Too many attempts"), t, counted)
    else if equal username [] || equal password []
    then (refused (codes "username and password required"), t, counted)
    else (result.0, result.1, counted)

abbrev or_all : Bytes → Option Bytes → Bytes
or_all header none = header
or_all header (some []) = header
or_all header (some (c ∷ token)) = c ∷ token

-- `/api/auth/logout`: a header `Bearer token`, or the token alone.
pub logout : Bytes → Accounts → Accounts
logout [] t = t
logout (c ∷ header) t = record t {
  sessions =
      keep
        (λ s.
          not (equal s.token (or_all (c ∷ header) (strip_prefix (codes "Bearer ") (c ∷ header)))))
        t.sessions;
}
