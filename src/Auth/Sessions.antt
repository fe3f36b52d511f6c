-- ===== src/Auth/Sessions.antt =====
-- `getSession` of src/core/auth.cpp on the tables `sessions` and `users`. The time is the text that
-- SQLite gives, an argument that is not empty. Both statements of the source join the same tables.
pub mod Valid
use mbsquad.Prelude.{
  ℕ, ◌==◌, ltb, Bool, true, false, not, ◌&&◌, List, [], ◌∷◌, Option, none, some, if◌then◌else◌, map,
  ◌++◌, ◌≡◌, ◌⊎◌, ◌↔◌, ◌≢◌, refl, sym, ap, ◌∙◌, All, Bool-cases, Option-cases, inl, inr, arith,
}
use mathlib.Core.Option.{some-injective}
use mbsquad.Prelude.Bytes.{Bytes, codes, equal, equal_iff}
use mbsquad.Prelude.Maps.{lookup, nat_key}

pub record SessionRow : Type 0 where
  pub token : Bytes
  pub user_id : ℕ
  pub expires_at : Bytes
  pub last_activity : Bytes

pub record UserRow : Type 0 where
  pub username : Bytes
  pub role : Bytes
  pub status : Bytes

pub record Session : Type 0 where
  pub token : Bytes
  pub user_id : Option ℕ
  pub username : Bytes
  pub role : Bytes
  pub status : Bytes
  pub expires_at : Bytes
  pub valid : Bool

pub record AuthTables : Type 0 where
  pub sessions : List SessionRow
  pub users : List (ℕ × UserRow)

abbrev pub no_session : Session
no_session = record {
  token = [];
  user_id = none;
  username = [];
  role = [];
  status = [];
  expires_at = [];
  valid = false;
}

-- `std::string::operator>`
unfoldable pub after : Bytes → Bytes → Bool
after [] t = false
after (c ∷ s) [] = true
after (c ∷ s) (d ∷ t) = let later = after s t in if c == d then later else ltb d c

unfoldable pub join_user :
    SessionRow → Option UserRow → Option (SessionRow × UserRow) → Option (SessionRow × UserRow)
join_user row none later = later
join_user row (some user) later = some (row, user)

unfoldable pub find_session :
    Bytes → List (ℕ × UserRow) → List SessionRow → Option (SessionRow × UserRow)
find_session token users [] = none
find_session token users (row ∷ rows) =
    let later = find_session token users rows in
    if equal row.token token then join_user row (lookup row.user_id users) later else later

unfoldable pub is_expired : Bytes → SessionRow → Bool
is_expired now row = not (equal row.expires_at []) && after now row.expires_at

abbrev pub session_of : SessionRow → UserRow → Bool → Session
session_of row user valid = record {
  token = row.token;
  user_id = some row.user_id;
  username = user.username;
  role = user.role;
  status = user.status;
  expires_at = row.expires_at;
  valid = valid;
}

abbrev pub touch_row : Bytes → Bytes → SessionRow → SessionRow
touch_row now token row = record row {
  last_activity = if equal row.token token then now else row.last_activity;
}

unfoldable pub touch : Bytes → Bytes → AuthTables → AuthTables
touch now token t = record t { sessions = map (touch_row now token) t.sessions }

unfoldable pub session_from :
    Bytes → Bytes → AuthTables → Option (SessionRow × UserRow) → Session × AuthTables
session_from now token t none = (no_session, t)
session_from now token t (some (row, user)) =
    if not (equal user.status (codes "active"))
    then (no_session, t)
    else if is_expired now row
    then (session_of row user false, t)
    else (session_of row user true, touch now token t)

unfoldable pub get_session : Bytes → Bytes → AuthTables → Session × AuthTables
get_session now [] t = (no_session, t)
get_session now (c ∷ token) t =
    session_from now (c ∷ token) t (find_session (c ∷ token) t.users t.sessions)
