-- ===== src/Auth/Sessions/Valid.antt =====
-- What is behind a session that `getSession` of src/core/auth.cpp calls valid.
use mbsquad.Prelude.{ℕ, false, List, [], ◌∷◌, Option, none, some, ◌++◌, ◌≡◌, ◌⊎◌, ◌≢◌, All}
use mbsquad.Prelude.Bytes.{Bytes, codes}
use mbsquad.Prelude.Maps.{lookup, nat_key}
use mbsquad.Auth.Sessions.{SessionRow, UserRow, Session, AuthTables, after}

-- A row that is another token's, or whose user is gone.
abbrev pub Unowned : Bytes → List (ℕ × UserRow) → SessionRow → Type 0
Unowned token users r = (r.token ≢ token) ⊎ (lookup r.user_id users ≡ none)

-- The first row of a token with a user.
pub record FirstOf (token : Bytes) (users : List (ℕ × UserRow)) (rows : List SessionRow)
    (row : SessionRow) (user : UserRow) : Type 0 where
  pub front : List SessionRow
  pub back : List SessionRow
  pub split : rows ≡ front ++ row ∷ back
  pub passed : All (Unowned token users) front
  pub is_token : row.token ≡ token
  pub has_user : lookup row.user_id users ≡ some user

-- A row that never ends, or not before a time.
abbrev pub InTime : Bytes → SessionRow → Type 0
InTime now row = (row.expires_at ≡ []) ⊎ (after now row.expires_at ≡ false)

-- What is behind a valid session.
pub record Backed (now token : Bytes) (t : AuthTables) (s : Session) : Type 0 where
  pub row : SessionRow
  pub user : UserRow
  pub named : token ≢ []
  pub first : FirstOf token t.users t.sessions row user
  pub active : user.status ≡ codes "active"
  pub in_time : InTime now row
  pub id_eq : s.user_id ≡ some row.user_id
  pub username_eq : s.username ≡ user.username
  pub role_eq : s.role ≡ user.role
