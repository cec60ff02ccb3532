-- ===== src/Auth/Tables.antt =====
-- app/db/models/access.py: the tables of accounts, sessions and resets, with the unique columns that
-- the database checks on an INSERT.
use desmobapp_backend.Prelude.{
  ℕ, Bool, true, false, ◌&&◌, ◌||◌, Option, none, some, String, List, [], ◌∷◌, ◌++◌, Result, ok,
  integrity_error, raise_if, ◌>>◌, any, ◌==◌, sql_eq,
}
use desmobapp_backend.Db.{Db, Uuid}
use desmobapp_backend.Access.Texts.{text_eq}
use desmobapp_backend.Access.Roles.{User, UserRoleAssignment, Accounts}

-- A JSON object whose values are texts.
abbrev pub DeviceInfo : Type 0
DeviceInfo = List (String × String)

pub record RefreshToken : Type 0 where
  pub id : Uuid
  pub user_id : Uuid
  pub token_hash : String
  pub expires_at : ℕ
  pub revoked_at : Option ℕ
  pub device_info : Option DeviceInfo
  pub created_at : ℕ

pub record PasswordResetToken : Type 0 where
  pub id : Uuid
  pub user_id : Uuid
  pub token_hash : String
  pub expires_at : ℕ
  pub used_at : Option ℕ
  pub created_at : ℕ

-- The tables of accounts and tokens, beside the rest of the database.
pub record Store : Type 0 where
  pub accounts : Accounts
  pub refresh_tokens : List RefreshToken
  pub reset_tokens : List PasswordResetToken
  pub db : Db

-- A column `IS NULL`.
abbrev pub is_null : Option ℕ → Bool
is_null none = true
is_null (some a) = false

abbrev pub with_users : List User → Store → Store
with_users users s = record s { accounts = record s.accounts { users = users } }

-- Two rows of `users` that a unique constraint keeps apart.
abbrev pub user_clash : User → User → Bool
user_clash r u = r.id == u.id || text_eq r.email u.email

unfoldable pub insert_user : User → Store → Result Store
insert_user u s = do
  raise_if (any (λ r. user_clash r u) s.accounts.users) integrity_error
  ok (with_users (s.accounts.users ++ u ∷ []) s)

-- `uq_user_role_assignments_scope`, where a NULL is like no other value.
abbrev pub same_scope : UserRoleAssignment → UserRoleAssignment → Bool
same_scope r a = elim a.venue_id [
  | none ↦ false
  | some v ↦ r.user_id == a.user_id && r.role_id == a.role_id && sql_eq r.venue_id v
]

unfoldable pub insert_assignment : UserRoleAssignment → Store → Result Store
insert_assignment a s = do
  raise_if (any (λ r. r.id == a.id || same_scope r a) s.accounts.assignments) integrity_error
  ok (record s { accounts = record s.accounts { assignments = s.accounts.assignments ++ a ∷ [] } })

abbrev pub session_clash : RefreshToken → RefreshToken → Bool
session_clash r t = r.id == t.id || text_eq r.token_hash t.token_hash

unfoldable pub insert_refresh_token : RefreshToken → Store → Result Store
insert_refresh_token t s = do
  raise_if (any (λ r. session_clash r t) s.refresh_tokens) integrity_error
  ok (record s { refresh_tokens = s.refresh_tokens ++ t ∷ [] })

abbrev pub reset_clash : PasswordResetToken → PasswordResetToken → Bool
reset_clash r t = r.id == t.id || text_eq r.token_hash t.token_hash

unfoldable pub insert_reset_token : PasswordResetToken → Store → Result Store
insert_reset_token t s = do
  raise_if (any (λ r. reset_clash r t) s.reset_tokens) integrity_error
  ok (record s { reset_tokens = s.reset_tokens ++ t ∷ [] })
