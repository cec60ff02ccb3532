-- ===== src/Auth/Inserted.antt =====
-- app/services/auth.py: what the steps that write have done when they return.
use desmobapp_backend.Prelude.{
  ◌≡◌, sym, ◌∙◌, ap, false, Option, String, [], ◌∷◌, ◌++◌, Result, ok, err, any, find_first,
  Option-cases, inl, inr, List, ◌==◌, ◌||◌, raise_if-eq-ok, >>=-eq-ok, ok-injective, ok-pair,
}
use desmobapp_backend.Db.{Db, email, email_only}
use desmobapp_backend.Notification.{notify_by}
use desmobapp_backend.Access.Roles.{User, UserRoleAssignment}
use desmobapp_backend.Access.Texts.{text_eq}
use desmobapp_backend.Auth.{
  DeviceInfo, RefreshToken, PasswordResetToken, Store, with_users, user_clash, session_clash,
  reset_clash, same_scope, insert_user, insert_assignment, insert_refresh_token, insert_reset_token,
  Platform, Settings, AuthEnv, LoginResponse, user_public, session_row, access_token_of,
  open_session, issue_session_tokens, assign_client, client_assignment, notify_email,
  conflict_if_integrity_error,
}

pub insert_user-eq-ok :
    (u : User) (s : Store) {s' : Store}
    → insert_user u s ≡ ok s'
    → (any (λ r. user_clash r u) s.accounts.users ≡ false)
      × (s' ≡ with_users (s.accounts.users ++ u ∷ []) s)
unfolding insert_user
insert_user-eq-ok u s e =
    let (unused, k) = raise_if-eq-ok (any (λ r. user_clash r u) s.accounts.users) _ _ e in
    (unused, sym (ok-injective k))

pub insert_refresh_token-eq-ok :
    (t : RefreshToken) (s : Store) {s' : Store}
    → insert_refresh_token t s ≡ ok s'
    → (any (λ r. session_clash r t) s.refresh_tokens ≡ false)
      × (s' ≡ record s { refresh_tokens = s.refresh_tokens ++ t ∷ [] })
unfolding insert_refresh_token
insert_refresh_token-eq-ok t s e =
    let (unused, k) = raise_if-eq-ok (any (λ r. session_clash r t) s.refresh_tokens) _ _ e in
    (unused, sym (ok-injective k))

pub insert_reset_token-eq-ok :
    (t : PasswordResetToken) (s : Store) {s' : Store}
    → insert_reset_token t s ≡ ok s'
    → (any (λ r. reset_clash r t) s.reset_tokens ≡ false)
      × (s' ≡ record s { reset_tokens = s.reset_tokens ++ t ∷ [] })
unfolding insert_reset_token
insert_reset_token-eq-ok t s e =
    let (unused, k) = raise_if-eq-ok (any (λ r. reset_clash r t) s.reset_tokens) _ _ e in
    (unused, sym (ok-injective k))

conflict-eq-ok :
    {A : Type 0} (r : Result A) {a : A} → conflict_if_integrity_error r ≡ ok a → r ≡ ok a
conflict-eq-ok (ok b) e = e
conflict-eq-ok (err x) e = cc

insert_assignment-eq-ok :
    (a : UserRoleAssignment) (s : Store) {s' : Store}
    → insert_assignment a s ≡ ok s'
    → (rows : List UserRoleAssignment) × (s'
        ≡ record s { accounts = record s.accounts { assignments = rows } })
unfolding insert_assignment
insert_assignment-eq-ok a s e =
    let (unused, k) =
      raise_if-eq-ok (any (λ r. r.id == a.id || same_scope r a) s.accounts.assignments) _ _ e in
    (s.accounts.assignments ++ a ∷ [], sym (ok-injective k))

-- The rows of assignments are all that `assign_client` touches.
pub assign_client-eq-ok :
    (env : AuthEnv) (user : User) (s : Store) {s' : Store}
    → conflict_if_integrity_error (assign_client env user s) ≡ ok s'
    → (rows : List UserRoleAssignment) × (s'
        ≡ record s { accounts = record s.accounts { assignments = rows } })
unfolding assign_client
assign_client-eq-ok env user s e =
    let k = conflict-eq-ok (assign_client env user s) e in
    elim (Option-cases (find_first (λ r. text_eq r.code "client") s.accounts.roles)) [
      | inl absent ↦ (s.accounts.assignments, sym (ok-injective (rw (absent, assign_client) at k)))
      | inr (role, found) ↦
          insert_assignment-eq-ok (client_assignment env user role) s
            (rw (found, assign_client) at k)
    ]

pub notify_email-eq-ok :
    (env : AuthEnv) (user : User) (template_code : String) (s : Store) {s' : Store}
    → notify_email env user template_code s ≡ ok s'
    → (db : Db) × (s' ≡ record s { db = db })
notify_email-eq-ok env user template_code s e =
    let (db, noted, k) =
      >>=-eq-ok (notify_by email env.env user.id template_code (email_only user.email) s.db) _ e in
    (db, sym (ok-injective k))

module _ (lib : Platform) (settings : Settings) where
  -- The answer of a login, and the row that it leaves.
  abbrev pub login_response : AuthEnv → User → Store → LoginResponse
  login_response env user s = record {
    access_token = access_token_of lib settings user s;
    refresh_token = env.token;
    user = user_public user;
  }

  pub open_session-eq-ok :
      (env : AuthEnv) (user : User) (info : Option DeviceInfo) (s : Store) {a : LoginResponse}
      {s' : Store}
      → open_session lib settings env user info s ≡ ok (a, s')
      → let row = session_row lib settings env user info in
        (any (λ r. session_clash r row) s.refresh_tokens ≡ false)
        × (s' ≡ record s { refresh_tokens = s.refresh_tokens ++ row ∷ [] })
        × (a ≡ login_response env user s)
  unfolding open_session issue_session_tokens
  open_session-eq-ok env user info s e =
      let (issued, e1, e2) = >>=-eq-ok (issue_session_tokens lib settings env user info s) _ e in
      let (added, e3, e4) =
        >>=-eq-ok (insert_refresh_token (session_row lib settings env user info) s) _ e1 in
      let (unused, after) =
        insert_refresh_token-eq-ok (session_row lib settings env user info) s e3 in
      let same = ok-injective e4 in
      let (answered, last) = ok-pair e2 in
      (
        unused,
        last ∙ sym (ap (λ (i : (String × String) × Store). i.1) same) ∙ after,
        answered
            ∙ sym (
                ap
                  (λ (i : (String × String) × Store). record {
                    access_token = i.0.0;
                    refresh_token = i.0.1;
                    user = user_public user;
                  })
                  same),
      )
