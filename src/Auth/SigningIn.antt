-- ===== src/Auth/SigningIn.antt =====
-- `login` of backend/app/modules/auth/service.py when it returns.
use retail_os.Auth.Issuing.{Issued, issue_token_pair-Issued}
use retail_os.Auth.Lockout.{Finds}
use retail_os.Prelude.Rows.{select_one-update_where, update_where, select_one}
use retail_os.Auth.Models.{RefreshToken}
use retail_os.Core.Ensures.{Ensures-ok, Ensures-weaken, Ensures-read, Ensures-run, Ensures}
use retail_os.Prelude.{
  ==_self, ◌+◌, [], ◌∷◌, refl, ◌++◌, ◌==◌, inr, true, inl, false, Bool-cases, ◌≡◌, some, Option,
  none,
}
use retail_os.Users.UserService.{record_successful_login, is_locked, record_failed_login}
use retail_os.Core.Config.{Settings}
use retail_os.Users.Models.{User}
use retail_os.Core.Session.{ok, Session, ◌>>=◌}
use retail_os.Auth.Schemas.{TokenResponse, RequestContext, LoginRequest}
use retail_os.Core.Time.{DateTime}
use retail_os.Auth.AuthService.{issue_initial_tokens, request_entry, login, authenticate}
use retail_os.Core.Security.{hash_token, verify_password, Libraries}
use retail_os.Users.UserRepository
use retail_os.Audit.AuditService

-- What a login that returned `tokens` has done: the e-mail is the one of a user who is active and not
-- locked, and whose hash matches the password; the count of failed attempts and the lock are
-- cleared, and one session of the user is added, under the hash of the refresh token.
pub record SignedIn (libs : Libraries) (credentials : LoginRequest) (s : Session)
    (tokens : TokenResponse) (s' : Session) : Type 0 where
  pub user : User
  pub row : RefreshToken
  pub found : Finds credentials.email user s
  pub unlocked : is_locked user s.now ≡ false
  pub enabled : user.is_active ≡ true
  pub matched : verify_password libs credentials.password user.password_hash ≡ true
  pub cleared :
      Finds credentials.email
        (record user { failed_login_attempts = 0; locked_until = none; last_login_at = some s.now })
        s'
  pub added : s'.db.refresh_tokens ≡ s.db.refresh_tokens ++ row ∷ []
  pub hashed : row.token_hash ≡ hash_token libs tokens.refresh_token
  pub owner : row.user_id ≡ user.id
  pub active : row.revoked_at ≡ none

abbrev Passes : Libraries → LoginRequest → Session → Option User → User → Type 0
Passes libs credentials s found user =
    (found ≡ some user)
    × (is_locked user s.now ≡ false)
    × (user.is_active ≡ true)
    × (verify_password libs credentials.password user.password_hash ≡ true)

authenticate-Passes :
    (libs : Libraries) (settings : Settings) (credentials : LoginRequest) (request : RequestContext)
    (found : Option User) (s : Session)
    → Ensures
        (λ user s'. (s' ≡ s) × Passes libs credentials s found user)
        (authenticate libs settings credentials request found s)
unfolding authenticate ◌>>=◌ record_failed_login AuditService.log
authenticate-Passes libs settings credentials request none s = tt
authenticate-Passes libs settings credentials request (some user) s =
    elim (Bool-cases (is_locked user s.now)) [
      | inl e ↦ rw e tt
      | inr unlocked ↦ rw unlocked (elim (Bool-cases user.is_active) [
        | inr e ↦ rw e tt
        | inl enabled ↦
            rw enabled
              (elim (Bool-cases (verify_password libs credentials.password user.password_hash)) [
                | inr e ↦ rw e tt
                | inl matched ↦ rw matched (refl, (refl, unlocked, refl, matched))
              ])
      ])
    ]

-- the user's row once the attempts are cleared
abbrev clear : DateTime → User → User
clear now u = record u { failed_login_attempts = 0; locked_until = none; last_login_at = some now }

-- the session once the login is in the audit trail
abbrev pub logged : AuditService.Entry → Session → Session
logged e s = record s {
  next_id = s.next_id + 1;
  db = record (s.db) {
    audit_logs = s.db.audit_logs ++ AuditService.log_row e s.next_id s.now ∷ [];
  };
}

log-appends : (e : AuditService.Entry) (s : Session) → AuditService.log e s ≡ (ok tt, logged e s)
unfolding AuditService.log
log-appends e s = refl

abbrev cleared_users : User → Session → Session
cleared_users user s = record s {
  db = record (s.db) { users = update_where (λ u. u.id == user.id) (clear s.now) s.db.users };
}

record_successful_login-clears :
    (user : User) (s : Session) → record_successful_login user s ≡ (ok tt, cleared_users user s)
unfolding record_successful_login
record_successful_login-clears user s = refl

Issued-SignedIn :
    (libs : Libraries) (credentials : LoginRequest) (s : Session) (e : AuditService.Entry)
    (user : User) (tokens : TokenResponse) (s' : Session)
    → Passes libs credentials s
        (select_one (UserRepository.has_email credentials.email) s.db.users)
        user
    → Issued libs user.id (logged e (cleared_users user s)) tokens s'
    → SignedIn libs credentials s tokens s'
Issued-SignedIn libs credentials s e user tokens s' passes issued = record {
  user = user;
  row = issued.row;
  found = passes.0;
  unlocked = passes.1;
  enabled = passes.2;
  matched = passes.3;
  cleared = rw issued.written (
      rw (==_self user.id) at (
        select_one-update_where (UserRepository.has_email credentials.email) (λ u. u.id == user.id)
          (clear s.now) s.db.users user (λ y. refl) passes.0));
  added = rw issued.written refl;
  hashed = issued.hashed;
  owner = issued.owner;
  active = issued.active;
}

login-SignedIn :
    (libs : Libraries) (settings : Settings) (credentials : LoginRequest) (request : RequestContext)
    (s : Session)
    → Ensures (SignedIn libs credentials s) (login libs settings credentials request s)
unfolding login UserRepository.get_by_email
login-SignedIn libs settings credentials request s =
    let Q = SignedIn libs credentials s in
    let found = select_one (UserRepository.has_email credentials.email) s.db.users in
    Ensures-run Q _ _ s found s refl (
      Ensures-read Q (Passes libs credentials s found) _ _ s
        (authenticate-Passes libs settings credentials request found s)
        λ user passes.
          let e =
            request_entry "auth.login.success" (some user.company_id) (some user.id) request in
          Ensures-run Q _ _ s tt (cleared_users user s) (record_successful_login-clears user s) (
            Ensures-run Q _ _ (cleared_users user s) tt (logged e (cleared_users user s))
              (log-appends e (cleared_users user s))
              (Ensures-weaken Q (Issued libs user.id (logged e (cleared_users user s))) _
                (issue_token_pair-Issued libs settings user _ _ request _ _ _)
                λ tokens s' issued.
                  Issued-SignedIn libs credentials s e user tokens s' passes issued)))

-- A login that returns was made with the right password for an active user who is not locked; the
-- failed attempts and the lock are cleared, and one session of the user is added.
pub login-signs_in :
    (libs : Libraries) (settings : Settings) (credentials : LoginRequest) (request : RequestContext)
    (s : Session) {tokens : TokenResponse} {s' : Session}
    → login libs settings credentials request s ≡ (ok tokens, s')
    → SignedIn libs credentials s tokens s'
login-signs_in libs settings credentials request s e =
    Ensures-ok (SignedIn libs credentials s) _ (login-SignedIn libs settings credentials request s)
      e

-- the session that a new owner is given
pub issue_initial_tokens-Issued :
    (libs : Libraries) (settings : Settings) (user : User) (request : RequestContext) (s : Session)
    → let e = request_entry "auth.login.success" (some user.company_id) (some user.id) request in
      Ensures (Issued libs user.id (logged e s)) (issue_initial_tokens libs settings user request s)
unfolding issue_initial_tokens
issue_initial_tokens-Issued libs settings user request s =
    let e = request_entry "auth.login.success" (some user.company_id) (some user.id) request in
    Ensures-run (Issued libs user.id (logged e s)) _ _ s tt (logged e s) (log-appends e s)
      (issue_token_pair-Issued libs settings user _ _ request _ _ (logged e s))
