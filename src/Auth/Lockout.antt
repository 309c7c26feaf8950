-- ===== src/Auth/Lockout.antt =====
-- The lockout of `login` in backend/app/modules/auth/service.py and `record_failed_login` in
-- backend/app/modules/users_roles_permissions/service.py: wrong passwords count, and too many of
-- them shut the account for a while.
use retail_os.Core.Keeps.{IsCommitted}
use retail_os.Core.Returns.{get_db_session-raised, fail_to, run_to}
use retail_os.Prelude.Rows.{length, All, select_one-update_where, update_where, select_one}
use retail_os.Users.UserService.{get_by_email_for_login, record_failed_login, is_locked, lock_after}
use retail_os.Auth.AuthService.{locked_message, authenticate, login}
use retail_os.Core.Session.{ok, err, get_db_session, ◌>>=◌, Session}
use retail_os.Auth.Schemas.{LoginRequest, RequestContext}
use retail_os.Users.Models.{User}
use retail_os.Core.Time.{minutes, DateTime}
use retail_os.Core.Security.{verify_password, Libraries}
use retail_os.Core.Exceptions.{unauthorized_exception}
use retail_os.Prelude.{
  ◌<◌, ◌≤◌, Option, arith, ==_self, [], ap, ◌∷◌, none, List, inr, refl, inl, Bool-cases, ◌==◌,
  false, true, some, ◌≡◌, ◌+◌, String,
}
use retail_os.Core.Config.{Settings}
use retail_os.Users.UserRepository
use retail_os.Audit.AuditService

-- the row of the user after one more wrong password
abbrev pub failed : Settings → DateTime → User → User → User
failed settings now user u = record u {
  failed_login_attempts = user.failed_login_attempts + 1;
  locked_until = lock_after settings now (user.failed_login_attempts + 1) user.locked_until;
}

abbrev pub Finds : String → User → Session → Type 0
Finds email user s = select_one (UserRepository.has_email email) s.db.users ≡ some user

until-is_locked :
    (user : User) (now until : DateTime)
    → user.locked_until ≡ some until
    → now < until
    → is_locked user now ≡ true
until-is_locked user now until h early = rw h (ground arith)

module _ (libs : Libraries) (settings : Settings) (request : RequestContext) where
  get_by_email_for_login-Finds :
      (credentials : LoginRequest) (s : Session) (user : User)
      → Finds credentials.email user s
      → get_by_email_for_login credentials.email s ≡ (ok (some user), s)
  unfolding UserRepository.get_by_email
  get_by_email_for_login-Finds credentials s user found = ap (λ o. (ok o, s)) found

  authenticate-locked :
      (credentials : LoginRequest) (s : Session) (user : User)
      → is_locked user s.now ≡ true
      → (s' : Session) × (authenticate libs settings credentials request (some user) s
          ≡ (err (unauthorized_exception locked_message), s'))
        × (s'.saved ≡ s.saved)
  unfolding authenticate ◌>>=◌ AuditService.log
  authenticate-locked credentials s user locked = rw locked (_, refl, refl)

  authenticate-wrong :
      (credentials : LoginRequest) (s : Session) (user : User)
      → is_locked user s.now ≡ false
      → verify_password libs credentials.password user.password_hash ≡ false
      → (s' : Session) × (authenticate libs settings credentials request (some user) s
          ≡ (err (unauthorized_exception "Invalid email or password"), s'))
        × (s'.saved.users
            ≡ update_where (λ u. u.id == user.id) (failed settings s.now user) s.db.users)
  unfolding authenticate ◌>>=◌ record_failed_login AuditService.log
  authenticate-wrong credentials s user unlocked wrong =
      rw (unlocked, wrong)
        (elim (Bool-cases user.is_active) [
          | inl e ↦ rw e (_, refl, refl)
          | inr e ↦ rw e (_, refl, refl)
        ])

  -- A login to a locked account is refused, whatever its password is, and the database stays as it
  -- was committed.
  pub login-locked :
      (credentials : LoginRequest) (s : Session) (user : User)
      → Finds credentials.email user s
      → is_locked user s.now ≡ true
      → let (r, s') = get_db_session (login libs settings credentials request) s in
        (r ≡ err (unauthorized_exception locked_message)) × (s'.db ≡ s.saved) × (s'.saved ≡ s.saved)
  unfolding login
  login-locked credentials s user found locked =
      let (s', raised, kept) = authenticate-locked credentials s user locked in
      let run : login libs settings credentials request s ≡ (err _, s') =
        run_to _ _ s (some user) s _ (get_by_email_for_login-Finds credentials s user found)
          (fail_to _ _ s _ s' raised) in
      rw (get_db_session-raised _ s run) (refl, kept, kept)

  login-failed :
      (credentials : LoginRequest) (s : Session) (user : User)
      → Finds credentials.email user s
      → is_locked user s.now ≡ false
      → verify_password libs credentials.password user.password_hash ≡ false
      → let (r, s') = get_db_session (login libs settings credentials request) s in
        (r ≡ err (unauthorized_exception "Invalid email or password"))
        × IsCommitted s'
        × (s'.saved.users
            ≡ update_where (λ u. u.id == user.id) (failed settings s.now user) s.db.users)
  unfolding login
  login-failed credentials s user found unlocked wrong =
      let (s', raised, counted) = authenticate-wrong credentials s user unlocked wrong in
      let run : login libs settings credentials request s ≡ (err _, s') =
        run_to _ _ s (some user) s _ (get_by_email_for_login-Finds credentials s user found)
          (fail_to _ _ s _ s' raised) in
      rw (get_db_session-raised _ s run) (refl, refl, counted)

  -- A wrong password to an account that is not locked is refused, and the count of the attempt is
  -- committed though the request is rolled back: an attempt below the maximum leaves the lock as it was,
  -- and one that reaches it locks the account from now for the minutes of the settings. No other column
  -- and no other user changes.
  pub login-wrong :
      (credentials : LoginRequest) (s : Session) (user : User)
      → Finds credentials.email user s
      → is_locked user s.now ≡ false
      → verify_password libs credentials.password user.password_hash ≡ false
      → let (r, s') = get_db_session (login libs settings credentials request) s in
        (r ≡ err (unauthorized_exception "Invalid email or password"))
        × IsCommitted s'
        × ((until : Option DateTime) × (s'.saved.users
              ≡ update_where
                  (λ u. u.id == user.id)
                  (λ u. record u {
                    failed_login_attempts = user.failed_login_attempts + 1;
                    locked_until = until;
                  })
                  s.db.users)
            × (user.failed_login_attempts + 1 < settings.max_failed_login_attempts
                → until ≡ user.locked_until)
            × (settings.max_failed_login_attempts ≤ user.failed_login_attempts + 1
                → until ≡ some (s.now + minutes settings.account_lockout_minutes)))
  login-wrong credentials s user found unlocked wrong =
      let (raised, committed, counted) = login-failed credentials s user found unlocked wrong in
      (
        raised,
        committed,
        (
          lock_after settings s.now (user.failed_login_attempts + 1) user.locked_until,
          counted,
          (λ below. ground arith),
          λ reached. ground arith,
        ),
      )

  -- one login at its own instant
  unfoldable pub serve_login : DateTime × LoginRequest → Session → Session
  serve_login (now, credentials) s =
      (get_db_session (login libs settings credentials request) (record s { now = now })).1

  unfoldable pub serve_logins : List (DateTime × LoginRequest) → Session → Session
  serve_logins [] s = s
  serve_logins (x ∷ xs) s = serve_logins xs (serve_login x s)

  -- a login for the e-mail with a password that the hash does not match
  abbrev pub IsWrong : String → String → DateTime × LoginRequest → Type 0
  IsWrong email password_hash x =
      (x.1.email ≡ email) × (verify_password libs x.1.password password_hash ≡ false)

  -- one wrong password on an account that has no lock
  serve_login-counts :
      (email : String) (x : DateTime × LoginRequest) (s : Session) (user : User)
      → Finds email user s
      → user.locked_until ≡ none
      → IsWrong email user.password_hash x
      → Finds email (failed settings x.0 user user) (serve_login x s)
  unfolding serve_login
  serve_login-counts email x s user found no_lock (same, wrong) =
      let s₀ : Session = record s { now = x.0 } in
      let found' : Finds x.1.email user s₀ = rw same found in
      let (_, committed, counted) = login-failed x.1 s₀ user found' (rw no_lock refl) wrong in
      rw (committed, counted)
        (rw (==_self user.id) at (
          select_one-update_where (UserRepository.has_email email) (λ u. u.id == user.id)
            (failed settings x.0 user) s.db.users user (λ y. refl) found))

  -- The state of the account after wrong passwords, up to the one that locks it.
  guesses-lock :
      (email : String) (xs : List (DateTime × LoginRequest)) (x : DateTime × LoginRequest)
      (s : Session) (user : User)
      → Finds email user s
      → user.locked_until ≡ none
      → All (IsWrong email user.password_hash) xs
      → IsWrong email user.password_hash x
      → user.failed_login_attempts + length xs + 1 ≡ settings.max_failed_login_attempts
      → (user' : User) × Finds email user' (serve_login x (serve_logins xs s))
        × (user'.locked_until ≡ some (x.0 + minutes settings.account_lockout_minutes))
  unfolding serve_logins
  guesses-lock email [] x s user found no_lock _ w count = (
    failed settings x.0 user user,
    serve_login-counts email x s user found no_lock w,
    ground arith,
  )
  guesses-lock email (y ∷ ys) x s user found no_lock (w', ws) w count =
      guesses-lock email ys x (serve_login y s) (failed settings y.0 user user)
        (serve_login-counts email y s user found no_lock w') (ground arith) ws w (ground arith)

  -- As many wrong passwords as the settings allow, from no lock and counted from the attempts of
  -- before, lock the account: until the lockout has passed since the last of them, every login for
  -- the e-mail is refused, also one with the right password.
  pub lockout :
      (email : String) (xs : List (DateTime × LoginRequest)) (x : DateTime × LoginRequest)
      (s : Session) (user : User) (credentials : LoginRequest) (now : DateTime)
      → Finds email user s
      → user.locked_until ≡ none
      → All (IsWrong email user.password_hash) xs
      → IsWrong email user.password_hash x
      → user.failed_login_attempts + length xs + 1 ≡ settings.max_failed_login_attempts
      → credentials.email ≡ email
      → now < x.0 + minutes settings.account_lockout_minutes
      → let s' : Session = record (serve_login x (serve_logins xs s)) { now = now } in
        (get_db_session (login libs settings credentials request) s').0
        ≡ err (unauthorized_exception locked_message)
  lockout email xs x s user credentials now found no_lock ws w count same early =
      let (user', found', until) = guesses-lock email xs x s user found no_lock ws w count in
      let s' : Session = record (serve_login x (serve_logins xs s)) { now = now } in
      let found'' : Finds credentials.email user' s' = rw same found' in
      (login-locked credentials s' user' found'' (until-is_locked user' now _ until early)).0
