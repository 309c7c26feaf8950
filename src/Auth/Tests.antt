-- ===== src/Auth/Tests.antt =====
-- A user with one device session and one link, on which the theorems about sessions are run:
-- backend/app/modules/auth/service.py. The libraries are toys: a text is its own hash, and there is
-- one token of each type.
use retail_os.Auth.SigningIn.{login-signs_in, SignedIn}
use retail_os.Users.UserService.{record_successful_login}
use retail_os.Auth.Reuse.{refresh-reused}
use retail_os.Auth.RefreshTokenRepository.{is_active_of}
use retail_os.Auth.Rotation.{refresh-rotates, Rotated}
use retail_os.Users.Grants.{grants}
use retail_os.Prelude.Rows.{update_where, select_all}
use retail_os.Core.Keeps.{IsCommitted}
use retail_os.Auth.Access.{require_permission-grants, Authenticated}
use retail_os.Core.Exceptions.{unauthorized_exception}
use retail_os.Auth.Resetting.{reset_password-once, reset_password-resets, Reset}
use retail_os.Users.RbacService.{collect, get_effective_permission_codes}
use retail_os.Auth.Lockout.{login-wrong, login-locked, lockout, serve_logins, serve_login}
use retail_os.Core.Config.{default_settings}
use retail_os.Core.Time.{minutes, DateTime}
use retail_os.Auth.Passwords.{invalid_link, finish_reset, reset_password}
use retail_os.Auth.Dependencies.{access_payload, get_current_user, require_permission}
use retail_os.Auth.AuthService.{
  authenticate, link_replacement, locked_message, issue_token_pair, reject_reuse, login, refresh,
}
use retail_os.Core.Session.{err, ◌>>=◌, get_db_session, Session}
use retail_os.Auth.Models.{RefreshToken, PasswordResetToken}
use retail_os.Prelude.{
  ◌+◌, ◌≤◌, ◌<◌, ◌==◌, arith, true, refl, str_eq, ◌≡◌, [], false, ◌∷◌, some, none, if◌then◌else◌,
  List, String, Option,
}
use retail_os.Auth.Schemas.{LoginRequest, RequestContext}
use retail_os.Core.Security.{
  create_token, create_refresh_token, create_access_token, access, hash_password, is_type,
  TokenPayload, decode_token, Libraries, TokenType,
}
use retail_os.Users.Tests.{ann, office}
use retail_os.Users.UserRepository
use retail_os.Users.PermissionRepository
use retail_os.Auth.RefreshTokenRepository
use retail_os.Auth.PasswordResetTokenRepository
use retail_os.Audit.AuditService

abbrev payload : TokenType → TokenPayload
payload token_type = record {
  sub = 5;
  company_id = some 1;
  branch_id = none;
  token_type = token_type;
  jti = 50;
  iat = 0;
  exp = 900;
}

abbrev pub toys : Libraries
toys = record {
  jwt_encode = λ p key algorithm. if is_type p.token_type access then "access" else "new";
  jwt_decode = λ now token key algorithm.
      some (payload (if str_eq token "access" then access else TokenType.refresh));
  argon2_hash = λ salt password. password;
  argon2_verify = λ hash password. str_eq hash password;
  sha256 = λ text. text;
  token_urlsafe = λ bytes. "link";
}

abbrev caller : RequestContext
caller = record { ip_address = none; user_agent = none }

abbrev device : Option DateTime → RefreshToken
device revoked_at = record {
  id = 60;
  user_id = 5;
  token_hash = "old";
  device_id = none;
  device_name = none;
  ip_address = none;
  user_agent = none;
  issued_at = 900;
  expires_at = 2000;
  revoked_at = revoked_at;
  last_used_at = none;
  replaced_by_token_id = none;
}

abbrev link : PasswordResetToken
link = record {
  id = 70;
  user_id = 5;
  token_hash = "link";
  expires_at = 2000;
  used_at = none;
  created_at = 900;
}

abbrev signed_in : Option DateTime → Session
signed_in revoked_at = record office {
  db = record (office.db) {
    refresh_tokens = device revoked_at ∷ [];
    password_reset_tokens = link ∷ [];
  };
}

abbrev try : String → LoginRequest
try password = record {
  email = "ann@shop.in";
  password = password;
  remember_me = false;
  device_id = none;
  device_name = none;
}

abbrev four : List (DateTime × LoginRequest)
four = (1001, try "a") ∷ (1002, try "b") ∷ (1003, try "c") ∷ (1004, try "d") ∷ []

abbrev locked : Session
locked = record office {
  db = record (office.db) { users = record ann { locked_until = some 5000 } ∷ [] };
}

lockout_example :
    (get_db_session
      (login toys default_settings (try "secret") caller)
      (record (serve_login toys default_settings caller
        (1005, try "e")
        (serve_logins toys default_settings caller four office)) { now = 900000 })).0
    ≡ err (unauthorized_exception locked_message)
lockout_example =
    lockout toys default_settings caller "ann@shop.in" four (1005, try "e") office ann
      (try "secret") 900000 refl refl
      ((refl, refl), ((refl, refl), ((refl, refl), ((refl, refl), tt)))) (refl, refl) refl refl
      (ground arith)

login-locked_example :
    let (r, s') = get_db_session (login toys default_settings (try "secret") caller) locked in
    (r ≡ err (unauthorized_exception locked_message))
    × (s'.db ≡ locked.saved)
    × (s'.saved ≡ locked.saved)
login-locked_example =
    login-locked toys default_settings caller (try "secret") locked
      (record ann { locked_until = some 5000 }) refl refl

login-wrong_example :
    let (r, s') = get_db_session (login toys default_settings (try "guess") caller) office in
    (r ≡ err (unauthorized_exception "Invalid email or password"))
    × IsCommitted s'
    × ((until : Option DateTime) × (s'.saved.users
          ≡ update_where
              (λ u. u.id == 5)
              (λ u. record u { failed_login_attempts = 1; locked_until = until })
              office.db.users)
        × (1 < 5 → until ≡ none)
        × (5 ≤ 1 → until ≡ some (1000 + minutes default_settings.account_lockout_minutes)))
login-wrong_example =
    login-wrong toys default_settings caller (try "guess") office ann refl refl refl

refresh-rotates_example :
    Rotated toys "old"
      (signed_in none)
      (record { access_token = "access"; refresh_token = "new" })
      (refresh toys default_settings "old" caller (signed_in none)).1
unfolding refresh decode_token reject_reuse issue_token_pair create_access_token
    create_refresh_token create_token link_replacement RefreshTokenRepository.get_by_token_hash
    RefreshTokenRepository.create RefreshTokenRepository.revoke RefreshTokenRepository.replace
    UserRepository.get_by_id_unscoped ◌>>=◌
refresh-rotates_example =
    refresh-rotates toys default_settings "old" caller (signed_in none) (ground arith, tt) refl

refresh-reused_example :
    let (r, s') =
      get_db_session (refresh toys default_settings "old" caller) (signed_in (some 950)) in
    (r ≡ err (unauthorized_exception "This session is no longer valid. Please sign in again."))
    × (select_all (is_active_of 5) s'.saved.refresh_tokens ≡ [])
unfolding decode_token ◌>>=◌
refresh-reused_example =
    refresh-reused toys default_settings "old" caller (signed_in (some 950))
      (payload TokenType.refresh) (device (some 950)) 950 refl refl refl

require_permission-grants_example :
    (office ≡ office)
    × Authenticated toys default_settings
        (some "access")
        office
        (ann, record { user_id = 5; company_id = 1; branch_id = none })
    × (grants office.db 5 "inventory.read" ≡ true)
unfolding require_permission get_current_user access_payload decode_token UserRepository.get_by_id
    get_effective_permission_codes collect UserRepository.get_role_ids ◌>>=◌
    PermissionRepository.list_codes_for_role
require_permission-grants_example =
    require_permission-grants "inventory.read" toys default_settings (some "access") office refl

reset_password-resets_example :
    Reset toys "link" "better"
      (signed_in none)
      (reset_password toys "link" "better" (signed_in none)).1
unfolding reset_password finish_reset hash_password PasswordResetTokenRepository.get_by_token_hash
    PasswordResetTokenRepository.mark_used RefreshTokenRepository.revoke_all_for_user
    UserRepository.get_by_id_unscoped AuditService.log ◌>>=◌
reset_password-resets_example =
    reset_password-resets toys "link" "better" (signed_in none)
      {s' = (reset_password toys "link" "better" (signed_in none)).1} refl

reset_password-once_example :
    let s₂ : Session = record ((reset_password toys "link" "better" (signed_in none)).1) {
      now = 1500;
    } in
    reset_password toys "link" "again" s₂ ≡ (err invalid_link, s₂)
unfolding reset_password finish_reset hash_password PasswordResetTokenRepository.get_by_token_hash
    PasswordResetTokenRepository.mark_used RefreshTokenRepository.revoke_all_for_user
    UserRepository.get_by_id_unscoped AuditService.log ◌>>=◌
reset_password-once_example =
    reset_password-once toys "link" "better" "again" (signed_in none)
      {s' = (reset_password toys "link" "better" (signed_in none)).1} refl 1500

login-signs_in_example :
    SignedIn toys
      (try "secret")
      office
      (record { access_token = "access"; refresh_token = "new" })
      (login toys default_settings (try "secret") caller office).1
unfolding login authenticate UserRepository.get_by_email record_successful_login AuditService.log
    issue_token_pair create_access_token create_refresh_token create_token
    RefreshTokenRepository.create ◌>>=◌
login-signs_in_example = login-signs_in toys default_settings (try "secret") caller office refl
