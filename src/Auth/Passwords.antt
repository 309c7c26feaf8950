-- ===== src/Auth/Passwords.antt =====
-- The passwords in `AuthService` of backend/app/modules/auth/service.py: the framework of resets, and
-- the change by the user.
use retail_os.Users.UserService.{write_user, get_by_email_for_login}
use retail_os.Core.Session.{or_raise, pure, gets, raise_if, uuid4, ◌>>◌, ◌>>=◌, M}
use retail_os.Core.Time.{hours, DateTime}
use retail_os.Users.Models.{User}
use retail_os.Auth.Models.{PasswordResetToken}
use retail_os.Core.Security.{hash_password, verify_password, hash_token, Libraries}
use retail_os.Core.Exceptions.{
  field_exception, not_found_exception, validation_exception, Exception,
}
use retail_os.Prelude.{
  false, ltb, ◌||◌, is_none, not, some, none, true, Bool, ◌+◌, String, Option, ℕ,
}
use retail_os.Audit.AuditService
use retail_os.Auth.RefreshTokenRepository
use retail_os.Auth.PasswordResetTokenRepository
use retail_os.Users.UserRepository

abbrev pub reset_token : ℕ → ℕ → String → DateTime → PasswordResetToken
reset_token id user_id token_hash now = record {
  id = id;
  user_id = user_id;
  token_hash = token_hash;
  expires_at = now + hours 1;
  used_at = none;
  created_at = now;
}

-- The link is unknown, used or expired.
abbrev pub is_dead : Option PasswordResetToken → DateTime → Bool
is_dead none now = true
is_dead (some token) now = not (is_none token.used_at) || ltb token.expires_at now

abbrev pub invalid_link : Exception
invalid_link = validation_exception "This password reset link is invalid or has expired"

module _ (libs : Libraries) where
  -- The raw token goes to the log, which is not modelled.
  unfoldable pub request_reset : User → M (Unit {0})
  request_reset user = do
    random ← uuid4
    now ← gets (λ s. s.now)
    id ← uuid4
    PasswordResetTokenRepository.create
        (reset_token id user.id (hash_token libs (libs.token_urlsafe random)) now)
    AuditService.log
        (AuditService.entry "auth.password_reset_requested" (some user.company_id) (some user.id))

  unfoldable pub forgot_password : String → M (Unit {0})
  forgot_password email = do
    found ← get_by_email_for_login email
    elim found [ none ↦ pure tt | some user ↦ request_reset user ]

  -- the writes of `reset_password`, once the link and its user are found
  unfoldable pub finish_reset : PasswordResetToken → User → String → DateTime → M (Unit {0})
  finish_reset token user new_password now = do
    password_hash ← hash_password libs new_password
    write_user user.id λ u. record u {
      password_hash = password_hash;
      must_change_password = false;
      version = user.version + 1;
    }
    PasswordResetTokenRepository.mark_used token now
    RefreshTokenRepository.revoke_all_for_user user.id now
    AuditService.log
        (AuditService.entry "auth.password_reset_completed" (some user.company_id) (some user.id))

  unfoldable pub reset_password : String → String → M (Unit {0})
  reset_password raw_token new_password = do
    found ← PasswordResetTokenRepository.get_by_token_hash (hash_token libs raw_token)
    now ← gets (λ s. s.now)
    raise_if (is_dead found now) invalid_link
    token ← or_raise found invalid_link
    owner ← UserRepository.get_by_id_unscoped token.user_id
    user ← or_raise owner (not_found_exception "User not found")
    finish_reset token user new_password now

  unfoldable pub change_password : User → String → String → M (Unit {0})
  change_password user current_password new_password = do
    raise_if (not (verify_password libs current_password user.password_hash))
        (field_exception "Current password is incorrect" "current_password")
    password_hash ← hash_password libs new_password
    write_user user.id λ u. record u { password_hash = password_hash; version = user.version + 1 }
    AuditService.log
        (AuditService.entry "auth.password_changed" (some user.company_id) (some user.id))
