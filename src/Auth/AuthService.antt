-- ===== src/Auth/AuthService.antt =====
-- `AuthService` of backend/app/modules/auth/service.py: the sessions of a user.
use retail_os.Core.Exceptions.{unauthorized_exception}
use retail_os.Users.UserService.{
  record_failed_login, is_locked, record_successful_login, get_by_email_for_login,
}
use retail_os.Auth.Models.{RefreshToken}
use retail_os.Core.Session.{
  raise_if, or_raise, uuid4, commit, when, pure, raise, gets, ◌>>◌, M, ◌>>=◌,
}
use retail_os.Auth.Schemas.{TokenResponse, RequestContext, LoginRequest}
use retail_os.Users.Models.{User}
use retail_os.Core.Time.{days, DateTime}
use retail_os.Core.Security.{
  verify_password, TokenType, create_refresh_token, decode_token, create_access_token, hash_token,
  Libraries,
}
use retail_os.Core.Config.{Settings}
use retail_os.Prelude.{
  ◌-◌, ltb, ◌||◌, not, ◌+◌, is_none, true, some, if◌then◌else◌, none, Bool, Option, ℕ, String,
}
use retail_os.Audit.AuditService
use retail_os.Auth.RefreshTokenRepository
use retail_os.Users.UserRepository

-- an entry of the audit trail with the caller's address
abbrev pub request_entry : String → Option ℕ → Option ℕ → RequestContext → AuditService.Entry
request_entry action company_id user_id request =
    record (AuditService.entry action company_id user_id) {
      ip_address = request.ip_address;
      user_agent = request.user_agent;
    }

abbrev pub locked_message : String
locked_message =
    "This account is temporarily locked due to repeated failed sign-in attempts. Try again later."

abbrev pub new_token :
    ℕ
    → ℕ
    → String
    → DateTime
    → DateTime
    → RequestContext
    → Option String
    → Option String
    → RefreshToken
new_token id user_id token_hash issued_at expires_at request device_id device_name = record {
  id = id;
  user_id = user_id;
  token_hash = token_hash;
  device_id = device_id;
  device_name = device_name;
  ip_address = request.ip_address;
  user_agent = request.user_agent;
  issued_at = issued_at;
  expires_at = expires_at;
  revoked_at = none;
  last_used_at = none;
  replaced_by_token_id = none;
}

abbrev pub refresh_lifetime : Settings → Bool → ℕ
refresh_lifetime settings remember_me = days (
    if remember_me
    then settings.refresh_token_expire_days
    else settings.refresh_token_expire_days_session)

-- What `refresh` does with a token that was revoked before: someone else holds a copy of it.
unfoldable pub reject_reuse : RefreshToken → M (Unit {0})
unfolding ◌>>=◌ RefreshTokenRepository.revoke_all_for_user AuditService.log
reject_reuse token = do
  now ← gets (λ s. s.now)
  RefreshTokenRepository.revoke_all_for_user token.user_id now
  AuditService.log
      (AuditService.entry "auth.refresh_token_reuse_detected" none (some token.user_id))
  commit
  raise (unauthorized_exception "This session is no longer valid. Please sign in again.")

module _ (libs : Libraries) (settings : Settings) where
  -- `_issue_token_pair`
  unfoldable pub issue_token_pair :
      User → Option ℕ → Bool → RequestContext → Option String → Option String → M TokenResponse
  issue_token_pair user branch_id remember_me request device_id device_name = do
    access_token ← create_access_token libs settings user.id (some user.company_id) branch_id
    let lifetime = refresh_lifetime settings remember_me
    raw_refresh_token ←
        create_refresh_token libs settings user.id (some user.company_id) branch_id lifetime
    now ← gets (λ s. s.now)
    id ← uuid4
    RefreshTokenRepository.create (
        new_token id user.id (hash_token libs raw_refresh_token) now (now + lifetime) request
          device_id device_name)
    pure (record { access_token = access_token; refresh_token = raw_refresh_token })

  unfoldable pub issue_initial_tokens : User → RequestContext → M TokenResponse
  issue_initial_tokens user request = do
    AuditService.log
        (request_entry "auth.login.success" (some user.company_id) (some user.id) request)
    issue_token_pair user user.default_branch_id true request none none

  -- the user that `login` lets in
  unfoldable pub authenticate : LoginRequest → RequestContext → Option User → M User
  authenticate credentials request none = do
    AuditService.log (request_entry "auth.login.failed" none none request)
    raise (unauthorized_exception "Invalid email or password")
  authenticate credentials request (some user) = do
    now ← gets (λ s. s.now)
    let failed = request_entry "auth.login.failed" (some user.company_id) (some user.id) request
    when (is_locked user now)
        (AuditService.log failed >> raise (unauthorized_exception locked_message))
    when (not user.is_active || not (verify_password libs credentials.password user.password_hash))
        (record_failed_login settings user
          >> AuditService.log failed
          >> commit
          >> raise (unauthorized_exception "Invalid email or password"))
    pure user

  unfoldable pub login : LoginRequest → RequestContext → M TokenResponse
  login credentials request = do
    found ← get_by_email_for_login credentials.email
    user ← authenticate credentials request found
    record_successful_login user
    AuditService.log
        (request_entry "auth.login.success" (some user.company_id) (some user.id) request)
    issue_token_pair user user.default_branch_id credentials.remember_me request
        credentials.device_id credentials.device_name

  unfoldable pub logout : String → M (Unit {0})
  unfolding ◌>>=◌ RefreshTokenRepository.get_by_token_hash RefreshTokenRepository.revoke
      AuditService.log
  logout raw_refresh_token = do
    token ← RefreshTokenRepository.get_by_token_hash (hash_token libs raw_refresh_token)
    now ← gets (λ s. s.now)
    elim token [
      | none ↦ pure tt
      | some t ↦ when (is_none t.revoked_at) (
          RefreshTokenRepository.revoke t now
          >> AuditService.log (AuditService.entry "auth.logout" none (some t.user_id)))
    ]

  -- `token.replaced_by_token_id` is set if the new row is found.
  unfoldable pub link_replacement : RefreshToken → TokenResponse → M (Unit {0})
  unfolding ◌>>=◌ RefreshTokenRepository.get_by_token_hash RefreshTokenRepository.replace
  link_replacement token new_tokens = do
    row ← RefreshTokenRepository.get_by_token_hash (hash_token libs new_tokens.refresh_token)
    elim row [ none ↦ pure tt | some t ↦ RefreshTokenRepository.replace token t.id ]

  unfoldable pub refresh : String → RequestContext → M TokenResponse
  refresh raw_refresh_token request = do
    payload ← decode_token libs settings raw_refresh_token TokenType.refresh
    found ← RefreshTokenRepository.get_by_token_hash (hash_token libs raw_refresh_token)
    token ← or_raise found (unauthorized_exception "Invalid refresh token")
    when (not (is_none token.revoked_at)) (reject_reuse token)
    now ← gets (λ s. s.now)
    raise_if (ltb token.expires_at now)
        (unauthorized_exception "This session has expired. Please sign in again.")
    owner ← UserRepository.get_by_id_unscoped token.user_id
    user ← or_raise owner (unauthorized_exception "Account is no longer active")
    raise_if (not user.is_active) (unauthorized_exception "Account is no longer active")
    new_tokens ←
        issue_token_pair user payload.branch_id (ltb (days 2) (token.expires_at - token.issued_at))
          request token.device_id token.device_name
    RefreshTokenRepository.revoke token now
    link_replacement token new_tokens
    pure new_tokens
