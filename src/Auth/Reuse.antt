-- ===== src/Auth/Reuse.antt =====
-- `refresh` of backend/app/modules/auth/service.py on a token that was rotated away.
use retail_os.Prelude.{refl}
use retail_os.Core.Returns.{get_db_session-raised, fail_to, run_to}
use retail_os.Core.Exceptions.{unauthorized_exception}
use retail_os.Prelude.Rows.{select_all-update_where, select_all, select_one}
use retail_os.Core.Time.{DateTime}
use retail_os.Auth.Models.{RefreshToken}
use retail_os.Auth.Schemas.{RequestContext}
use retail_os.Prelude.{◌∙◌, is_none, ap, not, arith, [], some, ◌≡◌, String}
use retail_os.Core.Config.{Settings}
use retail_os.Core.Security.{hash_token, TokenType, decode_token, TokenPayload, Libraries}
use retail_os.Auth.RefreshTokenRepository
use retail_os.Auth.AuthService.{reject_reuse, refresh}
use retail_os.Core.Session.{when, err, ok, Session, get_db_session}
use retail_os.Auth.RefreshTokenRepository.{is_active_of, has_hash}

reject_reuse-raises :
    (token : RefreshToken) (s : Session)
    → (s' : Session) × (reject_reuse token s ≡ (
      err (unauthorized_exception "This session is no longer valid. Please sign in again."),
      s',
    ))
      × (select_all (is_active_of token.user_id) s'.saved.refresh_tokens ≡ [])
unfolding reject_reuse
reject_reuse-raises token s = (
  _,
  refl,
  select_all-update_where (is_active_of token.user_id) _ s.db.refresh_tokens λ t h. ground arith,
)

when-revoked :
    (token : RefreshToken) (at : DateTime) (s : Session)
    → token.revoked_at ≡ some at
    → when (not (is_none token.revoked_at)) (reject_reuse token) s ≡ reject_reuse token s
when-revoked token at s h = rw h refl

-- A refresh token that decodes and was revoked before is refused, and what is committed then holds no
-- active token of its user.
pub refresh-reused :
    (libs : Libraries) (settings : Settings) (raw : String) (request : RequestContext) (s : Session)
    (payload : TokenPayload) (token : RefreshToken) (at : DateTime)
    → decode_token libs settings raw TokenType.refresh s ≡ (ok payload, s)
    → select_one (has_hash (hash_token libs raw)) s.db.refresh_tokens ≡ some token
    → token.revoked_at ≡ some at
    → let (r, s') = get_db_session (refresh libs settings raw request) s in
      (r ≡ err (unauthorized_exception "This session is no longer valid. Please sign in again."))
      × (select_all (is_active_of token.user_id) s'.saved.refresh_tokens ≡ [])
unfolding refresh RefreshTokenRepository.get_by_token_hash
refresh-reused libs settings raw request s payload token at decoded found revoked =
    let (s', raised, none_left) = reject_reuse-raises token s in
    let run : refresh libs settings raw request s ≡ (err _, s') = run_to _ _ s payload s _ decoded (
      run_to _ _ s (some token) s _ (ap (λ o. (ok o, s)) found) (
        run_to _ _ s token s _ refl
          (fail_to _ _ s _ s' (when-revoked token at s revoked ∙ raised)))) in
    rw (get_db_session-raised _ s run) (refl, none_left)
