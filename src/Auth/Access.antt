-- ===== src/Auth/Access.antt =====
-- Who passes `get_current_user` and `require_permission` of backend/app/modules/auth/dependencies.py.
use retail_os.Prelude.{not-false}
use retail_os.Prelude.Rows.{select_one}
use retail_os.Users.Grants.{get_effective_permission_codes-grants, grants}
use retail_os.Auth.Schemas.{TenantContext}
use retail_os.Core.Ensures.{
  Ensures-raise_if, Ensures-ok, Ensures-run, Ensures-read, Ensures-or_raise, Ensures,
}
use retail_os.Users.Models.{User}
use retail_os.Core.Session.{ok, Session}
use retail_os.Prelude.{◌∙◌, sym, refl, arith, true, ℕ, some, ◌≡◌, Option, String}
use retail_os.Core.Config.{Settings}
use retail_os.Auth.Dependencies.{require_permission, get_current_user, access_payload}
use retail_os.Core.Security.{access, is_type, TokenPayload, Libraries}
use retail_os.Users.UserRepository

-- The caller's token names a company and a user of it, who is neither deleted nor disabled; the
-- context holds both, with the branch of the token.
pub record Authenticated (libs : Libraries) (settings : Settings) (credentials : Option String)
    (s : Session) (caller : User × TenantContext) : Type 0 where
  pub token : String
  pub payload : TokenPayload
  pub company_id : ℕ
  pub presented : credentials ≡ some token
  pub decoded :
      libs.jwt_decode s.now token settings.jwt_secret_key settings.jwt_algorithm ≡ some payload
  pub is_access : is_type payload.token_type access ≡ true
  pub company : payload.company_id ≡ some company_id
  pub known : select_one (UserRepository.is_user company_id payload.sub) s.db.users ≡ some caller.0
  pub enabled : caller.0.is_active ≡ true
  pub context_user : caller.1.user_id ≡ caller.0.id
  pub context_company : caller.1.company_id ≡ caller.0.company_id
  pub context_branch : caller.1.branch_id ≡ payload.branch_id

payload_reads :
    (libs : Libraries) (settings : Settings) (token : String) (s : Session)
    → Ensures
        (λ payload s'.
          (s' ≡ s)
          × ((libs.jwt_decode s.now token settings.jwt_secret_key settings.jwt_algorithm
                ≡ some payload)
              × (is_type payload.token_type access ≡ true)))
        (access_payload libs settings token s)
unfolding access_payload
payload_reads libs settings token s = ground arith

get_current_user-Authenticated :
    (libs : Libraries) (settings : Settings) (credentials : Option String) (s : Session)
    → Ensures
        (λ caller s'. (s' ≡ s) × Authenticated libs settings credentials s caller)
        (get_current_user libs settings credentials s)
unfolding get_current_user UserRepository.get_by_id
get_current_user-Authenticated libs settings credentials s =
    let Q = λ (caller : User × TenantContext) (s' : Session).
      (s' ≡ s) × Authenticated libs settings credentials s caller in
    Ensures-or_raise Q _ _ _ s λ token presented.
      Ensures-read Q
        (λ payload.
          (libs.jwt_decode s.now token settings.jwt_secret_key settings.jwt_algorithm
            ≡ some payload)
          × (is_type payload.token_type access ≡ true))
        _ _ s (payload_reads libs settings token s)
        λ payload read. Ensures-or_raise Q _ _ _ s λ company_id company.
          Ensures-run Q _ _ s _ s refl (
            Ensures-or_raise Q _ _ _ s λ user known. Ensures-raise_if Q _ _ _ s λ enabled. (
              refl,
              record {
                token = token;
                payload = payload;
                company_id = company_id;
                presented = presented;
                decoded = read.0;
                is_access = read.1;
                company = company;
                known = known;
                enabled = ground arith;
                context_user = refl;
                context_company = refl;
                context_branch = refl;
              },
            ))

-- An endpoint behind `require_permission` runs only for an authenticated, active user of the company
-- in the token, who holds a role to which the permission is attached; the check changes nothing.
pub require_permission-grants :
    (code : String) (libs : Libraries) (settings : Settings) (credentials : Option String)
    (s : Session) {caller : User × TenantContext} {s' : Session}
    → require_permission code libs settings credentials s ≡ (ok caller, s')
    → (s' ≡ s)
      × Authenticated libs settings credentials s caller
      × (grants s.db caller.0.id code ≡ true)
unfolding require_permission
require_permission-grants code libs settings credentials s e =
    let Q = λ (caller : User × TenantContext) (s' : Session).
      (s' ≡ s)
      × Authenticated libs settings credentials s caller
      × (grants s.db caller.0.id code ≡ true) in
    Ensures-ok Q _
      (Ensures-read Q (Authenticated libs settings credentials s) _ _ s
        (get_current_user-Authenticated libs settings credentials s)
        λ caller authenticated.
          let (codes, read, same) = get_effective_permission_codes-grants caller.0.id code s in
          Ensures-run Q _ _ s codes s read (
            Ensures-raise_if Q _ _ _ s
              λ allowed. (refl, authenticated, sym same ∙ not-false _ allowed)))
      e
