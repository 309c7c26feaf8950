-- ===== src/Auth/Dependencies.antt =====
-- backend/app/modules/auth/dependencies.py: the user of a request, the tenant context, and the check of
-- a permission.
use retail_os.Prelude.Rows.{any}
use retail_os.Users.RbacService.{get_effective_permission_codes}
use retail_os.Auth.Schemas.{TenantContext}
use retail_os.Users.Models.{User}
use retail_os.Core.Exceptions.{unauthorized_exception, permission_denied_exception, Exception}
use retail_os.Core.Config.{Settings}
use retail_os.Core.Session.{pure, raise_if, ◌>>◌, err, or_raise, ok, M, ◌>>=◌}
use retail_os.Prelude.{str_eq, not, [], ◌∷◌, concat, Option, String}
use retail_os.Core.Security.{access, TokenPayload, Libraries, decode_token}
use retail_os.Users.UserRepository

-- `decode_token`, with `InvalidTokenError` turned into a 401
unfoldable pub access_payload : Libraries → Settings → String → M TokenPayload
unfolding decode_token ◌>>=◌
access_payload libs settings token s =
    let (r, s') = decode_token libs settings token access s in
    elim r [
      | ok payload ↦ (ok payload, s')
      | err e ↦ (err (unauthorized_exception "Invalid or expired access token"), s')
    ]

-- The user, with the context that is set for the rest of the request.
unfoldable pub get_current_user : Libraries → Settings → Option String → M (User × TenantContext)
get_current_user libs settings credentials = do
  token ← or_raise credentials (unauthorized_exception "Missing bearer token")
  payload ← access_payload libs settings token
  company_id ← or_raise payload.company_id (unauthorized_exception "Malformed access token")
  found ← UserRepository.get_by_id company_id payload.sub
  user ← or_raise found (unauthorized_exception "Account is no longer active")
  raise_if (not user.is_active) (unauthorized_exception "Account is no longer active")
  pure (
    user,
    record { user_id = user.id; company_id = user.company_id; branch_id = payload.branch_id },
  )

abbrev pub forbidden : String → Exception
forbidden permission_code =
    permission_denied_exception
      (concat ("You do not have the '" ∷ permission_code ∷ "' permission" ∷ []))

-- `require_permission`'s check
unfoldable pub require_permission :
    String → Libraries → Settings → Option String → M (User × TenantContext)
require_permission permission_code libs settings credentials = do
  caller ← get_current_user libs settings credentials
  codes ← get_effective_permission_codes caller.0.id
  raise_if (not (any (str_eq permission_code) codes)) (forbidden permission_code)
  pure caller
