-- ===== src/Auth/Checked.antt =====
-- The check of a permission, `require_permission` of backend/app/modules/auth/dependencies.py, commits
-- nothing.
use retail_os.Core.Session.{Session, Result}
use retail_os.Users.Grants.{get_effective_permission_codes-grants}
use retail_os.Users.RbacService.{get_effective_permission_codes}
use retail_os.Core.Config.{Settings}
use retail_os.Core.Keeps.{keeps_rules, Keeps}
use retail_os.Core.Security.{Libraries}
use retail_os.Prelude.{List, ap, Option, arith, String, ℕ}
use retail_os.Auth.Dependencies.{require_permission, get_current_user, access_payload}
use retail_os.Users.UserRepository

access_payload-Keeps :
    (libs : Libraries) (settings : Settings) (token : String)
    → Keeps (access_payload libs settings token)
unfolding access_payload
access_payload-Keeps libs settings token = record { at = λ s. ground arith }

get_current_user-Keeps :
    (libs : Libraries) (settings : Settings) (credentials : Option String)
    → Keeps (get_current_user libs settings credentials)
unfolding get_current_user UserRepository.get_by_id
get_current_user-Keeps libs settings credentials =
    search (keeps_rules, access_payload-Keeps) depth 12

codes-Keeps : (user_id : ℕ) → Keeps (get_effective_permission_codes user_id)
codes-Keeps user_id = record {
  at = λ s.
      let (codes, read, same) = get_effective_permission_codes-grants user_id "" s in
      ap (λ (r : Result (List String) × Session). r.1.saved) read;
}

pub require_permission-Keeps :
    (code : String) (libs : Libraries) (settings : Settings) (credentials : Option String)
    → Keeps (require_permission code libs settings credentials)
unfolding require_permission
require_permission-Keeps code libs settings credentials =
    search (keeps_rules, get_current_user-Keeps, codes-Keeps) depth 12
