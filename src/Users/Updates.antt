-- ===== src/Users/Updates.antt =====
-- Optimistic locking in `UserService.update` of
-- backend/app/modules/users_roles_permissions/service.py.
use retail_os.Core.Optimistic.{versioned_update-once}
use retail_os.Core.Exceptions.{conflict_exception}
use retail_os.Core.Session.{err, ok, Session}
use retail_os.Users.Models.{User}
use retail_os.Users.Schemas.{UserUpdate}
use retail_os.Prelude.{refl, arith, false, true, ◌≡◌, ℕ}
use retail_os.Users.UserRepository
use retail_os.Users.UserService

stale_version :
    (company_id user_id v : ℕ) (request : UserUpdate) (u : User)
    → UserService.is_version company_id user_id v u ≡ true
    → UserService.is_version company_id user_id v (UserService.apply_changes request u) ≡ false
stale_version company_id user_id v request u h = ground arith

-- Of two updates of a user that change something and carry the same expected version, the second is
-- refused with a conflict when the first has returned, and writes nothing.
pub user_update-once :
    (company_id user_id v : ℕ) (request later : UserUpdate) (s : Session) {u : User} {s' : Session}
    → UserService.has_changes request ≡ true
    → UserService.has_changes later ≡ true
    → UserService.update company_id user_id request v s ≡ (ok u, s')
    → UserService.update company_id user_id later v s'
      ≡ (err (conflict_exception "User was modified by someone else. Reload and try again."), s')
unfolding UserService.update UserRepository.get_by_id
user_update-once company_id user_id v request later s changes changes' e = rw changes' (
    versioned_update-once (λ db. db.users) (λ users db. record db { users = users }) _ _ _ _
      (λ xs db. refl) (λ db. refl) _ _ _ _ s (stale_version company_id user_id v request)
      (rw changes at e))
