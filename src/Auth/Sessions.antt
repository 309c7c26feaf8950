-- ===== src/Auth/Sessions.antt =====
-- The branches and the device sessions in `AuthService` of backend/app/modules/auth/service.py.
use retail_os.Core.Exceptions.{not_found_exception, field_exception}
use retail_os.Prelude.Rows.{any, select_one}
use retail_os.Auth.Models.{RefreshToken}
use retail_os.Company.Models.{Branch}
use retail_os.Users.Models.{User}
use retail_os.Core.Config.{Settings}
use retail_os.Core.Session.{raise, raise_if, pure, ◌>>◌, gets, M, ◌>>=◌}
use retail_os.Prelude.{[], some, none, not, ◌==◌, ◌∷◌, String, List, ℕ}
use retail_os.Core.Security.{create_access_token, Libraries}
use retail_os.Company.BranchRepository
use retail_os.Auth.RefreshTokenRepository
use retail_os.Users.UserRepository

unfoldable pub switch_branch : Libraries → Settings → User → ℕ → M String
switch_branch libs settings user target_branch_id = do
  assigned ← UserRepository.get_assigned_branch_ids user.id
  raise_if (not (any (λ id. id == target_branch_id) assigned))
      (field_exception "You are not assigned to this branch" "branch_id")
  create_access_token libs settings user.id (some user.company_id) (some target_branch_id)

-- the loop over the assigned ids, which leaves out what is not a live branch of the company
abbrev pub live_branches : ℕ → List ℕ → M (List Branch)
live_branches company_id [] = pure []
live_branches company_id (id ∷ ids) = do
  found ← BranchRepository.get_by_id company_id id
  rest ← live_branches company_id ids
  pure (elim found [ none ↦ rest | some branch ↦ branch ∷ rest ])

unfoldable pub list_my_branches : User → M (List Branch)
unfolding ◌>>=◌ UserRepository.get_assigned_branch_ids BranchRepository.get_by_id
list_my_branches user = do
  assigned_ids ← UserRepository.get_assigned_branch_ids user.id
  live_branches user.company_id assigned_ids

abbrev pub list_sessions : ℕ → M (List RefreshToken)
list_sessions user_id = RefreshTokenRepository.list_active_for_user user_id

-- the loop over the user's active tokens, which ends at the first with this id
unfoldable pub revoke_session : ℕ → ℕ → M (Unit {0})
unfolding ◌>>=◌ RefreshTokenRepository.list_active_for_user RefreshTokenRepository.revoke
revoke_session user_id session_id = do
  tokens ← RefreshTokenRepository.list_active_for_user user_id
  now ← gets (λ s. s.now)
  elim (select_one (λ (t : RefreshToken). t.id == session_id) tokens) [
    | none ↦ raise (not_found_exception "Session not found")
    | some t ↦ RefreshTokenRepository.revoke t now
  ]
