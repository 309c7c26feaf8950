-- ===== src/Company/Updates.antt =====
-- Optimistic locking in `CompanyService.update` and `BranchService.update` of
-- backend/app/modules/company/service.py.
use retail_os.Core.Optimistic.{versioned_update-once}
use retail_os.Core.Exceptions.{conflict_exception}
use retail_os.Company.Models.{Branch, Company}
use retail_os.Core.Session.{err, ok, Session}
use retail_os.Company.BranchRepository.{is_branch}
use retail_os.Company.CompanyRepository.{is_company}
use retail_os.Company.Schemas.{BranchUpdate, CompanyUpdate}
use retail_os.Prelude.{refl, arith, false, true, ◌≡◌, ℕ}
use retail_os.Company.CompanyRepository
use retail_os.Company.CompanyService
use retail_os.Company.BranchRepository
use retail_os.Company.BranchService

company_version :
    (id v : ℕ) (request : CompanyUpdate) (c : Company)
    → CompanyService.is_version id v c ≡ true
    → CompanyService.is_version id v (CompanyService.apply_changes request c) ≡ false
company_version id v request c h = ground arith

branch_version :
    (company_id id v : ℕ) (request : BranchUpdate) (b : Branch)
    → BranchService.is_version company_id id v b ≡ true
    → BranchService.is_version company_id id v (BranchService.apply_changes request b) ≡ false
branch_version company_id id v request b h = ground arith

-- Of two updates of a company that change something and carry the same expected version, the second
-- is refused with a conflict when the first has returned, and writes nothing.
pub company_update-once :
    (id v : ℕ) (request later : CompanyUpdate) (s : Session) {c : Company} {s' : Session}
    → CompanyService.has_changes request ≡ true
    → CompanyService.has_changes later ≡ true
    → CompanyService.update id request v s ≡ (ok c, s')
    → CompanyService.update id later v s'
      ≡ (err (conflict_exception "Company was modified by someone else. Reload and try again."), s')
unfolding CompanyService.update CompanyRepository.get_by_id
company_update-once id v request later s changes changes' e = rw changes' (
    versioned_update-once (λ db. db.companies) (λ companies db. record db { companies = companies })
      _ _ _ _ (λ xs db. refl) (λ db. refl) _ _ _ _ s (company_version id v request)
      (rw changes at e))

-- Of two updates of a branch that change something and carry the same expected version, the second
-- is refused with a conflict when the first has returned, and writes nothing.
pub branch_update-once :
    (company_id id v : ℕ) (request later : BranchUpdate) (s : Session) {b : Branch} {s' : Session}
    → BranchService.has_changes request ≡ true
    → BranchService.has_changes later ≡ true
    → BranchService.update company_id id request v s ≡ (ok b, s')
    → BranchService.update company_id id later v s'
      ≡ (err (conflict_exception "Branch was modified by someone else. Reload and try again."), s')
unfolding BranchService.update BranchRepository.get_by_id
branch_update-once company_id id v request later s changes changes' e = rw changes' (
    versioned_update-once (λ db. db.branches) (λ branches db. record db { branches = branches }) _ _
      _ _ (λ xs db. refl) (λ db. refl) _ _ _ _ s (branch_version company_id id v request)
      (rw changes at e))
