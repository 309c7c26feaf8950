-- ===== src/Company/CompanyRepository.antt =====
-- `CompanyRepository` of backend/app/modules/company/repository.py.
use retail_os.Prelude.{ℕ, Bool, Option, [], ◌∷◌, ◌++◌, ◌&&◌, ◌==◌, is_none}
use retail_os.Prelude.Rows.{select_one}
use retail_os.Core.Session.{M, gets, modify_db}
use retail_os.Company.Models.{Company}

abbrev pub is_company : ℕ → Company → Bool
is_company company_id c = c.id == company_id && is_none c.deleted_at

unfoldable pub get_by_id : ℕ → M (Option Company)
get_by_id company_id = gets λ s. select_one (is_company company_id) s.db.companies

unfoldable pub create : Company → M (Unit {0})
create company = modify_db λ db. record db { companies = db.companies ++ company ∷ [] }
