-- ===== src/Company/BranchRepository.antt =====
-- `BranchRepository` of backend/app/modules/company/repository.py. Names are ordered by their bytes.
use retail_os.Prelude.{
  ℕ, String, Bool, Option, List, [], ◌∷◌, ◌++◌, ◌&&◌, ◌==◌, is_none, str_eq, text_le,
}
use retail_os.Prelude.Rows.{select_one, select_all, order_by}
use retail_os.Core.Session.{M, gets, modify_db}
use retail_os.Company.Models.{Branch}

abbrev pub is_branch : ℕ → ℕ → Branch → Bool
is_branch company_id branch_id b =
    b.id == branch_id && (b.company_id == company_id && is_none b.deleted_at)

unfoldable pub get_by_id : ℕ → ℕ → M (Option Branch)
get_by_id company_id branch_id = gets λ s. select_one (is_branch company_id branch_id) s.db.branches

abbrev pub has_code : ℕ → String → Branch → Bool
has_code company_id code b =
    b.company_id == company_id && (str_eq b.code code && is_none b.deleted_at)

unfoldable pub get_by_code : ℕ → String → M (Option Branch)
get_by_code company_id code = gets λ s. select_one (has_code company_id code) s.db.branches

unfoldable pub list_for_company : ℕ → M (List Branch)
list_for_company company_id = gets λ s.
    order_by (λ x y. text_le x.name y.name)
      (select_all (λ b. b.company_id == company_id && is_none b.deleted_at) s.db.branches)

unfoldable pub create : Branch → M (Unit {0})
create branch = modify_db λ db. record db { branches = db.branches ++ branch ∷ [] }
