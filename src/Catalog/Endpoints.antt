-- ===== src/Catalog/Endpoints.antt =====
-- backend/app/modules/products_catalog/api.py: the endpoints of the catalogue. Each one runs behind
-- `Depends(require_permission(...))`, on the company of the caller.
pub mod Groups
pub mod Products
pub mod Variants
pub mod Files
use retail_os.Prelude.{ℕ, String, Option}
use retail_os.Core.Session.{M, ◌>>=◌}
use retail_os.Core.Security.{Libraries}
use retail_os.Core.Config.{Settings}
use retail_os.Auth.Dependencies.{require_permission}

-- `current_user: User = Depends(require_permission(code))`, and what is done for its company
unfoldable pub guarded :
    {A : Type 0} → String → Libraries → Settings → Option String → (ℕ → M A) → M A
guarded code libs settings credentials action =
    require_permission code libs settings credentials >>= λ caller. action caller.0.company_id
