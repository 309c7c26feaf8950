-- ===== src/Inventory/Calls.antt =====
-- The endpoints of backend/app/modules/inventory/api.py that write, as requests with their caller.
use retail_os.Inventory.Models.{StockTransfer, StockTransaction}
use retail_os.Prelude.Int.{ℤ}
use retail_os.Auth.Dependencies.{require_permission}
use retail_os.Users.Grants.{grants}
use retail_os.Auth.Access.{require_permission-grants, Authenticated}
use retail_os.Core.Ensures.{Ensures-intro, Ensures-bind, Ensures-ok, Ensures}
use retail_os.Auth.Schemas.{TenantContext}
use retail_os.Core.Session.{pure, ok, ◌>>=◌, Session, M}
use retail_os.Core.Config.{Settings}
use retail_os.Core.Security.{Libraries}
use retail_os.Prelude.{refl, some, ℕ, String, Option, ◌≡◌, true}
use retail_os.Users.Models.{User}
use retail_os.Inventory.Operations.{StockRequest, receive, issue, adjust}
use retail_os.Inventory.Operations
use retail_os.Inventory.Schemas
use retail_os.Inventory.Endpoints

pub data Request : Type 0 where
  stock_in : Schemas.StockInRequest → Request
  stock_out : Schemas.StockOutRequest → Request
  adjustment : Schemas.AdjustmentRequest → Request
  transfer : Schemas.TransferRequest → Request

-- the permission that an endpoint asks for
unfoldable pub permission : Request → String
permission (Request.stock_in r) = "inventory.stock_in"
permission (Request.stock_out r) = "inventory.stock_out"
permission (Request.adjustment r) = "inventory.adjust"
permission (Request.transfer r) = "inventory.transfer"

module _ (libs : Libraries) (settings : Settings) (credentials : Option String) where
  unfoldable pub perform : Request → M (Unit {0})
  perform (Request.stock_in r) = Endpoints.stock_in libs settings credentials r >>= λ _. pure tt
  perform (Request.stock_out r) = Endpoints.stock_out libs settings credentials r >>= λ _. pure tt
  perform (Request.adjustment r) =
      Endpoints.adjust_stock libs settings credentials r >>= λ _. pure tt
  perform (Request.transfer r) =
      Endpoints.transfer_stock libs settings credentials r >>= λ _. pure tt

-- The arguments are the caller's company and id, and what the request names.
abbrev pub IsMovement : User → ℕ → ℕ → ℤ → Option String → Option String → StockRequest → Type 0
IsMovement user warehouse_id product_variant_id quantity reason note q =
    (q.company_id ≡ user.company_id)
    × (q.user_id ≡ user.id)
    × (q.warehouse_id ≡ warehouse_id)
    × (q.product_variant_id ≡ product_variant_id)
    × (q.quantity ≡ quantity)
    × (q.reason ≡ reason)
    × (q.note ≡ note)

abbrev pub IsTransfer : User → Schemas.TransferRequest → Operations.TransferRequest → Type 0
IsTransfer user r q =
    (q.company_id ≡ user.company_id)
    × (q.user_id ≡ user.id)
    × (q.from_warehouse_id ≡ r.from_warehouse_id)
    × (q.to_warehouse_id ≡ r.to_warehouse_id)
    × (q.product_variant_id ≡ r.product_variant_id)
    × (q.quantity ≡ r.quantity)
    × (q.note ≡ r.note)

-- The operation of the service that a request asks for has made `s'` of `s`.
abbrev pub Done : Request → User → Session → Session → Type 0
Done (Request.stock_in r) user s s' =
    (q : StockRequest) × IsMovement user r.warehouse_id r.product_variant_id r.quantity r.reason
      r.note q
    × ((t : StockTransaction) × (receive q s ≡ (ok t, s')))
Done (Request.stock_out r) user s s' =
    (q : StockRequest) × IsMovement user r.warehouse_id r.product_variant_id r.quantity r.reason
      r.note q
    × ((t : StockTransaction) × (issue q s ≡ (ok t, s')))
Done (Request.adjustment r) user s s' =
    (q : StockRequest) × IsMovement user r.warehouse_id r.product_variant_id r.counted_quantity
      (some r.reason) r.note q
    × ((t : StockTransaction) × (adjust q s ≡ (ok t, s')))
Done (Request.transfer r) user s s' =
    (q : Operations.TransferRequest) × IsTransfer user r q
    × ((t : StockTransfer) × (Operations.transfer q s ≡ (ok t, s')))

module _ (libs : Libraries) (settings : Settings) (credentials : Option String) where
  -- an active user with the permission, for whom `Did` holds
  pub record Called (code : String) (Did : User → Type 0) (s : Session) : Type 0 where
    pub caller : User × TenantContext
    pub authenticated : Authenticated libs settings credentials s caller
    pub granted : grants s.db caller.0.id code ≡ true
    pub did : Did caller.0

  endpoint-Called :
      {A B : Type 0} (code : String) (service : User → M A) (view : A → B)
      (Did : User → Session → Type 0) (s : Session)
      → ((user : User) (x : A) (s' : Session) → service user s ≡ (ok x, s') → Did user s')
      → Ensures
          (λ _ s'. Called code (λ user. Did user s') s)
          ((Endpoints.with_permission libs settings credentials code
                (λ user. service user >>= λ x. pure (view x))
              >>= λ _. pure tt)
            s)
  unfolding Endpoints.with_permission
  endpoint-Called {A = A} {B = B} code service view Did s k =
      let Q : Unit {0} → Session → Type 0 = λ _ s'. Called code (λ user. Did user s') s in
      let R : B → Session → Type 0 = λ _ s'. Called code (λ user. Did user s') s in
      Ensures-bind Q R _ _ s
        (Ensures-bind R
          (λ caller s₁. require_permission code libs settings credentials s ≡ (ok caller, s₁)) _ _ s
          (Ensures-intro _ _ λ caller s₁ e. e)
          λ caller s₁ e.
            let h = require_permission-grants code libs settings credentials s e in
            rw (h.0) (
              Ensures-bind R (λ x s'. service caller.0 s ≡ (ok x, s')) _ _ s
                (Ensures-intro _ _ λ x s' e. e)
                λ x s' p. record {
                  caller = caller;
                  authenticated = h.1;
                  granted = h.2;
                  did = k caller.0 x s' p;
                }))
        λ x s' h. h

  -- A request on the stock that returns was made by an active user of the company in a valid access
  -- token, who holds a role with the permission that its endpoint asks for, and has done to the session
  -- what the service's operation does with that user's company and id and with the warehouses, variant,
  -- quantity, reason and note of the request.
  pub perform-Called :
      (request : Request) (s : Session) {s' : Session}
      → perform libs settings credentials request s ≡ (ok tt, s')
      → Called (permission request) (λ user. Done request user s s') s
  unfolding perform permission Endpoints.stock_in Endpoints.stock_out Endpoints.adjust_stock
      Endpoints.transfer_stock
  perform-Called (Request.stock_in r) s e =
      Ensures-ok _ _
        (endpoint-Called "inventory.stock_in" (λ user. receive (Endpoints.to_receive user r)) _
          (λ user s'. Done (Request.stock_in r) user s s') s
          λ user t s' p.
            (Endpoints.to_receive user r, (refl, refl, refl, refl, refl, refl, refl), (t, p)))
        e
  perform-Called (Request.stock_out r) s e =
      Ensures-ok _ _
        (endpoint-Called "inventory.stock_out" (λ user. issue (Endpoints.to_issue user r)) _
          (λ user s'. Done (Request.stock_out r) user s s') s
          λ user t s' p.
            (Endpoints.to_issue user r, (refl, refl, refl, refl, refl, refl, refl), (t, p)))
        e
  perform-Called (Request.adjustment r) s e =
      Ensures-ok _ _
        (endpoint-Called "inventory.adjust" (λ user. adjust (Endpoints.to_adjust user r)) _
          (λ user s'. Done (Request.adjustment r) user s s') s
          λ user t s' p.
            (Endpoints.to_adjust user r, (refl, refl, refl, refl, refl, refl, refl), (t, p)))
        e
  perform-Called (Request.transfer r) s e =
      Ensures-ok _ _
        (endpoint-Called "inventory.transfer"
          (λ user. Operations.transfer (Endpoints.to_transfer user r)) _
          (λ user s'. Done (Request.transfer r) user s s') s
          λ user t s' p.
            (Endpoints.to_transfer user r, (refl, refl, refl, refl, refl, refl, refl), (t, p)))
        e
