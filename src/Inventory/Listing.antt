-- ===== src/Inventory/Listing.antt =====
-- What `list_transactions` of backend/app/modules/inventory/api.py answers, and to whom.
use retail_os.Prelude.Tables.{All-map_to}
use retail_os.Prelude.Pages.{select_all-holds, All-order_by, All-take, length-take}
use retail_os.Auth.Dependencies.{require_permission}
use retail_os.Users.Grants.{grants}
use retail_os.Auth.Access.{require_permission-grants, Authenticated}
use retail_os.Auth.Schemas.{TenantContext}
use retail_os.Users.Models.{User}
use retail_os.Core.Ensures.{Ensures-intro, Ensures-bind, Ensures-ok, Ensures}
use retail_os.Core.Envelope.{SuccessEnvelope}
use retail_os.Csv.Wire.{Text}
use retail_os.Core.Time.{DateTime}
use retail_os.Core.Config.{Settings}
use retail_os.Core.Session.{ok, Session, ◌>>=◌}
use retail_os.Inventory.Cursors.{decode_cursor, Codecs}
use retail_os.Core.Security.{Libraries}
use retail_os.Inventory.History.{
  is_movement, stands, newer, selects, RawTransactionPage, list_page, page_of, TransactionFilter,
}
use retail_os.Prelude.{
  suc, ap, [], ◌∷◌, map, inr, inl, Option-cases, ◌+◌, List, ℕ, String, Option, some, none, ◌≡◌,
  true, ◌≤◌, refl, arith,
}
use retail_os.Prelude.Rows.{select_all, order_by, take, All, length}
use retail_os.Inventory.Models.{MovementType, StockTransaction}
use retail_os.Inventory.Endpoints
use retail_os.Inventory.Schemas

-- what a request asks of a row: the company of the caller, and each parameter that is given
abbrev pub Asked : ℕ → TransactionFilter → Schemas.StockTransactionRead → Type 0
Asked company_id filter t =
    (t.company_id ≡ company_id)
    × ((w : ℕ) → filter.warehouse_id ≡ some w → t.warehouse_id ≡ w)
    × ((v : ℕ) → filter.product_variant_id ≡ some v → t.product_variant_id ≡ v)
    × ((m : MovementType) → filter.movement_type ≡ some m → t.movement_type ≡ m)
    × ((d : DateTime) → filter.date_from ≡ some d → d ≤ t.created_at)
    × ((d : DateTime) → filter.date_to ≡ some d → t.created_at ≤ d)

is_movement-≡ : (a b : MovementType) → is_movement a b ≡ true → a ≡ b
is_movement-≡ a b h = ground arith

selects-Asked :
    (company_id : ℕ) (filter : TransactionFilter) (t : StockTransaction)
    → selects company_id filter t ≡ true
    → Asked company_id filter (Schemas.read_transaction t)
selects-Asked company_id filter t h = (
  ground arith,
  (λ w e. ground (arith, rw e at h)),
  (λ v e. ground (arith, rw e at h)),
  (λ m e. is_movement-≡ t.movement_type m (ground (arith, rw e at h))),
  (λ d e. ground (arith, rw e at h)),
  λ d e. ground (arith, rw e at h),
)

All-map :
    {A B : Type 0} (P : B → Type 0) (f : A → B) (xs : List A)
    → All (λ x. P (f x)) xs
    → All P (map f xs)
All-map P f [] h = tt
All-map P f (x ∷ xs) h = (h.0, All-map P f xs h.1)

-- what the repository's page has of that
abbrev IsPage : ℕ → TransactionFilter → ℕ → RawTransactionPage → Type 0
IsPage company_id filter limit page =
    (length page.items ≤ limit)
    × All (λ t. Asked company_id filter (Schemas.read_transaction t)) page.items

length-map : {A B : Type 0} (f : A → B) (xs : List A) → length (map f xs) ≡ length xs
length-map f [] = refl
length-map f (x ∷ xs) = ap suc (length-map f xs)

page_of-IsPage :
    (codecs : Codecs) (company_id : ℕ) (filter : TransactionFilter) (key : Option (DateTime × ℕ))
    (limit : ℕ) (rows : List StockTransaction)
    → IsPage company_id filter limit (
        page_of codecs limit
          (take (limit + 1) (order_by newer (select_all (stands company_id filter key) rows))))
unfolding page_of
page_of-IsPage codecs company_id filter key limit rows =
    let p = stands company_id filter key in
    let found = order_by newer (select_all p rows) in
    (
      length-take limit (take (limit + 1) found),
      All-map_to (λ t. p t ≡ true) (λ t. Asked company_id filter (Schemas.read_transaction t))
          (take limit (take (limit + 1) found))
          (λ t h. selects-Asked company_id filter t (ground arith))
          (All-take (λ t. p t ≡ true) limit (take (limit + 1) found)
            (All-take (λ t. p t ≡ true) (limit + 1) found
              (All-order_by (λ t. p t ≡ true) newer (select_all p rows)
                (select_all-holds p rows)))),
    )

list_page-IsPage :
    (codecs : Codecs) (company_id : ℕ) (filter : TransactionFilter) (cursor : Option Text)
    (limit : ℕ) (s : Session)
    → Ensures
        (λ page s'. (s' ≡ s) × IsPage company_id filter limit page)
        (list_page codecs company_id filter cursor limit s)
unfolding list_page ◌>>=◌
list_page-IsPage codecs company_id filter none limit s =
    (refl, page_of-IsPage codecs company_id filter none limit s.db.stock_transactions)
list_page-IsPage codecs company_id filter (some cursor) limit s =
    elim (Option-cases (decode_cursor codecs cursor)) [
      | inl e ↦ rw e tt
      | inr (k, e) ↦
          rw e
            (refl, page_of-IsPage codecs company_id filter (some k) limit s.db.stock_transactions)
    ]

module _ (libs : Libraries) (settings : Settings) (credentials : Option String) where
  pub record Listed (filter : TransactionFilter) (limit : ℕ)
      (answer : SuccessEnvelope (Schemas.Page Schemas.StockTransactionRead)) (s s' : Session)
      : Type 0 where
    pub unchanged : s' ≡ s
    pub caller : User × TenantContext
    pub authenticated : Authenticated libs settings credentials s caller
    pub granted : grants s.db caller.0.id "inventory.read" ≡ true
    pub page : Schemas.Page Schemas.StockTransactionRead
    pub is_answer : answer.contents ≡ some page
    pub bounded : length page.items ≤ limit
    pub asked : All (Asked caller.0.company_id filter) page.items

  -- A request for a page of the ledger that returns, whatever its cursor, was made by an active user who
  -- may read the inventory; its answer shows at most `limit` rows, all of them of that user's company, of
  -- the warehouse, variant and type of movement and in the span of time that the filter asks for, and the
  -- request changes nothing.
  pub list_transactions-Listed :
      (codecs : Codecs) (filter : TransactionFilter) (cursor : Option Text) (limit : ℕ)
      (s : Session) {answer : SuccessEnvelope (Schemas.Page Schemas.StockTransactionRead)}
      {s' : Session}
      → Endpoints.list_transactions libs settings credentials codecs filter cursor limit s
        ≡ (ok answer, s')
      → Listed filter limit answer s s'
  unfolding Endpoints.list_transactions Endpoints.with_permission
  list_transactions-Listed codecs filter cursor limit s e =
      let Q = λ (a : SuccessEnvelope (Schemas.Page Schemas.StockTransactionRead)) (s₁ : Session).
        Listed filter limit a s s₁ in
      Ensures-ok Q _
        (Ensures-bind Q
          (λ caller s₁.
            require_permission "inventory.read" libs settings credentials s ≡ (ok caller, s₁))
          _ _ s (Ensures-intro _ _ λ caller s₁ r. r)
          λ caller s₁ r.
            let h = require_permission-grants "inventory.read" libs settings credentials s r in
            rw (h.0) (
              Ensures-bind Q (λ page s₂. (s₂ ≡ s) × IsPage caller.0.company_id filter limit page) _
                _ s (list_page-IsPage codecs caller.0.company_id filter cursor limit s)
                λ page s₂ p. record {
                  unchanged = p.0;
                  caller = caller;
                  authenticated = h.1;
                  granted = h.2;
                  page = Schemas.read_page page;
                  is_answer = refl;
                  bounded = rw (length-map Schemas.read_transaction page.items) p.1.0;
                  asked =
                      All-map (Asked caller.0.company_id filter) Schemas.read_transaction page.items
                        p.1.1;
                }))
        e
