-- ===== src/Catalog/Serving.antt =====
-- The requests of Catalog/Requests.antt on the catalogue of
-- backend/app/modules/products_catalog: what they keep, and who may make them.
use retail_os.Catalog.Importing.{import_company_products-IsCatalog, rescued-Ensures}
use retail_os.Catalog.GroupsKept.{
  create_unit-Leaves, update_brand-Leaves, create_brand-Leaves, update_category-Leaves,
  create_category-Leaves,
}
use retail_os.Catalog.ProductsKept.{
  add_image-IsCatalog, add_barcode-IsCatalog, update_variant-IsCatalog, add_variant-IsCatalog,
  update_product-IsCatalog, create_product-IsCatalog, Catalogued,
}
use retail_os.Users.Grants.{grants}
use retail_os.Auth.Dependencies.{require_permission}
use retail_os.Auth.Access.{require_permission-grants, Authenticated}
use retail_os.Auth.Schemas.{TenantContext}
use retail_os.Catalog.Endpoints.{guarded}
use retail_os.Core.Ensures.{
  Ensures-or_raise, Ensures-weaken, Ensures-ok, Ensures-always, Ensures-intro, Ensures-bind,
  Ensures,
}
use retail_os.Users.Models.{User}
use retail_os.Catalog.Invariant.{Untouched-IsCatalog, Untouched, IsCatalog}
use retail_os.Core.Config.{Settings}
use retail_os.Catalog.Requests.{Request, permission, perform}
use retail_os.Core.Session.{Result, ok, pure, ◌>>=◌, Session, M}
use retail_os.Core.Security.{Libraries}
use retail_os.Prelude.{true, ◌≡◌, ℕ, Option, String}
use retail_os.Catalog.Endpoints.Groups
use retail_os.Catalog.Endpoints.Products
use retail_os.Catalog.Endpoints.Variants
use retail_os.Catalog.Endpoints.Files

-- the caller of a request has the permission
pub record Permitted (code : String) (libs : Libraries) (settings : Settings)
    (credentials : Option String) (s : Session) : Type 0 where
  pub caller : User × TenantContext
  pub authenticated : Authenticated libs settings credentials s caller
  pub granted : grants s.db caller.0.id code ≡ true

module _ (libs : Libraries) (settings : Settings) (credentials : Option String) where
  pub require_permission-Permitted :
      (code : String) (s : Session)
      → Ensures
          (λ _ s'. (s' ≡ s) × Permitted code libs settings credentials s)
          (require_permission code libs settings credentials s)
  require_permission-Permitted code s = Ensures-intro _ _ λ caller s' e.
      let h = require_permission-grants code libs settings credentials s e in
      (h.0, record { caller = caller; authenticated = h.1; granted = h.2 })

  pub guarded-Ensures :
      {A : Type 0} (Q : A → Session → Type 0) (code : String) (action : ℕ → M A) (s : Session)
      → ((company_id : ℕ)
          → Permitted code libs settings credentials s
          → Ensures Q (action company_id s))
      → Ensures Q (guarded code libs settings credentials action s)
  unfolding guarded
  guarded-Ensures Q code action s k =
      Ensures-bind Q _ _ _ s (require_permission-Permitted code s)
        λ caller s' h. rw (h.0) (k caller.0.company_id h.1)

  endpoint-IsCatalog :
      {A B : Type 0} (code : String) (service : ℕ → M A) (view : A → B) (s : Session)
      → ((company_id : ℕ) → Ensures Catalogued (service company_id s))
      → Ensures Catalogued (
          (guarded code libs settings credentials
                (λ company_id. service company_id >>= λ x. pure (view x))
              >>= λ _. pure tt)
            s)
  endpoint-IsCatalog code service view s k =
      Ensures-bind _ Catalogued _ _ s
        (guarded-Ensures Catalogued code _ s
          λ company_id _. Ensures-bind _ Catalogued _ _ s (k company_id) λ x s' h. h)
        λ x s' h. h

  endpoint-Permitted :
      {A : Type 0} (code : String) (action : ℕ → M A) (s : Session)
      → Ensures
          (λ _ _. Permitted code libs settings credentials s)
          ((guarded code libs settings credentials action >>= λ _. pure tt) s)
  endpoint-Permitted code action s =
      Ensures-bind _ (λ _ _. Permitted code libs settings credentials s) _ _ s
        (guarded-Ensures (λ _ _. Permitted code libs settings credentials s) code action s
          λ company_id h. Ensures-always _ _ λ _ _. h)
        λ x s' h. h

left_alone :
    {A : Type 0} (r : Result A × Session) (s : Session)
    → IsCatalog s.db
    → Ensures (λ _ s'. Untouched s.db s'.db) r
    → Ensures Catalogued r
left_alone r s h e = Ensures-weaken Catalogued _ r e λ x s' u. Untouched-IsCatalog s.db s'.db u h

-- A request that returns keeps the catalogue.
pub perform-IsCatalog :
    (libs : Libraries) (settings : Settings) (credentials : Option String) (request : Request)
    (s : Session)
    → IsCatalog s.db
    → Ensures Catalogued (perform libs settings credentials request s)
unfolding perform Groups.create_category Groups.update_category Groups.create_brand
    Groups.update_brand Groups.create_unit Products.create_product Products.update_product
    Products.disable_product Variants.add_product_variant Variants.update_product_variant
    Variants.add_variant_barcode Variants.add_product_image Files.import_products
perform-IsCatalog libs settings credentials (Request.create_category r) s h =
    endpoint-IsCatalog libs settings credentials _ _ _ s
      λ company. left_alone _ s h (create_category-Leaves company r s)
perform-IsCatalog libs settings credentials (Request.update_category id r v) s h =
    endpoint-IsCatalog libs settings credentials _ _ _ s
      λ company. left_alone _ s h (update_category-Leaves company id v r s)
perform-IsCatalog libs settings credentials (Request.create_brand r) s h =
    endpoint-IsCatalog libs settings credentials _ _ _ s
      λ company. left_alone _ s h (create_brand-Leaves company r s)
perform-IsCatalog libs settings credentials (Request.update_brand id r v) s h =
    endpoint-IsCatalog libs settings credentials _ _ _ s
      λ company. left_alone _ s h (update_brand-Leaves company id v r s)
perform-IsCatalog libs settings credentials (Request.create_unit r) s h =
    endpoint-IsCatalog libs settings credentials _ _ _ s
      λ company. left_alone _ s h (create_unit-Leaves company r s)
perform-IsCatalog libs settings credentials (Request.create_product r) s h =
    endpoint-IsCatalog libs settings credentials _ _ _ s
      λ company. create_product-IsCatalog company r s h
perform-IsCatalog libs settings credentials (Request.update_product id r v) s h =
    endpoint-IsCatalog libs settings credentials _ _ _ s
      λ company. update_product-IsCatalog company id v r s h
perform-IsCatalog libs settings credentials (Request.disable_product id v) s h =
    endpoint-IsCatalog libs settings credentials _ _ _ s
      λ company. update_product-IsCatalog company id v Products.disabling s h
perform-IsCatalog libs settings credentials (Request.add_product_variant id r) s h =
    endpoint-IsCatalog libs settings credentials _ _ _ s
      λ company. add_variant-IsCatalog company id r s h
perform-IsCatalog libs settings credentials (Request.update_product_variant id r v) s h =
    endpoint-IsCatalog libs settings credentials _ _ _ s
      λ company. update_variant-IsCatalog company id v r s h
perform-IsCatalog libs settings credentials (Request.add_variant_barcode id r) s h =
    endpoint-IsCatalog libs settings credentials _ _ _ s
      λ company. add_barcode-IsCatalog company id r s h
perform-IsCatalog libs settings credentials (Request.add_product_image id r) s h =
    endpoint-IsCatalog libs settings credentials _ _ _ s
      λ company. add_image-IsCatalog company id r s h
perform-IsCatalog libs settings credentials (Request.import_products file) s h =
    Ensures-bind _ Catalogued _ _ s
      (guarded-Ensures libs settings credentials Catalogued _ _ s λ company _.
        Ensures-or_raise Catalogued _ _ _ s λ csv_text _.
          Ensures-bind _ Catalogued _ _ s
            (rescued-Ensures Catalogued _ s
              (import_company_products-IsCatalog company csv_text s h))
            λ x s' k. k)
      λ x s' k. k

-- A request that returns was made by an active user of the company in a valid access token, who holds a
-- role with the permission that its endpoint asks for.
pub perform-Permitted :
    (libs : Libraries) (settings : Settings) (credentials : Option String) (request : Request)
    (s : Session) {s' : Session}
    → perform libs settings credentials request s ≡ (ok tt, s')
    → Permitted (permission request) libs settings credentials s
unfolding perform permission Groups.create_category Groups.update_category Groups.create_brand
    Groups.update_brand Groups.create_unit Products.create_product Products.update_product
    Products.disable_product Variants.add_product_variant Variants.update_product_variant
    Variants.add_variant_barcode Variants.add_product_image Files.import_products
perform-Permitted libs settings credentials (Request.create_category r) s e =
    Ensures-ok _ _ (endpoint-Permitted libs settings credentials _ _ s) e
perform-Permitted libs settings credentials (Request.update_category id r v) s e =
    Ensures-ok _ _ (endpoint-Permitted libs settings credentials _ _ s) e
perform-Permitted libs settings credentials (Request.create_brand r) s e =
    Ensures-ok _ _ (endpoint-Permitted libs settings credentials _ _ s) e
perform-Permitted libs settings credentials (Request.update_brand id r v) s e =
    Ensures-ok _ _ (endpoint-Permitted libs settings credentials _ _ s) e
perform-Permitted libs settings credentials (Request.create_unit r) s e =
    Ensures-ok _ _ (endpoint-Permitted libs settings credentials _ _ s) e
perform-Permitted libs settings credentials (Request.create_product r) s e =
    Ensures-ok _ _ (endpoint-Permitted libs settings credentials _ _ s) e
perform-Permitted libs settings credentials (Request.update_product id r v) s e =
    Ensures-ok _ _ (endpoint-Permitted libs settings credentials _ _ s) e
perform-Permitted libs settings credentials (Request.disable_product id v) s e =
    Ensures-ok _ _ (endpoint-Permitted libs settings credentials _ _ s) e
perform-Permitted libs settings credentials (Request.add_product_variant id r) s e =
    Ensures-ok _ _ (endpoint-Permitted libs settings credentials _ _ s) e
perform-Permitted libs settings credentials (Request.update_product_variant id r v) s e =
    Ensures-ok _ _ (endpoint-Permitted libs settings credentials _ _ s) e
perform-Permitted libs settings credentials (Request.add_variant_barcode id r) s e =
    Ensures-ok _ _ (endpoint-Permitted libs settings credentials _ _ s) e
perform-Permitted libs settings credentials (Request.add_product_image id r) s e =
    Ensures-ok _ _ (endpoint-Permitted libs settings credentials _ _ s) e
perform-Permitted libs settings credentials (Request.import_products file) s e =
    Ensures-ok _ _ (endpoint-Permitted libs settings credentials _ _ s) e
