-- ===== src/Catalog/Upkeep.antt =====
-- Sequences of the requests of Catalog/Requests.antt keep the catalogue of
-- backend/app/modules/products_catalog.
use retail_os.Catalog.ImportAtomic.{import_company_products-Keeps, rescued-Keeps}
use retail_os.Auth.Checked.{require_permission-Keeps}
use retail_os.Catalog.Invariant.{IsCatalog}
use retail_os.Catalog.Atomic.{
  add_image-Keeps, add_barcode-Keeps, update_variant-Keeps, add_variant-Keeps, update_product-Keeps,
  create_product-Keeps, create_unit-Keeps, update_brand-Keeps, create_brand-Keeps,
  update_category-Keeps, create_category-Keeps,
}
use retail_os.Core.Keeps.{
  Keeps-or_raise, Keeps-pure, Keeps-bind, get_db_session-invariant, IsCommitted, Keeps,
}
use retail_os.Catalog.Endpoints.{guarded}
use retail_os.Core.Session.{pure, ◌>>=◌, M, Session}
use retail_os.Core.Time.{DateTime}
use retail_os.Prelude.{[], ◌∷◌, sym, subst, ℕ, String, List, Option}
use retail_os.Core.Config.{Settings}
use retail_os.Core.Security.{Libraries}
use retail_os.Catalog.Endpoints.Groups
use retail_os.Catalog.Endpoints.Products
use retail_os.Catalog.Endpoints.Variants
use retail_os.Catalog.Endpoints.Files
use retail_os.Catalog.Requests.{Request, Call, perform, serve, serve_all}
use retail_os.Catalog.Serving.{perform-IsCatalog}

module _ (libs : Libraries) (settings : Settings) (credentials : Option String) where
  endpoint-Keeps :
      {A B : Type 0} (code : String) (service : ℕ → M A) (view : A → B)
      → ((company_id : ℕ) → Keeps (service company_id))
      → Keeps (
          guarded code libs settings credentials
            (λ company_id. service company_id >>= λ x. pure (view x))
          >>= λ _. pure tt)
  unfolding guarded
  endpoint-Keeps code service view k =
      Keeps-bind _ _
        (Keeps-bind _ _ (require_permission-Keeps code libs settings credentials)
          λ caller. Keeps-bind _ _ (k caller.0.company_id) λ x. Keeps-pure _)
        λ _. Keeps-pure tt

  perform-Keeps : (request : Request) → Keeps (perform libs settings credentials request)
  unfolding perform Groups.create_category Groups.update_category Groups.create_brand
      Groups.update_brand Groups.create_unit Products.create_product Products.update_product
      Products.disable_product Variants.add_product_variant Variants.update_product_variant
      Variants.add_variant_barcode Variants.add_product_image Files.import_products guarded
  perform-Keeps (Request.create_category r) = endpoint-Keeps _ _ _ λ c. create_category-Keeps c r
  perform-Keeps (Request.update_category id r v) =
      endpoint-Keeps _ _ _ λ c. update_category-Keeps c id v r
  perform-Keeps (Request.create_brand r) = endpoint-Keeps _ _ _ λ c. create_brand-Keeps c r
  perform-Keeps (Request.update_brand id r v) =
      endpoint-Keeps _ _ _ λ c. update_brand-Keeps c id v r
  perform-Keeps (Request.create_unit r) = endpoint-Keeps _ _ _ λ c. create_unit-Keeps c r
  perform-Keeps (Request.create_product r) = endpoint-Keeps _ _ _ λ c. create_product-Keeps c r
  perform-Keeps (Request.update_product id r v) =
      endpoint-Keeps _ _ _ λ c. update_product-Keeps c id v r
  perform-Keeps (Request.disable_product id v) =
      endpoint-Keeps _ _ _ λ c. update_product-Keeps c id v Products.disabling
  perform-Keeps (Request.add_product_variant id r) =
      endpoint-Keeps _ _ _ λ c. add_variant-Keeps c id r
  perform-Keeps (Request.update_product_variant id r v) =
      endpoint-Keeps _ _ _ λ c. update_variant-Keeps c id v r
  perform-Keeps (Request.add_variant_barcode id r) =
      endpoint-Keeps _ _ _ λ c. add_barcode-Keeps c id r
  perform-Keeps (Request.add_product_image id r) = endpoint-Keeps _ _ _ λ c. add_image-Keeps c id r
  perform-Keeps (Request.import_products file) =
      Keeps-bind _ _
        (Keeps-bind _ _ (require_permission-Keeps _ libs settings credentials) λ caller.
          Keeps-bind _ _ (Keeps-or_raise file _) λ csv_text.
            Keeps-bind _ _
              (rescued-Keeps _ (import_company_products-Keeps caller.0.company_id csv_text))
              λ x. Keeps-pure _)
        λ _. Keeps-pure tt

module _ (libs : Libraries) (settings : Settings) where
  serve-IsCatalog :
      (now : DateTime) (credentials : Option String) (request : Request) (s : Session)
      → IsCommitted s
      → IsCatalog s.saved
      → IsCommitted (serve libs settings (now, credentials, request) s)
        × IsCatalog (serve libs settings (now, credentials, request) s).saved
  unfolding serve
  serve-IsCatalog now credentials request s c h =
      let s₀ : Session = record s { now = now } in
      get_db_session-invariant IsCatalog (perform libs settings credentials request) s₀
        (perform-Keeps libs settings credentials request)
        (perform-IsCatalog libs settings credentials request s₀ (subst IsCatalog (sym c) h)) h

  -- From a committed session whose catalogue is in order, whatever requests are served one after the
  -- other, and whether each of them succeeds or is refused, the session is committed again, and in the
  -- catalogue every product has a variant, no two products of a company and no two variants of a
  -- company share a SKU, and no variant has two primary barcodes.
  pub serve_all-IsCatalog :
      (xs : List Call) (s : Session)
      → IsCommitted s
      → IsCatalog s.saved
      → IsCommitted (serve_all libs settings xs s) × IsCatalog (serve_all libs settings xs s).saved
  unfolding serve_all
  serve_all-IsCatalog [] s c h = (c, h)
  serve_all-IsCatalog (x ∷ xs) s c h =
      let k = serve-IsCatalog x.0 x.1 x.2 s c h in
      serve_all-IsCatalog xs (serve libs settings x s) k.0 k.1
