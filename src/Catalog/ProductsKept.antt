-- ===== src/Catalog/ProductsKept.antt =====
-- The operations on products, variants and barcodes of
-- backend/app/modules/products_catalog/service.py keep the catalogue as Catalog/Invariant.antt has it.
use retail_os.Catalog.Primary.{add_barcode-KeptPrimary, KeptPrimary}
use retail_os.Core.Optimistic.{Ensures-versioned}
use retail_os.Prelude.Distinct.{Distinct-append, Distinct-update_where}
use retail_os.Catalog.Updates.{check_brand-reads, renamed-reads, check_category-reads}
use retail_os.Catalog.Creation.{create_product, new_variant}
use retail_os.Prelude.Tables.{any-update_where, All-map_to, All-update_where}
use retail_os.Core.Ensures.{
  Ensures-bind, Ensures-when, Ensures-reads, Ensures-move, Ensures-or_raise, Ensures-raise_if,
  Ensures-weaken, Ensures-run, Ensures-check, Ensures-if, Ensures,
}
use retail_os.Catalog.Creating.{
  variant_create-Written, create_product-Created, Created, product_taken, variant_written,
  variant_taken,
}
use retail_os.Core.Db.{Db}
use retail_os.Catalog.Schemas.{
  ProductImageCreate, ProductBarcodeCreate, ProductVariantInput, ProductVariantUpdate,
  ProductUpdate, ProductCreate,
}
use retail_os.Catalog.Invariant.{
  Untouched-IsCatalog, Untouched, Created-IsCatalog, more_variants, HasVariant, IsCatalog,
}
use retail_os.Prelude.Rows.{update_where, any}
use retail_os.Catalog.Changes.{update_product}
use retail_os.Prelude.{List, true, not, ◌∙◌, refl, [], ◌==◌, ◌∷◌, ◌+◌, false, arith, ◌≡◌, Bool, ℕ}
use retail_os.Core.Session.{uuid4, for_each, Session}
use retail_os.Catalog.Models.{ProductImage, Product, ProductVariant}
use retail_os.Catalog.ProductRepository.{is_product}
use retail_os.Catalog.ProductRepository
use retail_os.Catalog.ProductService
use retail_os.Catalog.ProductVariantRepository
use retail_os.Catalog.ProductVariantService
use retail_os.Catalog.ProductBarcodeService
use retail_os.Catalog.ProductImageService
use retail_os.Catalog.ProductImageRepository
use retail_os.Catalog.Changes

-- products are updated, but for their id, company and SKU
products-IsCatalog :
    (p : Product → Bool) (f : Product → Product) (db db' : Db)
    → ((x : Product) → (f x).id ≡ x.id)
    → ((x : Product) → (f x).company_id ≡ x.company_id)
    → ((x : Product) → (f x).sku ≡ x.sku)
    → db'.products ≡ update_where p f db.products
    → db'.product_variants ≡ db.product_variants
    → db'.product_barcodes ≡ db.product_barcodes
    → IsCatalog db
    → IsCatalog db'
products-IsCatalog p f db db' id_same company_same sku_same ps vs bs h = record {
  has_variants =
      rw (ps, vs)
        (All-update_where (HasVariant db.product_variants) p f db.products (λ x e. rw (id_same x) e)
          h.has_variants);
  products_distinct = rw ps (
      Distinct-update_where product_taken p f db.products
        (λ x y. rw (company_same x, sku_same x) refl) (λ x y. rw (company_same x, sku_same x) refl)
        h.products_distinct);
  variants_distinct = rw vs h.variants_distinct;
  one_primary = rw bs h.one_primary;
}

-- variants are updated, but for their product, company and SKU
variants-IsCatalog :
    (p : ProductVariant → Bool) (f : ProductVariant → ProductVariant) (db db' : Db)
    → ((x : ProductVariant) → (f x).product_id ≡ x.product_id)
    → ((x : ProductVariant) → (f x).company_id ≡ x.company_id)
    → ((x : ProductVariant) → (f x).sku ≡ x.sku)
    → db'.products ≡ db.products
    → db'.product_variants ≡ update_where p f db.product_variants
    → db'.product_barcodes ≡ db.product_barcodes
    → IsCatalog db
    → IsCatalog db'
variants-IsCatalog p f db db' product_same company_same sku_same ps vs bs h = record {
  has_variants =
      rw (ps, vs)
        (All-map_to (HasVariant db.product_variants)
          (HasVariant (update_where p f db.product_variants)) db.products
          (λ x e.
            any-update_where (λ v. v.product_id == x.id) p f db.product_variants
              (λ v. rw (product_same v) refl)
            ∙ e)
          h.has_variants);
  products_distinct = rw ps h.products_distinct;
  variants_distinct = rw vs (
      Distinct-update_where variant_taken p f db.product_variants
        (λ x y. rw (company_same x, sku_same x) refl) (λ x y. rw (company_same x, sku_same x) refl)
        h.variants_distinct);
  one_primary = rw bs h.one_primary;
}

-- a variant is added
variant_added-IsCatalog :
    (v : ProductVariant) (s : Session)
    → any (variant_taken v) s.db.product_variants ≡ false
    → IsCatalog s.db
    → IsCatalog (variant_written v s).db
variant_added-IsCatalog v s free h = record {
  has_variants = more_variants s.db.product_variants (v ∷ []) s.db.products h.has_variants;
  products_distinct = h.products_distinct;
  variants_distinct =
      Distinct-append variant_taken s.db.product_variants v h.variants_distinct free;
  one_primary = h.one_primary;
}

abbrev pub Catalogued : {A : Type 0} → A → Session → Type 0
Catalogued _ s = IsCatalog s.db

product_get-reads : (c id : ℕ) (s : Session) → (ProductService.get c id s).1 ≡ s
unfolding ProductService.get
product_get-reads c id s = ground arith

variant_get-reads : (c id : ℕ) (s : Session) → (ProductVariantService.get c id s).1 ≡ s
unfolding ProductVariantService.get
variant_get-reads c id s = ground arith

pub create_product-IsCatalog :
    (c : ℕ) (r : ProductCreate) (s : Session)
    → IsCatalog s.db
    → Ensures Catalogued (create_product c r s)
create_product-IsCatalog c r s h =
    Ensures-weaken Catalogued (λ x s'. Created c r s x.0 x.1 s') _ (create_product-Created c r s)
      λ x s' created. Created-IsCatalog c r s x.0 x.1 s' created h

pub update_product-IsCatalog :
    (c id v : ℕ) (r : ProductUpdate) (s : Session)
    → IsCatalog s.db
    → Ensures Catalogued (update_product c id r v s)
unfolding update_product ProductRepository.get_by_id
update_product-IsCatalog c id v r s h =
    let Q = λ (_ : Product) (s' : Session). IsCatalog s'.db in
    Ensures-if Q (Changes.has_changes r) _ _ s
      (λ _. Ensures-check Q _ _ s (check_category-reads c _ s) λ _.
        Ensures-check Q _ _ s (check_brand-reads c _ s) λ _. Ensures-raise_if Q _ _ _ s λ _.
          Ensures-versioned (λ db. db.products) (λ rows db. record db { products = rows }) _ _ _ _
            (λ xs db. refl) (λ db. refl) Q (Changes.apply_changes r) _ s
            λ x s' e.
              products-IsCatalog (Changes.is_version c id v) (Changes.apply_changes r) s.db s'.db
                (λ x. refl) (λ x. refl) (λ x. refl) (rw e refl) (rw e refl) (rw e refl) h)
      (λ _. Ensures-reads Q (ProductService.get c id) s (product_get-reads c id s) λ _. h)

pub update_variant-IsCatalog :
    (c id v : ℕ) (r : ProductVariantUpdate) (s : Session)
    → IsCatalog s.db
    → Ensures Catalogued (ProductVariantService.update c id r v s)
unfolding ProductVariantService.update ProductVariantRepository.get_by_id
update_variant-IsCatalog c id v r s h =
    let Q = λ (_ : ProductVariant) (s' : Session). IsCatalog s'.db in
    Ensures-if Q (ProductVariantService.has_changes r) _ _ s
      (λ _. Ensures-check Q _ _ s (renamed-reads c id r s) λ name. Ensures-raise_if Q _ _ _ s λ _.
        Ensures-versioned (λ db. db.product_variants)
          (λ rows db. record db { product_variants = rows }) _ _ _ _ (λ xs db. refl) (λ db. refl) Q
          (ProductVariantService.apply_changes r name) _ s
          λ x s' e.
            variants-IsCatalog (ProductVariantService.is_version c id v)
              (ProductVariantService.apply_changes r name) s.db s'.db (λ x. refl) (λ x. refl)
              (λ x. refl) (rw e refl) (rw e refl) (rw e refl) h)
      (λ _. Ensures-reads Q (ProductVariantService.get c id) s (variant_get-reads c id s) λ _. h)

pub add_variant-IsCatalog :
    (c id : ℕ) (r : ProductVariantInput) (s : Session)
    → IsCatalog s.db
    → Ensures Catalogued (ProductVariantService.add_variant c id r s)
unfolding ProductVariantService.add_variant ProductRepository.get_by_id
    ProductVariantRepository.get_by_sku
add_variant-IsCatalog c id r s h =
    let Q = λ (_ : ProductVariant) (s' : Session). IsCatalog s'.db in
    let drawn : Session = record s { next_id = s.next_id + 1 } in
    let v = new_variant s.next_id c id r in
    let s₁ = variant_written v drawn in
    Ensures-run Q _ _ s _ s refl (
      Ensures-or_raise Q _ _ _ s λ product found. Ensures-run Q _ _ s _ s refl (
        Ensures-raise_if Q _ _ _ s λ _. Ensures-run Q _ _ s s.next_id drawn refl (
          Ensures-move Q _ s₁ _ _ drawn (variant_create-Written v drawn) λ _ free.
            let h₁ = variant_added-IsCatalog v drawn free h in
            Ensures-when Q (not product.has_variants) (ProductVariantService.mark_variants product)
              _ s₁
              (λ _. Ensures-run Q _ _ s₁ tt _ refl (
                products-IsCatalog (λ p. p.id == product.id)
                  (λ p. record p { has_variants = true; version = product.version + 1 }) s₁.db _
                  (λ x. refl) (λ x. refl) (λ x. refl) refl refl refl h₁))
              (λ _. h₁))))

pub add_barcode-IsCatalog :
    (c id : ℕ) (r : ProductBarcodeCreate) (s : Session)
    → IsCatalog s.db
    → Ensures Catalogued (ProductBarcodeService.add_barcode c id r s)
add_barcode-IsCatalog c id r s h =
    Ensures-weaken Catalogued (λ _ s'. KeptPrimary s.db s'.db) _
      (add_barcode-KeptPrimary c id r s h.one_primary)
      λ b s' kept. record {
        has_variants = rw (kept.1, kept.2) h.has_variants;
        products_distinct = rw kept.1 h.products_distinct;
        variants_distinct = rw kept.2 h.variants_distinct;
        one_primary = kept.0;
      }

image_create-Leaves :
    (i : ProductImage) (s : Session)
    → Ensures (λ _ s'. Untouched s.db s'.db) (ProductImageRepository.create i s)
unfolding ProductImageRepository.create
image_create-Leaves i s = ground arith

images_cleared-Leaves :
    (is : List ProductImage) (db : Db) (s : Session)
    → Untouched db s.db
    → Ensures (λ _ s'. Untouched db s'.db) (for_each ProductImageService.clear_primary is s)
unfolding for_each
images_cleared-Leaves [] db s h = h
images_cleared-Leaves (i ∷ is) db s h =
    let Q = λ (_ : Unit {0}) (s' : Session). Untouched db s'.db in
    Ensures-when Q i.is_primary _ (for_each ProductImageService.clear_primary is) s
      (λ _. Ensures-run Q _ _ s tt _ refl (images_cleared-Leaves is db _ h))
      (λ _. images_cleared-Leaves is db s h)

pub add_image-IsCatalog :
    (c id : ℕ) (r : ProductImageCreate) (s : Session)
    → IsCatalog s.db
    → Ensures Catalogued (ProductImageService.add_image c id r s)
unfolding ProductImageService.add_image ProductRepository.get_by_id
    ProductImageRepository.list_for_product
add_image-IsCatalog c id r s h =
    let Q = λ (_ : ProductImage) (s' : Session). IsCatalog s'.db in
    let last = λ (s₁ : Session) (k : IsCatalog s₁.db).
      Ensures-run Q uuid4 _ s₁ s₁.next_id (record s₁ { next_id = s₁.next_id + 1 }) refl
        (Ensures-bind Q _ _ _ _
          (image_create-Leaves (ProductImageService.new_image s₁.next_id c id r) _)
          λ _ s₂ e. Untouched-IsCatalog s₁.db s₂.db e k) in
    Ensures-run Q _ _ s _ s refl (
      Ensures-raise_if Q _ _ _ s λ _. Ensures-run Q _ _ s _ s refl (
        Ensures-when Q r.is_primary _ _ s
          (λ _.
            Ensures-bind Q _ _ _ s (images_cleared-Leaves _ s.db s (refl, refl, refl))
              λ _ s₁ e. last s₁ (Untouched-IsCatalog s.db s₁.db e h))
          (λ _. last s h)))
