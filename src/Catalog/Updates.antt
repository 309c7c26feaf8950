-- ===== src/Catalog/Updates.antt =====
-- Optimistic locking in the updates of backend/app/modules/products_catalog/service.py.
use retail_os.Core.Optimistic.{versioned_update-once}
use retail_os.Core.Exceptions.{conflict_exception, data_error}
use retail_os.Core.Refused.{Refused-read, returned_read, raise_if-reads, Refused}
use retail_os.Core.Session.{err, ok, Session}
use retail_os.Catalog.ProductRepository.{is_product}
use retail_os.Catalog.Models.{ProductVariant, Product, Brand, Category}
use retail_os.Catalog.Schemas.{ProductVariantUpdate, ProductUpdate, BrandUpdate, CategoryUpdate}
use retail_os.Catalog.Changes.{update_product}
use retail_os.Catalog.Creation.{check_brand, check_category}
use retail_os.Prelude.{refl, none, arith, false, some, true, ◌≡◌, String, Option, ℕ}
use retail_os.Catalog.CategoryRepository
use retail_os.Catalog.CategoryService
use retail_os.Catalog.BrandRepository
use retail_os.Catalog.BrandService
use retail_os.Catalog.ProductRepository
use retail_os.Catalog.ProductVariantRepository
use retail_os.Catalog.ProductVariantService
use retail_os.Catalog.Changes

category_version :
    (company_id id v : ℕ) (request : CategoryUpdate) (c : Category)
    → CategoryService.is_version company_id id v c ≡ true
    → CategoryService.is_version company_id id v (CategoryService.apply_changes request c) ≡ false
category_version company_id id v request c h = ground arith

brand_version :
    (company_id id v : ℕ) (request : BrandUpdate) (b : Brand)
    → BrandService.is_version company_id id v b ≡ true
    → BrandService.is_version company_id id v (BrandService.apply_changes request b) ≡ false
brand_version company_id id v request b h = ground arith

product_version :
    (company_id id v : ℕ) (request : ProductUpdate) (p : Product)
    → Changes.is_version company_id id v p ≡ true
    → Changes.is_version company_id id v (Changes.apply_changes request p) ≡ false
product_version company_id id v request p h = ground arith

variant_version :
    (company_id id v : ℕ) (request : ProductVariantUpdate) (name : Option (Option String))
    (x : ProductVariant)
    → ProductVariantService.is_version company_id id v x ≡ true
    → ProductVariantService.is_version company_id id v
        (ProductVariantService.apply_changes request name x)
      ≡ false
variant_version company_id id v request name x h = ground arith

pub check_parent-reads :
    (company_id : ℕ) (id : Option ℕ) (s : Session)
    → (CategoryService.check_parent company_id id s).1 ≡ s
unfolding CategoryService.check_parent
check_parent-reads company_id none s = refl
check_parent-reads company_id (some id) s = ground arith

pub check_category-reads :
    (company_id : ℕ) (id : Option ℕ) (s : Session) → (check_category company_id id s).1 ≡ s
unfolding check_category
check_category-reads company_id none s = refl
check_category-reads company_id (some id) s = ground arith

pub check_brand-reads :
    (company_id : ℕ) (id : Option ℕ) (s : Session) → (check_brand company_id id s).1 ≡ s
unfolding check_brand
check_brand-reads company_id none s = refl
check_brand-reads company_id (some id) s = ground arith

pub renamed-reads :
    (company_id id : ℕ) (request : ProductVariantUpdate) (s : Session)
    → (ProductVariantService.renamed company_id id request s).1 ≡ s
unfolding ProductVariantService.renamed
renamed-reads company_id id request s = ground arith

-- Of two updates of a product that change something and carry the same expected version, the second
-- is refused and writes nothing when the first has returned.
pub product_update-once :
    (company_id id v : ℕ) (request later : ProductUpdate) (s : Session) {p : Product} {s' : Session}
    → Changes.has_changes request ≡ true
    → Changes.has_changes later ≡ true
    → update_product company_id id request v s ≡ (ok p, s')
    → Refused (update_product company_id id later v) s'
unfolding update_product ProductRepository.get_by_id
product_update-once company_id id v request later s {p} {s'} changes changes' e =
    let (_, checked) =
      returned_read _ _ s (check_category-reads company_id _ s) (rw changes at e) in
    let (_, checked) = returned_read _ _ s (check_brand-reads company_id _ s) checked in
    let (_, written) = returned_read _ _ s (raise_if-reads _ data_error s) checked in
    rw changes' (
      Refused-read _ _ s' (check_category-reads company_id _ s') λ _.
        Refused-read _ _ s' (check_brand-reads company_id _ s') λ _.
          Refused-read _ _ s' (raise_if-reads _ data_error s') λ _. (
            _,
            versioned_update-once (λ db. db.products)
                (λ products db. record db { products = products }) _ _ _ _ (λ xs db. refl)
                (λ db. refl) _ _ _ _ s (product_version company_id id v request) written,
          ))

-- Of two updates of a variant that change something and carry the same expected version, the second
-- is refused and writes nothing when the first has returned.
pub variant_update-once :
    (company_id id v : ℕ) (request later : ProductVariantUpdate) (s : Session) {x : ProductVariant}
    {s' : Session}
    → ProductVariantService.has_changes request ≡ true
    → ProductVariantService.has_changes later ≡ true
    → ProductVariantService.update company_id id request v s ≡ (ok x, s')
    → Refused (ProductVariantService.update company_id id later v) s'
unfolding ProductVariantService.update ProductVariantRepository.get_by_id
variant_update-once company_id id v request later s {x} {s'} changes changes' e =
    let (name, checked) = returned_read _ _ s (renamed-reads company_id id _ s) (rw changes at e) in
    let (_, written) = returned_read _ _ s (raise_if-reads _ data_error s) checked in
    rw changes' (
      Refused-read _ _ s' (renamed-reads company_id id _ s') λ name'.
        Refused-read _ _ s' (raise_if-reads _ data_error s') λ _. (
          _,
          versioned_update-once (λ db. db.product_variants)
              (λ rows db. record db { product_variants = rows }) _ _ _ _ (λ xs db. refl)
              (λ db. refl) _ _ _ _ s (variant_version company_id id v request name) written,
        ))

-- Of two updates of a category that change something and carry the same expected version, the second
-- is refused and writes nothing when the first has returned.
pub category_update-once :
    (company_id id v : ℕ) (request later : CategoryUpdate) (s : Session) {c : Category}
    {s' : Session}
    → CategoryService.has_changes request ≡ true
    → CategoryService.has_changes later ≡ true
    → CategoryService.update company_id id request v s ≡ (ok c, s')
    → Refused (CategoryService.update company_id id later v) s'
unfolding CategoryService.update CategoryRepository.get_by_id
category_update-once company_id id v request later s {c} {s'} changes changes' e =
    let (_, checked) = returned_read _ _ s (raise_if-reads _ _ s) (rw changes at e) in
    let (_, checked) = returned_read _ _ s (check_parent-reads company_id _ s) checked in
    let (_, written) = returned_read _ _ s (raise_if-reads _ data_error s) checked in
    rw changes' (
      Refused-read _ _ s' (raise_if-reads _ _ s') λ _.
        Refused-read _ _ s' (check_parent-reads company_id _ s') λ _.
          Refused-read _ _ s' (raise_if-reads _ data_error s') λ _. (
            _,
            versioned_update-once (λ db. db.categories) (λ rows db. record db { categories = rows })
                _ _ _ _ (λ xs db. refl) (λ db. refl) _ _ _ _ s
                (category_version company_id id v request) written,
          ))

-- Of two updates of a brand that change something and carry the same expected version, the second is
-- refused with a conflict when the first has returned, and writes nothing.
pub brand_update-once :
    (company_id id v : ℕ) (request later : BrandUpdate) (s : Session) {b : Brand} {s' : Session}
    → BrandService.has_changes request ≡ true
    → BrandService.has_changes later ≡ true
    → BrandService.update company_id id request v s ≡ (ok b, s')
    → BrandService.update company_id id later v s'
      ≡ (err (conflict_exception "Brand was modified by someone else. Reload and try again."), s')
unfolding BrandService.update BrandRepository.get_by_id
brand_update-once company_id id v request later s changes changes' e = rw changes' (
    versioned_update-once (λ db. db.brands) (λ brands db. record db { brands = brands }) _ _ _ _
      (λ xs db. refl) (λ db. refl) _ _ _ _ s (brand_version company_id id v request)
      (rw changes at e))
