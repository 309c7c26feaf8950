-- ===== src/Catalog/Creating.antt =====
-- What the creation of products and variants in
-- backend/app/modules/products_catalog/service.py has done when it returns.
use mathlib.Core.List.{append_assoc, append-nil}
use retail_os.Prelude.Distinct.{Distinct-append, Distinct}
use retail_os.Prelude.Rows.{any}
use retail_os.Catalog.Schemas.{ProductCreate, ProductVariantInput}
use retail_os.Core.Ensures.{
  Ensures-move, Ensures-step, Ensures-bind, Ensures-raise_if, Ensures-run, Ensures,
}
use retail_os.Core.Session.{Session}
use retail_os.Prelude.{
  inr, inl, Bool-cases, ◌≢◌, ◌&&◌, Bool, ◌+◌, refl, none, false, arith, some, [], ◌≡◌, ◌∷◌, ◌++◌,
  List, Option, ℕ,
}
use retail_os.Catalog.Creation.{
  is_empty, variant_inputs, new_product, create_product, create_variants, create_variant,
  new_variant, check_brand, check_category,
}
use retail_os.Catalog.Models.{Product, ProductVariant}
use retail_os.Catalog.ProductRepository.{is_product}
use retail_os.Catalog.ProductRepository
use retail_os.Catalog.ProductVariantRepository
use retail_os.Catalog.UnitService

abbrev pub product_written : Product → Session → Session
product_written p s = record s { db = record s.db { products = s.db.products ++ p ∷ [] } }

abbrev pub variant_written : ProductVariant → Session → Session
variant_written v s = record s {
  db = record s.db { product_variants = s.db.product_variants ++ v ∷ [] };
}

pub product_create-Written :
    (p : Product) (s : Session)
    → Ensures
        (λ _ s'.
          (s' ≡ product_written p s)
          × (any (ProductRepository.is_taken p.company_id p.sku) s.db.products ≡ false))
        (ProductRepository.create p s)
unfolding ProductRepository.create
product_create-Written p s = ground arith

pub variant_create-Written :
    (v : ProductVariant) (s : Session)
    → Ensures
        (λ _ s'.
          (s' ≡ variant_written v s)
          × (any (ProductVariantRepository.is_taken v.company_id v.sku) s.db.product_variants
              ≡ false))
        (ProductVariantRepository.create v s)
unfolding ProductVariantRepository.create
variant_create-Written v s = ground arith

pub check_category-Reads :
    (company_id : ℕ) (id : Option ℕ) (s : Session)
    → Ensures (λ _ s'. s' ≡ s) (check_category company_id id s)
unfolding check_category
check_category-Reads company_id none s = refl
check_category-Reads company_id (some id) s = ground arith

pub check_brand-Reads :
    (company_id : ℕ) (id : Option ℕ) (s : Session)
    → Ensures (λ _ s'. s' ≡ s) (check_brand company_id id s)
unfolding check_brand
check_brand-Reads company_id none s = refl
check_brand-Reads company_id (some id) s = ground arith

pub ensure_available_for_company-Reads :
    (company_id unit_id : ℕ) (s : Session)
    → Ensures (λ _ s'. s' ≡ s) (UnitService.ensure_available_for_company company_id unit_id s)
unfolding UnitService.ensure_available_for_company
ensure_available_for_company-Reads company_id unit_id s = ground arith

-- The rows that the inputs ask for, in their order, with the ids drawn one after the other.
abbrev pub rows_from : ℕ → ℕ → ℕ → List ProductVariantInput → List ProductVariant
rows_from id company_id product_id [] = []
rows_from id company_id product_id (r ∷ rs) =
    new_variant id company_id product_id r ∷ rows_from (id + 1) company_id product_id rs

abbrev pub variant_taken : ProductVariant → ProductVariant → Bool
variant_taken v = ProductVariantRepository.is_taken v.company_id v.sku

abbrev pub product_taken : Product → Product → Bool
product_taken p = ProductRepository.is_taken p.company_id p.sku

-- the session once a row is written under the next id
abbrev pub variant_added : ProductVariant → Session → Session
variant_added v s = record s {
  next_id = s.next_id + 1;
  db = record s.db { product_variants = s.db.product_variants ++ v ∷ [] };
}

pub create_variant-Written :
    (company_id product_id : ℕ) (r : ProductVariantInput) (s : Session)
    → Ensures
        (λ v s'.
          (v ≡ new_variant s.next_id company_id product_id r)
          × (s' ≡ variant_added v s)
          × (any (variant_taken v) s.db.product_variants ≡ false))
        (create_variant company_id product_id r s)
unfolding create_variant ProductVariantRepository.get_by_sku
create_variant-Written company_id product_id r s =
    let Q = λ (v : ProductVariant) (s' : Session).
      (v ≡ new_variant s.next_id company_id product_id r)
      × (s' ≡ variant_added v s)
      × (any (variant_taken v) s.db.product_variants ≡ false) in
    let v = new_variant s.next_id company_id product_id r in
    let drawn : Session = record s { next_id = s.next_id + 1 } in
    Ensures-run Q _ _ s _ s refl (
      Ensures-raise_if Q _ _ _ s λ _.
        Ensures-run Q _ _ s s.next_id drawn refl
          (Ensures-bind Q _ _ _ drawn (variant_create-Written v drawn) λ _ s' h. (refl, h.0, h.1)))

-- what the loop over the inputs has done
abbrev pub Variants :
    ℕ → ℕ → List ProductVariantInput → Session → List ProductVariant → Session → Type 0
Variants company_id product_id inputs s variants s' =
    (variants ≡ rows_from s.next_id company_id product_id inputs)
    × (s'.db ≡ record s.db { product_variants = s.db.product_variants ++ variants })
    × (Distinct variant_taken s.db.product_variants → Distinct variant_taken s'.db.product_variants)

add_first :
    (company_id product_id : ℕ) (r : ProductVariantInput) (rs : List ProductVariantInput)
    (s : Session) (v : ProductVariant) (s₁ : Session) (vs : List ProductVariant) (s₂ : Session)
    → (v ≡ new_variant s.next_id company_id product_id r)
      × (s₁ ≡ variant_added v s)
      × (any (variant_taken v) s.db.product_variants ≡ false)
    → Variants company_id product_id rs s₁ vs s₂
    → Variants company_id product_id (r ∷ rs) s (v ∷ vs) s₂
add_first company_id product_id r rs s v s₁ vs s₂ (e, s₁_eq, free) (rows, db_eq, distinct) = (
  rw (rows, s₁_eq, e) refl,
  rw (db_eq, s₁_eq, append_assoc s.db.product_variants (v ∷ []) vs) refl,
  λ d. distinct (rw s₁_eq (Distinct-append variant_taken s.db.product_variants v d free)),
)

pub create_variants-Variants :
    (company_id product_id : ℕ) (inputs : List ProductVariantInput) (s : Session)
    → Ensures
        (Variants company_id product_id inputs s)
        (create_variants company_id product_id inputs s)
unfolding create_variants
create_variants-Variants company_id product_id [] s =
    (refl, rw (append-nil s.db.product_variants) refl, λ d. d)
create_variants-Variants company_id product_id (r ∷ rs) s =
    let Q = Variants company_id product_id (r ∷ rs) s in
    Ensures-bind Q _ _ _ s (create_variant-Written company_id product_id r s) λ v s₁ first.
      Ensures-bind Q _ _ _ s₁ (create_variants-Variants company_id product_id rs s₁)
        λ vs s₂ rest. add_first company_id product_id r rs s v s₁ vs s₂ first rest

-- What a creation has done, with the rows as the service computes them.
pub record Created (company_id : ℕ) (request : ProductCreate) (s : Session) (product : Product)
    (variants : List ProductVariant) (s' : Session) : Type 0 where
  pub fields : product ≡ new_product s.next_id company_id request
  pub rows : variants ≡ rows_from (s.next_id + 1) company_id product.id (variant_inputs request)
  pub some_variant : variants ≢ []
  pub written : s'.db ≡ record s.db {
    products = s.db.products ++ product ∷ [];
    product_variants = s.db.product_variants ++ variants;
  }
  pub free : any (product_taken product) s.db.products ≡ false
  pub distinct :
      Distinct variant_taken s.db.product_variants → Distinct variant_taken s'.db.product_variants

not_empty :
    (id company_id product_id : ℕ) (request : ProductCreate)
    → (request.has_variants && is_empty request.variants) ≡ false
    → rows_from id company_id product_id (variant_inputs request) ≢ []
not_empty id company_id product_id request h = elim (Bool-cases request.has_variants) [
  | inl e ↦ rw e (go request.variants (rw e at h))
  | inr e ↦ rw e cc
]
  where
    go :
        (rs : List ProductVariantInput)
        → is_empty rs ≡ false
        → rows_from id company_id product_id rs ≢ []
    go [] h = cc
    go (r ∷ rs) h = cc

pub create_product-Created :
    (company_id : ℕ) (request : ProductCreate) (s : Session)
    → Ensures
        (λ x s'. Created company_id request s x.0 x.1 s')
        (create_product company_id request s)
unfolding create_product ProductRepository.get_by_sku
create_product-Created company_id request s =
    let Q = λ (x : Product × List ProductVariant) (s' : Session).
      Created company_id request s x.0 x.1 s' in
    let product = new_product s.next_id company_id request in
    let drawn : Session = record s { next_id = s.next_id + 1 } in
    Ensures-run Q _ _ s _ s refl (
      Ensures-raise_if Q _ _ _ s λ _.
        Ensures-step Q s _ _ s (check_category-Reads company_id request.category_id s) λ _.
          Ensures-step Q s _ _ s (check_brand-Reads company_id request.brand_id s) λ _.
            Ensures-step Q s _ _ s
              (ensure_available_for_company-Reads company_id request.base_unit_id s)
              λ _. Ensures-raise_if Q _ _ _ s λ given. Ensures-run Q _ _ s s.next_id drawn refl (
                Ensures-move Q _ (product_written product drawn) _ _ drawn
                  (product_create-Written product drawn)
                  λ _ free.
                    Ensures-bind Q _ _ _ (product_written product drawn)
                      (create_variants-Variants company_id s.next_id (variant_inputs request) _)
                      λ vs s' h. record {
                        fields = refl;
                        rows = h.0;
                        some_variant = rw (h.0) (not_empty _ company_id _ request given);
                        written = h.1;
                        free = free;
                        distinct = h.2;
                      }))
