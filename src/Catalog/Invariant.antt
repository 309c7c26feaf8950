-- ===== src/Catalog/Invariant.antt =====
-- What holds of the catalogue of backend/app/modules/products_catalog between two requests.
use retail_os.Catalog.Creation.{variant_inputs}
use retail_os.Catalog.Primary.{OnePrimaryBarcode}
use retail_os.Prelude.Tables.{All-append, All-map_to}
use retail_os.Core.Session.{Session}
use retail_os.Catalog.Creating.{variant_taken, Created, product_taken, rows_from}
use retail_os.Prelude.Distinct.{Distinct-append, Distinct}
use retail_os.Catalog.Schemas.{ProductCreate, ProductVariantInput}
use retail_os.Prelude.Rows.{any-append, any, All}
use retail_os.Catalog.Models.{Product, ProductVariant}
use retail_os.Core.Db.{Db}
use retail_os.Prelude.{
  arith, ==_self, subst, refl, ◌∷◌, true, ◌+◌, [], ◌==◌, ◌++◌, ◌≢◌, ◌≡◌, ℕ, List,
}

abbrev pub HasVariant : List ProductVariant → Product → Type 0
HasVariant variants p = any (λ v. v.product_id == p.id) variants ≡ true

-- Every product has a variant, no two products of a company and no two variants of a company share a
-- SKU, and no variant has two primary barcodes.
pub record IsCatalog (db : Db) : Type 0 where
  pub has_variants : All (HasVariant db.product_variants) db.products
  pub products_distinct : Distinct product_taken db.products
  pub variants_distinct : Distinct variant_taken db.product_variants
  pub one_primary : OnePrimaryBarcode db

-- the tables that the invariant reads are left alone
abbrev pub Untouched : Db → Db → Type 0
Untouched db db' =
    (db'.products ≡ db.products)
    × (db'.product_variants ≡ db.product_variants)
    × (db'.product_barcodes ≡ db.product_barcodes)

pub Untouched-IsCatalog : (db db' : Db) → Untouched db db' → IsCatalog db → IsCatalog db'
Untouched-IsCatalog db db' (p, v, b) h = record {
  has_variants = rw (p, v) h.has_variants;
  products_distinct = rw p h.products_distinct;
  variants_distinct = rw v h.variants_distinct;
  one_primary = rw b h.one_primary;
}

rows_from-HasVariant :
    (id company_id product_id : ℕ) (rs : List ProductVariantInput)
    → rows_from id company_id product_id rs ≢ []
    → any (λ v. v.product_id == product_id) (rows_from id company_id product_id rs) ≡ true
rows_from-HasVariant id company_id product_id [] h = absurd (h refl)
rows_from-HasVariant id company_id product_id (r ∷ rs) h = rw (==_self product_id) refl

-- variants are only added
pub more_variants :
    (vs ws : List ProductVariant) (ps : List Product)
    → All (HasVariant vs) ps
    → All (HasVariant (vs ++ ws)) ps
more_variants vs ws ps h =
    All-map_to (HasVariant vs) (HasVariant (vs ++ ws)) ps
      (λ p e. rw (any-append (λ v. v.product_id == p.id) vs ws, e) refl) h

pub Created-IsCatalog :
    (company_id : ℕ) (request : ProductCreate) (s : Session) (p : Product)
    (vs : List ProductVariant) (s' : Session)
    → Created company_id request s p vs s'
    → IsCatalog s.db
    → IsCatalog s'.db
Created-IsCatalog company_id request s p vs s' c h =
    let first =
      rows_from-HasVariant (s.next_id + 1) company_id p.id (variant_inputs request)
        (subst (λ xs. xs ≢ []) c.rows c.some_variant) in
    record {
      has_variants = rw c.written (
          All-append _ s.db.products (p ∷ []) (more_variants _ vs _ h.has_variants) (
            (rw (any-append (λ v. v.product_id == p.id) s.db.product_variants vs, c.rows, first)
                (ground arith)),
            tt,
          ));
      products_distinct =
          rw c.written (Distinct-append product_taken s.db.products p h.products_distinct c.free);
      variants_distinct = c.distinct h.variants_distinct;
      one_primary = rw c.written h.one_primary;
    }
