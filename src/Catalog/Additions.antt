-- ===== src/Catalog/Additions.antt =====
-- The products that `ProductService.create` of
-- backend/app/modules/products_catalog/service.py adds.
use retail_os.Prelude.Distinct.{Distinct}
use retail_os.Prelude.Rows.{All}
use retail_os.Prelude.Related.{Related}
use retail_os.Core.Session.{Session}
use retail_os.Catalog.Schemas.{ProductCreate, ProductVariantInput}
use retail_os.Catalog.Models.{ProductVariant, Product}
use retail_os.Catalog.Creating.{variant_taken}
use retail_os.Prelude.{str_eq, ◌++◌, ◌≢◌, none, ◌≡◌, List, ℕ, true, false, [], ◌∷◌}

-- a live row of the product with what the request says of the variant
abbrev pub IsVariantOf : Product → ProductVariantInput → ProductVariant → Type 0
IsVariantOf product r v =
    (v.company_id ≡ product.company_id)
    × (v.product_id ≡ product.id)
    × (v.sku ≡ r.sku)
    × (v.size ≡ r.size)
    × (v.color ≡ r.color)
    × (v.purchase_price ≡ r.purchase_price)
    × (v.selling_price ≡ r.selling_price)
    × (v.mrp ≡ r.mrp)
    × (v.is_active ≡ true)
    × (v.deleted_at ≡ none)

-- a live row with what the request says of the product
abbrev pub IsProductOf : ℕ → ProductCreate → Product → Type 0
IsProductOf company_id r p =
    (p.company_id ≡ company_id)
    × (p.sku ≡ r.sku)
    × (p.name ≡ r.name)
    × (p.description ≡ r.description)
    × (p.category_id ≡ r.category_id)
    × (p.brand_id ≡ r.brand_id)
    × (p.base_unit_id ≡ r.base_unit_id)
    × (p.gender ≡ r.gender)
    × (p.season ≡ r.season)
    × (p.age_group ≡ r.age_group)
    × (p.hsn_code ≡ r.hsn_code)
    × (p.tax_percent ≡ r.tax_percent)
    × (p.has_variants ≡ r.has_variants)
    × (p.track_inventory ≡ r.track_inventory)
    × (p.allow_negative_stock ≡ r.allow_negative_stock)
    × (p.low_stock_threshold ≡ r.low_stock_threshold)
    × (p.is_active ≡ true)
    × (p.deleted_at ≡ none)

pub record Creates (company_id : ℕ) (request : ProductCreate) (s : Session) (product : Product)
    (variants : List ProductVariant) (s' : Session) : Type 0 where
  pub is_product : IsProductOf company_id request product
  pub given :
      request.has_variants ≡ true
      → (variants ≢ []) × Related (IsVariantOf product) request.variants variants
  pub implicit :
      request.has_variants ≡ false
      → (v : ProductVariant) × (variants ≡ v ∷ [])
        × IsVariantOf product
            (record {
              sku = request.sku;
              size = none;
              color = none;
              purchase_price = request.purchase_price;
              selling_price = request.selling_price;
              mrp = request.mrp;
            })
            v
  pub written : s'.db ≡ record s.db {
    products = s.db.products ++ product ∷ [];
    product_variants = s.db.product_variants ++ variants;
  }
  pub free : All (λ p. p.company_id ≡ company_id → str_eq p.sku request.sku ≡ false) s.db.products
  pub distinct :
      Distinct variant_taken s.db.product_variants → Distinct variant_taken s'.db.product_variants
