-- ===== src/Inventory/Lookups.antt =====
-- The rows that an operation of backend/app/modules/inventory/service.py works on: `_get_warehouse`
-- and `_get_variant_and_product` read them and change nothing.
use retail_os.Prelude.{ℕ, ◌≡◌, some, arith}
use retail_os.Prelude.Rows.{select_one, select_one-holds}
use retail_os.Core.Session.{Session, M, ◌>>=◌}
use retail_os.Core.Ensures.{Ensures, Ensures-read}
use retail_os.Company.Models.{Warehouse}
use retail_os.Company.WarehouseRepository.{is_warehouse}
use retail_os.Catalog.Models.{Product, ProductVariant}
use retail_os.Catalog.ProductRepository.{is_product}
use retail_os.Catalog.ProductVariantRepository.{is_variant}
use retail_os.Inventory.Service.{get_warehouse, get_variant_and_product}

abbrev pub FindsWarehouse : ℕ → ℕ → Session → Warehouse → Type 0
FindsWarehouse company_id id s w = select_one (is_warehouse company_id id) s.db.warehouses ≡ some w

abbrev pub FindsProduct : ℕ → ℕ → Session → ProductVariant → Product → Type 0
FindsProduct company_id id s v p =
    (select_one (is_variant company_id id) s.db.product_variants ≡ some v)
    × (select_one (is_product company_id v.product_id) s.db.products ≡ some p)

pub get_warehouse-Finds :
    (company_id id : ℕ) (s : Session)
    → Ensures (λ w s'. (s' ≡ s) × FindsWarehouse company_id id s w) (get_warehouse company_id id s)
unfolding get_warehouse
get_warehouse-Finds company_id id s = ground arith

pub get_variant_and_product-Finds :
    (company_id id : ℕ) (s : Session)
    → Ensures
        (λ vp s'. (s' ≡ s) × FindsProduct company_id id s vp.0 vp.1)
        (get_variant_and_product company_id id s)
unfolding get_variant_and_product
get_variant_and_product-Finds company_id id s = ground arith

pub Finds-warehouse_id :
    (company_id id : ℕ) (s : Session) (w : Warehouse) → FindsWarehouse company_id id s w → w.id ≡ id
Finds-warehouse_id company_id id s w h =
    ground (arith, select_one-holds (is_warehouse company_id id) s.db.warehouses w h)

pub Finds-variant_id :
    (company_id id : ℕ) (s : Session) (v : ProductVariant) (p : Product)
    → FindsProduct company_id id s v p
    → v.id ≡ id
Finds-variant_id company_id id s v p h =
    ground (arith, select_one-holds (is_variant company_id id) s.db.product_variants v h.0)

-- The two lookups in front of the rest of an operation.
pub Ensures-lookups :
    {B : Type 0} (Q : B → Session → Type 0) (company_id warehouse_id variant_id : ℕ)
    (f : Warehouse → ProductVariant × Product → M B) (s : Session)
    → ((w : Warehouse) (vp : ProductVariant × Product)
        → FindsWarehouse company_id warehouse_id s w
        → FindsProduct company_id variant_id s vp.0 vp.1
        → Ensures Q (f w vp s))
    → Ensures Q (
        (get_warehouse company_id warehouse_id >>= λ w.
        get_variant_and_product company_id variant_id >>= f w)
          s)
Ensures-lookups Q company_id warehouse_id variant_id f s k =
    Ensures-read Q (FindsWarehouse company_id warehouse_id s) _ _ s
      (get_warehouse-Finds company_id warehouse_id s)
      λ w found.
        Ensures-read Q (λ vp. FindsProduct company_id variant_id s vp.0 vp.1) _ _ s
          (get_variant_and_product-Finds company_id variant_id s) λ vp known. k w vp found known
