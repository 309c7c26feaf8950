-- ===== src/Catalog/Primary.antt =====
-- At most one primary barcode for a variant and one primary image for a product:
-- `ProductBarcodeService` and `ProductImageService` of
-- backend/app/modules/products_catalog/service.py.
use retail_os.Prelude.Tables.{All-map_to}
use retail_os.Catalog.Schemas.{ProductBarcodeCreate}
use retail_os.Core.Ensures.{Ensures-when, Ensures-step, Ensures-raise_if, Ensures-run, Ensures}
use retail_os.Prelude.Flags.{
  All-any_self, count-none, is_listed, affected_rows-append, count-update_where,
  unflag_all-update_where, unflag_all,
}
use retail_os.Prelude.Rows.{any-select_all, any, All, update_where, select_all, affected_rows}
use retail_os.Core.Db.{Db}
use retail_os.Core.Session.{pure, ◌>>◌, uuid4, ok, ◌>>=◌, Session, for_each}
use retail_os.Prelude.{
  refl, ==_self, ◌+◌, ◌∙◌, refl, ◌==◌, inr, inl, [], Bool-cases, ◌++◌, arith, ◌∷◌, true, ◌&&◌, ◌≡◌,
  ◌≤◌, Bool, false, ℕ, List,
}
use retail_os.Catalog.Models.{ProductBarcode}
use retail_os.Catalog.ProductBarcodeRepository
use retail_os.Catalog.ProductBarcodeService
use retail_os.Catalog.ProductVariantRepository

abbrev clear : ProductBarcode → ProductBarcode
clear b = record b { is_primary = false }

abbrev barcode_id : ProductBarcode → ℕ
barcode_id b = b.id

abbrev is_flagged : ProductBarcode → Bool
is_flagged b = b.is_primary

-- the session once the loop has gone over the barcodes
abbrev with_barcodes : List ProductBarcode → Session → Session
with_barcodes xs s = record s { db = record s.db { product_barcodes = xs } }

for_each-clear_primary :
    (bs : List ProductBarcode) (s : Session)
    → for_each ProductBarcodeService.clear_primary bs s
      ≡ (ok tt, with_barcodes (unflag_all barcode_id is_flagged clear bs s.db.product_barcodes) s)
unfolding for_each ◌>>=◌
for_each-clear_primary [] s = refl
for_each-clear_primary (b ∷ bs) s = elim (Bool-cases b.is_primary) [
  | inl e ↦ rw e (
      for_each-clear_primary bs
        (with_barcodes (update_where (λ x. x.id == b.id) clear s.db.product_barcodes) s))
  | inr e ↦ rw e (for_each-clear_primary bs s)
]

-- the primary barcodes of a variant
abbrev pub primary_count : ℕ → ℕ → List ProductBarcode → ℕ
primary_count company_id variant_id =
    affected_rows
      (λ b. ProductBarcodeRepository.is_of_variant company_id variant_id b && b.is_primary)

abbrev pub OnePrimaryBarcode : Db → Type 0
OnePrimaryBarcode db =
    (company_id variant_id : ℕ) → primary_count company_id variant_id db.product_barcodes ≤ 1

is_of_variant-≡ :
    (company_id variant_id c v : ℕ) (b : ProductBarcode)
    → b.company_id ≡ company_id
    → b.product_variant_id ≡ variant_id
    → ProductBarcodeRepository.is_of_variant c v b ≡ true
    → (c ≡ company_id) × (v ≡ variant_id)
is_of_variant-≡ company_id variant_id c v b e f h = ground arith

-- a barcode added behind the loop
appended-OnePrimary :
    (company_id variant_id : ℕ) (b : ProductBarcode) (xs : List ProductBarcode)
    → b.company_id ≡ company_id
    → b.product_variant_id ≡ variant_id
    → ((c v : ℕ) → primary_count c v xs ≤ 1)
    → (b.is_primary ≡ true → primary_count company_id variant_id xs ≡ 0)
    → (c v : ℕ) → primary_count c v (xs ++ b ∷ []) ≤ 1
appended-OnePrimary company_id variant_id b xs e f one none_left c v =
    rw
      (affected_rows-append (λ x. ProductBarcodeRepository.is_of_variant c v x && x.is_primary) xs
        b)
      (elim (Bool-cases (ProductBarcodeRepository.is_of_variant c v b)) [
        | inl g ↦
            let (c_eq, v_eq) = is_of_variant-≡ company_id variant_id c v b e f g in
            rw (g, c_eq, v_eq)
              (elim (Bool-cases b.is_primary) [
                | inl k ↦ rw (k, none_left k) (omega arith)
                | inr k ↦ rw k (omega (arith, one company_id variant_id))
              ])
        | inr g ↦ rw g (omega (arith, one c v))
      ])

-- every primary barcode of the variant is among those that the loop goes over
listed :
    (company_id variant_id : ℕ) (xs : List ProductBarcode)
    → let q = ProductBarcodeRepository.is_of_variant company_id variant_id in
      All
        (λ x.
          (q x && x.is_primary) ≡ true → is_listed barcode_id is_flagged (select_all q xs) x ≡ true)
        xs
listed company_id variant_id xs =
    let q = ProductBarcodeRepository.is_of_variant company_id variant_id in
    let found = λ (x : ProductBarcode). any (λ b. q b && (b.is_primary && (x.id == b.id))) xs in
    All-map_to (λ x. (q x && x.is_primary) ≡ true → found x ≡ true)
      (λ x.
        (q x && x.is_primary) ≡ true → is_listed barcode_id is_flagged (select_all q xs) x ≡ true)
      xs (λ x h k. any-select_all (λ b. b.is_primary && (x.id == b.id)) q xs ∙ h k)
      (All-any_self (λ x. q x && x.is_primary) (λ x b. q b && (b.is_primary && (x.id == b.id))) xs
        λ x h. ground (arith, h, ==_self x.id))

loop-OnePrimary :
    (company_id variant_id : ℕ) (xs : List ProductBarcode)
    → ((c v : ℕ) → primary_count c v xs ≤ 1)
    → let bs = select_all (ProductBarcodeRepository.is_of_variant company_id variant_id) xs in
      let ys = unflag_all barcode_id is_flagged clear bs xs in
      ((c v : ℕ) → primary_count c v ys ≤ 1) × (primary_count company_id variant_id ys ≡ 0)
loop-OnePrimary company_id variant_id xs one =
    let q = ProductBarcodeRepository.is_of_variant company_id variant_id in
    rw (unflag_all-update_where barcode_id is_flagged clear (λ x. refl) (select_all q xs) xs) (
      (λ c v. omega (
        arith,
        one c v,
        count-update_where is_flagged clear (λ x. refl) (ProductBarcodeRepository.is_of_variant c v)
            (λ x. refl) (is_listed barcode_id is_flagged (select_all q xs)) xs,
      )),
      count-none is_flagged clear (λ x. refl) q (λ x. refl) _ xs (listed company_id variant_id xs),
    )

barcode_create-Written :
    (b : ProductBarcode) (s : Session)
    → Ensures
        (λ _ s'. s' ≡ with_barcodes (s.db.product_barcodes ++ b ∷ []) s)
        (ProductBarcodeRepository.create b s)
unfolding ProductBarcodeRepository.create
barcode_create-Written b s = ground arith

-- what adding a barcode keeps, and what it leaves alone
abbrev pub KeptPrimary : Db → Db → Type 0
KeptPrimary db db' =
    OnePrimaryBarcode db'
    × (db'.products ≡ db.products)
    × (db'.product_variants ≡ db.product_variants)

-- the last steps
added-OnePrimary :
    (company_id variant_id : ℕ) (request : ProductBarcodeCreate) (s : Session)
    → OnePrimaryBarcode s.db
    → (request.is_primary ≡ true → primary_count company_id variant_id s.db.product_barcodes ≡ 0)
    → Ensures
        (λ _ s'. KeptPrimary s.db s'.db)
        ((uuid4 >>= λ id.
            ProductBarcodeRepository.create
              (ProductBarcodeService.new_barcode id company_id variant_id request)
            >> pure (ProductBarcodeService.new_barcode id company_id variant_id request))
          s)
added-OnePrimary company_id variant_id request s one none_left =
    let Q = λ (_ : ProductBarcode) (s' : Session). KeptPrimary s.db s'.db in
    let b = ProductBarcodeService.new_barcode s.next_id company_id variant_id request in
    let drawn : Session = record s { next_id = s.next_id + 1 } in
    Ensures-run Q _ _ s s.next_id drawn refl (
      Ensures-step Q _ _ _ drawn (barcode_create-Written b drawn) λ _. (
        appended-OnePrimary company_id variant_id b s.db.product_barcodes refl refl one none_left,
        refl,
        refl,
      ))

-- Adding a barcode keeps at most one primary barcode for every variant, and no product or variant
-- changes.
pub add_barcode-KeptPrimary :
    (company_id variant_id : ℕ) (request : ProductBarcodeCreate) (s : Session)
    → OnePrimaryBarcode s.db
    → Ensures
        (λ _ s'. KeptPrimary s.db s'.db)
        (ProductBarcodeService.add_barcode company_id variant_id request s)
unfolding ProductBarcodeService.add_barcode ProductVariantRepository.get_by_id
    ProductBarcodeRepository.get_by_barcode ProductBarcodeRepository.list_for_variant
add_barcode-KeptPrimary company_id variant_id request s one =
    let Q = λ (_ : ProductBarcode) (s' : Session). KeptPrimary s.db s'.db in
    let q = ProductBarcodeRepository.is_of_variant company_id variant_id in
    let bs = select_all q s.db.product_barcodes in
    let left = with_barcodes (unflag_all barcode_id is_flagged clear bs s.db.product_barcodes) s in
    let loop = loop-OnePrimary company_id variant_id s.db.product_barcodes one in
    Ensures-run Q _ _ s _ s refl (
      Ensures-raise_if Q _ _ _ s λ _. Ensures-run Q _ _ s _ s refl (
        Ensures-raise_if Q _ _ _ s λ _. Ensures-run Q _ _ s bs s refl (
          Ensures-when Q request.is_primary _ _ s
            (λ e.
              Ensures-run Q _ _ s tt left (for_each-clear_primary bs s)
                (added-OnePrimary company_id variant_id request left loop.0 λ _. loop.1))
            (λ e. added-OnePrimary company_id variant_id request s one λ k. absurd (cc (e, k))))))
