-- ===== src/Catalog/Importing.antt =====
-- What the import of a file has done when it returns: `import_company_products` of
-- backend/app/modules/products_catalog/service.py.
use retail_os.Catalog.Endpoints.Files.{rescued}
use retail_os.Core.Exceptions.{
  app, invalid_token, integrity_error, data_error, validation_error, runtime_error, value_error,
  csv_error, csv_import_error,
}
use retail_os.Csv.Grouping.{parse_products_csv-IsGrouped}
use retail_os.Csv.Wire.{Text}
use retail_os.Catalog.GroupsKept.{brand_create-Written, category_create-Written}
use retail_os.Prelude.Rows.{select_one}
use retail_os.Catalog.Models.{ProductVariant, Product}
use retail_os.Core.Ensures.{
  Ensures-weaken, Ensures-intro, Ensures-ok, Ensures-if, Ensures-step, Ensures-raise_if,
  Ensures-or_raise, Ensures-run, Ensures-check, Ensures-bind, Ensures,
}
use retail_os.Csv.Groups.{parse_products_csv, ProductImportGroup}
use retail_os.Catalog.Schemas.{ProductCreate}
use retail_os.Catalog.Invariant.{IsCatalog, Created-IsCatalog, Untouched-IsCatalog, Untouched}
use retail_os.Core.Session.{err, ok, Result, M, Session}
use retail_os.Core.Db.{Db}
use retail_os.Prelude.{
  is_none, subst, refl, map, ◌+◌, none, sym, arith, some, ◌∙◌, ◌≡◌, ◌++◌, [], ◌∷◌, Option, String,
  ℕ, List,
}
use retail_os.Catalog.ProductCsvService.{
  import_company_products, import_groups, import_group, nested, error, if_found, skipped, created,
  import_one_group, parse_gender, resolve_unit, resolve_brand_id, resolve_category_id,
  ProductImportRowResult,
}
use mathlib.Core.List.{append_assoc, append-nil, map-append}
use retail_os.Catalog.Creating.{create_product-Created, Created}
use retail_os.Catalog.CategoryRepository
use retail_os.Catalog.BrandRepository
use retail_os.Catalog.ProductRepository

-- the SKU that an entry of the results is about
abbrev pub result_sku : ProductImportRowResult → String
result_sku (created sku) = sku
result_sku (skipped sku message) = sku
result_sku (error sku message) = sku

-- the SKUs of the entries that say "created"
abbrev pub created_skus : List ProductImportRowResult → List String
created_skus [] = []
created_skus (created sku ∷ rs) = sku ∷ created_skus rs
created_skus (skipped sku message ∷ rs) = created_skus rs
created_skus (error sku message ∷ rs) = created_skus rs

-- Products with these SKUs, in this order, are added behind those of before, and variants behind the
-- variants of before.
pub record Added (skus : List String) (db db' : Db) : Type 0 where
  pub new_products : List Product
  pub new_variants : List ProductVariant
  pub products : db'.products ≡ db.products ++ new_products
  pub variants : db'.product_variants ≡ db.product_variants ++ new_variants
  pub named : map (λ p. p.sku) new_products ≡ skus
  pub in_order : IsCatalog db → IsCatalog db'

Added-nothing : (db db' : Db) → Untouched db db' → Added [] db db'
Added-nothing db db' (p, v, b) = record {
  new_products = [];
  new_variants = [];
  products = p ∙ sym (append-nil db.products);
  variants = v ∙ sym (append-nil db.product_variants);
  named = refl;
  in_order = Untouched-IsCatalog db db' (p, v, b);
}

Added-trans :
    (xs ys : List String) (a b c : Db) → Added xs a b → Added ys b c → Added (xs ++ ys) a c
Added-trans xs ys a b c h k = record {
  new_products = h.new_products ++ k.new_products;
  new_variants = h.new_variants ++ k.new_variants;
  products =
      rw (k.products, h.products, append_assoc a.products h.new_products k.new_products) refl;
  variants =
      rw (k.variants, h.variants, append_assoc a.product_variants h.new_variants k.new_variants)
        refl;
  named = rw (map-append (λ p. p.sku) h.new_products k.new_products, h.named, k.named) refl;
  in_order = λ valid. k.in_order (h.in_order valid);
}

if_found-Ensures :
    {A B : Type 0} (Q : B → Session → Type 0) (o : Option A) (f : A → M B) (m : M B) (s : Session)
    → ((a : A) → Ensures Q (f a s))
    → Ensures Q (m s)
    → Ensures Q (if_found o f m s)
if_found-Ensures Q none f m s k h = h
if_found-Ensures Q (some a) f m s k h = k a

category_id-Leaves :
    (company_id : ℕ) (name : Option String) (s : Session)
    → Ensures (λ _ s'. Untouched s.db s'.db) (resolve_category_id company_id name s)
unfolding resolve_category_id CategoryRepository.get_by_name
category_id-Leaves company_id none s = (refl, refl, refl)
category_id-Leaves company_id (some name) s =
    let Q = λ (_ : Option ℕ) (s' : Session). Untouched s.db s'.db in
    let drawn : Session = record s { next_id = s.next_id + 1 } in
    Ensures-run Q _ _ s _ s refl (
      if_found-Ensures Q (select_one (CategoryRepository.has_name company_id name) s.db.categories)
        _ _ s (λ c. (refl, refl, refl))
        (Ensures-run Q _ _ s s.next_id drawn refl
          (Ensures-step Q _ _ _ drawn (category_create-Written _ drawn) λ _. (refl, refl, refl))))

brand_id-Leaves :
    (company_id : ℕ) (name : Option String) (s : Session)
    → Ensures (λ _ s'. Untouched s.db s'.db) (resolve_brand_id company_id name s)
unfolding resolve_brand_id BrandRepository.get_by_name
brand_id-Leaves company_id none s = (refl, refl, refl)
brand_id-Leaves company_id (some name) s =
    let Q = λ (_ : Option ℕ) (s' : Session). Untouched s.db s'.db in
    let drawn : Session = record s { next_id = s.next_id + 1 } in
    Ensures-run Q _ _ s _ s refl (
      if_found-Ensures Q (select_one (BrandRepository.has_name company_id name) s.db.brands) _ _ s
        (λ b. (refl, refl, refl))
        (Ensures-run Q _ _ s s.next_id drawn refl
          (Ensures-step Q _ _ _ drawn (brand_create-Written _ drawn) λ _. (refl, refl, refl))))

unit-reads : (c : ℕ) (name : String) (s : Session) → (resolve_unit c name s).1 ≡ s
unfolding resolve_unit
unit-reads c name s = ground arith

gender-reads : (gender : Option String) (s : Session) → (parse_gender gender s).1 ≡ s
unfolding parse_gender
gender-reads none s = refl
gender-reads (some g) s = ground arith

Created-Added :
    (company_id : ℕ) (request : ProductCreate) (s : Session) (p : Product)
    (vs : List ProductVariant) (s' : Session)
    → Created company_id request s p vs s'
    → Added (request.sku ∷ []) s.db s'.db
Created-Added company_id request s p vs s' h = record {
  new_products = p ∷ [];
  new_variants = vs;
  products = rw h.written refl;
  variants = rw h.written refl;
  named = rw h.fields refl;
  in_order = Created-IsCatalog company_id request s p vs s' h;
}

import_one_group-Added :
    (company_id : ℕ) (group : ProductImportGroup) (s : Session)
    → Ensures (λ _ s'. Added (group.sku ∷ []) s.db s'.db) (import_one_group company_id group s)
unfolding import_one_group
import_one_group-Added company_id group s =
    let Q = λ (_ : Unit {0}) (s' : Session). Added (group.sku ∷ []) s.db s'.db in
    Ensures-bind Q _ _ _ s (category_id-Leaves company_id group.category s) λ category s₁ u.
      Ensures-bind Q _ _ _ s₁ (brand_id-Leaves company_id group.brand s₁) λ brand s₂ v.
        Ensures-check Q _ _ s₂ (unit-reads company_id group.unit s₂) λ unit.
          Ensures-check Q _ _ s₂ (gender-reads group.gender s₂) λ gender.
            Ensures-or_raise Q _ _ _ s₂ λ first _. Ensures-raise_if Q _ _ _ s₂ λ _.
              Ensures-bind Q _ _ _ s₂ (create_product-Created company_id _ s₂) λ x s₃ c.
                Added-trans [] (group.sku ∷ []) s.db s₁.db s₃.db (Added-nothing s.db s₁.db u) (
                  Added-trans [] (group.sku ∷ []) s₁.db s₂.db s₃.db (Added-nothing s₁.db s₂.db v)
                    (Created-Added company_id _ s₂ x.0 x.1 s₃ c))

-- a savepoint: an action that raises an AppException has written nothing
nested-Ensures :
    (P : Session → Type 0) (Q : ProductImportRowResult → Session → Type 0) (sku : String)
    (m : M (Unit {0})) (s : Session)
    → Ensures (λ _ s'. P s') (m s)
    → ((s' : Session) → P s' → Q (created sku) s')
    → ((message : String) (s' : Session) → s'.db ≡ s.db → Q (error sku message) s')
    → Ensures Q (nested sku m s)
unfolding nested
nested-Ensures P Q sku m s h k l = let (r, s₁) = m s in go r s₁ h
  where
    go :
        (r : Result (Unit {0})) (s₁ : Session)
        → Ensures (λ _ s'. P s') (r, s₁)
        → Ensures Q (nested sku (λ _. (r, s₁)) s)
    go (ok _) s₁ h = k s₁ h
    go (err (app e)) s₁ h = l e.message _ refl
    go (err invalid_token) s₁ h = tt
    go (err integrity_error) s₁ h = tt
    go (err data_error) s₁ h = tt
    go (err validation_error) s₁ h = tt
    go (err runtime_error) s₁ h = tt
    go (err value_error) s₁ h = tt
    go (err csv_error) s₁ h = tt
    go (err (csv_import_error line message)) s₁ h = tt

-- the entry of a group, and what it has added
abbrev One : ProductImportGroup → Session → ProductImportRowResult → Session → Type 0
One group s result s' =
    (result_sku result ≡ group.sku) × Added (created_skus (result ∷ [])) s.db s'.db

unchanged : (db db' : Db) → db' ≡ db → Added [] db db'
unchanged db db' e = Added-nothing db db' (rw e (refl, refl, refl))

import_group-One :
    (company_id : ℕ) (group : ProductImportGroup) (s : Session)
    → Ensures (One group s) (import_group company_id group s)
unfolding import_group ProductRepository.get_by_sku
import_group-One company_id group s =
    let Q = One group s in
    Ensures-run Q _ _ s _ s refl (
      Ensures-if Q
        (is_none (select_one (ProductRepository.has_sku company_id group.sku) s.db.products)) _ _ s
        (λ _.
          nested-Ensures (λ s'. Added (group.sku ∷ []) s.db s'.db) Q group.sku _ s
            (import_one_group-Added company_id group s) (λ s' h. (refl, h))
            (λ message s' e. (refl, unchanged s.db s'.db e)))
        (λ _. (refl, unchanged s.db s.db refl)))

created_skus-cons :
    (r : ProductImportRowResult) (rs : List ProductImportRowResult)
    → created_skus (r ∷ rs) ≡ created_skus (r ∷ []) ++ created_skus rs
created_skus-cons (created sku) rs = refl
created_skus-cons (skipped sku message) rs = refl
created_skus-cons (error sku message) rs = refl

-- What an import has done: there is an entry for each group, in the order of the groups, and the
-- products of the entries that say "created" are added, and no others.
abbrev pub Imported :
    List ProductImportGroup → Session → List ProductImportRowResult → Session → Type 0
Imported groups s results s' =
    (map result_sku results ≡ map (λ g. g.sku) groups) × Added (created_skus results) s.db s'.db

import_groups-Imported :
    (company_id : ℕ) (groups : List ProductImportGroup) (s : Session)
    → Ensures (Imported groups s) (import_groups company_id groups s)
unfolding import_groups
import_groups-Imported company_id [] s = (refl, unchanged s.db s.db refl)
import_groups-Imported company_id (group ∷ groups) s =
    let Q = Imported (group ∷ groups) s in
    Ensures-bind Q _ _ _ s (import_group-One company_id group s) λ r s₁ one.
      Ensures-bind Q _ _ _ s₁ (import_groups-Imported company_id groups s₁) λ rs s₂ rest. (
        rw (one.0, rest.0) refl,
        subst (λ skus. Added skus s.db s₂.db) (sym (created_skus-cons r rs))
            (Added-trans _ _ s.db s₁.db s₂.db one.1 rest.1),
      )

-- what an import of a text has done
abbrev ImportedFrom : Text → Session → List ProductImportRowResult → Session → Type 0
ImportedFrom csv_text s results s' =
    (groups : List ProductImportGroup) × (parse_products_csv csv_text s ≡ (ok groups, s))
    × Imported groups s results s'

import-Imported :
    (company_id : ℕ) (csv_text : Text) (s : Session)
    → Ensures (ImportedFrom csv_text s) (import_company_products company_id csv_text s)
unfolding import_company_products
import-Imported company_id csv_text s =
    Ensures-bind (ImportedFrom csv_text s)
      (λ groups s₁. (s₁ ≡ s) × (parse_products_csv csv_text s ≡ (ok groups, s))) _ _ s
      (Ensures-intro _ _ λ groups s₁ run.
        let same = (parse_products_csv-IsGrouped csv_text s run).0 in
        (same, subst (λ z. parse_products_csv csv_text s ≡ (ok groups, z)) same run))
      λ groups s₁ parsed. rw parsed.0 (
        Ensures-weaken (ImportedFrom csv_text s) (Imported groups s) _
          (import_groups-Imported company_id groups s) λ results s' h. (groups, parsed.1, h))

pub import_company_products-IsCatalog :
    (company_id : ℕ) (csv_text : Text) (s : Session)
    → IsCatalog s.db
    → Ensures (λ _ s'. IsCatalog s'.db) (import_company_products company_id csv_text s)
import_company_products-IsCatalog company_id csv_text s valid =
    Ensures-weaken (λ _ s'. IsCatalog s'.db) (ImportedFrom csv_text s) _
      (import-Imported company_id csv_text s) λ results s' h. h.2.1.in_order valid

-- An import that returns has an entry for each group of the file, in the order of the groups, and has
-- added exactly the products of the entries that say "created", in that order, and variants, behind the
-- rows of before; a catalogue that was in order still is.
pub import_company_products-Imported :
    (company_id : ℕ) (csv_text : Text) (s : Session) {results : List ProductImportRowResult}
    {s' : Session}
    → import_company_products company_id csv_text s ≡ (ok results, s')
    → (groups : List ProductImportGroup) × (parse_products_csv csv_text s ≡ (ok groups, s))
      × Imported groups s results s'
import_company_products-Imported company_id csv_text s e =
    Ensures-ok (ImportedFrom csv_text s) _ (import-Imported company_id csv_text s) e

-- `rescued` changes only what is raised
pub rescued-Ensures :
    {A : Type 0} (Q : A → Session → Type 0) (m : M A) (s : Session)
    → Ensures Q (m s)
    → Ensures Q (rescued m s)
unfolding rescued
rescued-Ensures {A = A} Q m s h = let (r, s₁) = m s in go r s₁ h
  where
    go : (r : Result A) (s₁ : Session) → Ensures Q (r, s₁) → Ensures Q (rescued (λ _. (r, s₁)) s)
    go (ok a) s₁ h = h
    go (err e) s₁ h = tt
