-- ===== src/Catalog/GroupsKept.antt =====
-- The operations on categories, brands and units of
-- backend/app/modules/products_catalog/service.py leave the products alone.
use retail_os.Catalog.Updates.{check_parent-reads}
use retail_os.Core.Optimistic.{Ensures-versioned}
use retail_os.Catalog.Invariant.{Untouched}
use retail_os.Catalog.Schemas.{BrandUpdate, CategoryUpdate, UnitCreate, BrandCreate, CategoryCreate}
use retail_os.Core.Ensures.{
  Ensures-check, Ensures-reads, Ensures-step, Ensures-raise_if, Ensures-run, Ensures-if, Ensures,
}
use retail_os.Prelude.{refl, [], ◌+◌, ◌∷◌, arith, ◌++◌, ◌≡◌, ℕ}
use retail_os.Catalog.Models.{ProductUnit, Brand, Category}
use retail_os.Core.Session.{Result, Session}
use retail_os.Catalog.CategoryRepository
use retail_os.Catalog.CategoryService
use retail_os.Catalog.BrandRepository
use retail_os.Catalog.BrandService
use retail_os.Catalog.UnitRepository
use retail_os.Catalog.UnitService

abbrev Leaves : {A : Type 0} → Session → Result A × Session → Type 0
Leaves s = Ensures (λ _ s'. Untouched s.db s'.db)

pub category_create-Written :
    (c : Category) (s : Session)
    → Ensures
        (λ _ s'. s' ≡ record s { db = record s.db { categories = s.db.categories ++ c ∷ [] } })
        (CategoryRepository.create c s)
unfolding CategoryRepository.create
category_create-Written c s = ground arith

pub brand_create-Written :
    (b : Brand) (s : Session)
    → Ensures
        (λ _ s'. s' ≡ record s { db = record s.db { brands = s.db.brands ++ b ∷ [] } })
        (BrandRepository.create b s)
unfolding BrandRepository.create
brand_create-Written b s = ground arith

unit_create-Written :
    (u : ProductUnit) (s : Session)
    → Ensures
        (λ _ s'. s' ≡ record s { db = record s.db { units = s.db.units ++ u ∷ [] } })
        (UnitRepository.create u s)
unfolding UnitRepository.create
unit_create-Written u s = ground arith

category_get-reads : (c id : ℕ) (s : Session) → (CategoryService.get c id s).1 ≡ s
unfolding CategoryService.get
category_get-reads c id s = ground arith

brand_get-reads : (c id : ℕ) (s : Session) → (BrandService.get c id s).1 ≡ s
unfolding BrandService.get
brand_get-reads c id s = ground arith

pub create_category-Leaves :
    (c : ℕ) (r : CategoryCreate) (s : Session) → Leaves s (CategoryService.create c r s)
unfolding CategoryService.create CategoryRepository.get_by_name
create_category-Leaves c r s =
    let Q = λ (_ : Category) (s' : Session). Untouched s.db s'.db in
    let drawn : Session = record s { next_id = s.next_id + 1 } in
    Ensures-run Q _ _ s _ s refl (
      Ensures-raise_if Q _ _ _ s λ _. Ensures-check Q _ _ s (check_parent-reads c _ s) λ _.
        Ensures-run Q _ _ s s.next_id drawn refl
          (Ensures-step Q _ _ _ drawn (category_create-Written _ drawn) λ _. (refl, refl, refl)))

pub create_brand-Leaves :
    (c : ℕ) (r : BrandCreate) (s : Session) → Leaves s (BrandService.create c r s)
unfolding BrandService.create BrandRepository.get_by_name
create_brand-Leaves c r s =
    let Q = λ (_ : Brand) (s' : Session). Untouched s.db s'.db in
    let drawn : Session = record s { next_id = s.next_id + 1 } in
    Ensures-run Q _ _ s _ s refl (
      Ensures-raise_if Q _ _ _ s λ _.
        Ensures-run Q _ _ s s.next_id drawn refl
          (Ensures-step Q _ _ _ drawn (brand_create-Written _ drawn) λ _. (refl, refl, refl)))

pub create_unit-Leaves :
    (c : ℕ) (r : UnitCreate) (s : Session) → Leaves s (UnitService.create c r s)
unfolding UnitService.create UnitRepository.list_available_for_company
create_unit-Leaves c r s =
    let Q = λ (_ : ProductUnit) (s' : Session). Untouched s.db s'.db in
    let drawn : Session = record s { next_id = s.next_id + 1 } in
    Ensures-run Q _ _ s _ s refl (
      Ensures-raise_if Q _ _ _ s λ _.
        Ensures-run Q _ _ s s.next_id drawn refl
          (Ensures-step Q _ _ _ drawn (unit_create-Written _ drawn) λ _. (refl, refl, refl)))

pub update_category-Leaves :
    (c id v : ℕ) (r : CategoryUpdate) (s : Session) → Leaves s (CategoryService.update c id r v s)
unfolding CategoryService.update CategoryRepository.get_by_id
update_category-Leaves c id v r s =
    let Q = λ (_ : Category) (s' : Session). Untouched s.db s'.db in
    Ensures-if Q (CategoryService.has_changes r) _ _ s
      (λ _. Ensures-raise_if Q _ _ _ s λ _. Ensures-check Q _ _ s (check_parent-reads c _ s) λ _.
        Ensures-raise_if Q _ _ _ s λ _.
          Ensures-versioned (λ db. db.categories) (λ rows db. record db { categories = rows }) _ _ _
            _ (λ xs db. refl) (λ db. refl) Q _ _ s λ x s' h. rw h (refl, refl, refl))
      (λ _.
        Ensures-reads Q (CategoryService.get c id) s (category_get-reads c id s)
          λ _. (refl, refl, refl))

pub update_brand-Leaves :
    (c id v : ℕ) (r : BrandUpdate) (s : Session) → Leaves s (BrandService.update c id r v s)
unfolding BrandService.update BrandRepository.get_by_id
update_brand-Leaves c id v r s =
    let Q = λ (_ : Brand) (s' : Session). Untouched s.db s'.db in
    Ensures-if Q (BrandService.has_changes r) _ _ s
      (λ _.
        Ensures-versioned (λ db. db.brands) (λ rows db. record db { brands = rows }) _ _ _ _
          (λ xs db. refl) (λ db. refl) Q _ _ s λ x s' h. rw h (refl, refl, refl))
      (λ _.
        Ensures-reads Q (BrandService.get c id) s (brand_get-reads c id s) λ _. (refl, refl, refl))
