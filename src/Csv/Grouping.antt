-- ===== src/Csv/Grouping.antt =====
-- What `parse_products_csv` of backend/app/modules/products_catalog/csv_io.py makes of the rows of a file.

use retail_os.Csv.Values.{text_of}
use retail_os.Core.Ensures.{
  Ensures-ok, Ensures-weaken, Ensures-bind, Ensures-move, Ensures-if, Ensures-step,
  Ensures-raise_if, Ensures-check, Ensures,
}
use retail_os.Core.Session.{ok, Session}
use retail_os.Prelude.Tables.{All-append, All-map_to}
use retail_os.Prelude.Distinct.{Distinct-append, Distinct-update_where, Distinct}
use retail_os.Prelude.Rows.{any-append, affected_rows, any, length, All}
use retail_os.Prelude.{
  sym, ◌∙◌, Option, str_eq_self, subst, inr, arith, inl, Bool-cases, eq_iff, ap, refl, false, true,
  [], ◌≡◌, ◌++◌, ◌≤◌, ◌+◌, suc, ◌∷◌, str_eq, Bool, String, ℕ, List,
}
use retail_os.Csv.Groups.{
  parse_products_csv, parse_table, parse_rows, cell, parse_row, parse_group, parse_variant,
  parse_optional_int, parse_optional_decimal, parse_decimal, append_variant,
  ProductImportVariantRow, has_sku, ProductImportGroup,
}
use retail_os.Csv.Wire.{read_rows, Text, Rows, done, broken, next}

abbrev pub sku_taken : ProductImportGroup → ProductImportGroup → Bool
sku_taken g h = str_eq g.sku h.sku

-- the rows that have a cell, up to the end of the file
unfoldable pub row_count : Rows → ℕ
row_count done = 0
row_count broken = 0
row_count (next [] rest) = row_count rest
row_count (next (c ∷ cs) rest) = suc (row_count rest)

abbrev pub total : List ProductImportGroup → ℕ
total [] = 0
total (g ∷ gs) = length g.variants + total gs

-- Each group has a variant, no two groups share a SKU, and there are as many variants as rows.
pub record IsGrouped (n : ℕ) (groups : List ProductImportGroup) : Type 0 where
  pub some_variant : All (λ g. 1 ≤ length g.variants) groups
  pub distinct : Distinct sku_taken groups
  pub complete : total groups ≡ n

length-append_one : {A : Type 0} (xs : List A) (x : A) → length (xs ++ x ∷ []) ≡ suc (length xs)
length-append_one [] x = refl
length-append_one (y ∷ ys) x = ap suc (length-append_one ys x)

has_sku-≡ : (sku : String) (g : ProductImportGroup) → has_sku sku g ≡ true → g.sku ≡ sku
has_sku-≡ sku g h = (eq_iff g.sku sku).0 h

total-append_variant :
    (sku : String) (v : ProductImportVariantRow) (gs : List ProductImportGroup)
    → total (append_variant sku v gs) ≡ total gs + affected_rows (has_sku sku) gs
total-append_variant sku v [] = refl
total-append_variant sku v (g ∷ gs) = elim (Bool-cases (has_sku sku g)) [
  | inl e ↦ rw (e, length-append_one g.variants v) (omega (arith, total-append_variant sku v gs))
  | inr e ↦ rw e (omega (arith, total-append_variant sku v gs))
]

none_affected :
    {A : Type 0} (p : A → Bool) (xs : List A) → any p xs ≡ false → affected_rows p xs ≡ 0
none_affected p [] h = refl
none_affected p (x ∷ xs) h = elim (Bool-cases (p x)) [
  | inl e ↦ absurd (cc (rw e at h))
  | inr e ↦ rw e (omega (arith, none_affected p xs (rw e at h)))
]

one_affected :
    (sku : String) (gs : List ProductImportGroup)
    → Distinct sku_taken gs
    → any (has_sku sku) gs ≡ true
    → affected_rows (has_sku sku) gs ≡ 1
one_affected sku [] d h = cc
one_affected sku (g ∷ gs) d h = elim (Bool-cases (has_sku sku g)) [
  | inl e ↦
      rw
        (
          e,
          none_affected (has_sku sku) gs
              (subst (λ s. any (λ y. str_eq y.sku s) gs ≡ false) (has_sku-≡ sku g e) d.0),
        )
        refl
  | inr e ↦ rw e (omega (arith, one_affected sku gs d.1 (rw e at h)))
]

appended-some_variant :
    (sku : String) (v : ProductImportVariantRow) (gs : List ProductImportGroup)
    → All (λ g. has_sku sku g ≡ false → 1 ≤ length g.variants) gs
    → All (λ g. 1 ≤ length g.variants) (append_variant sku v gs)
appended-some_variant sku v [] h = tt
appended-some_variant sku v (g ∷ gs) h = elim (Bool-cases (has_sku sku g)) [
  | inl e ↦ rw (e, length-append_one g.variants v) (omega arith, appended-some_variant sku v gs h.1)
  | inr e ↦ rw e (h.0 e, appended-some_variant sku v gs h.1)
]

-- a variant is appended to a group that is there
append_variant-IsGrouped :
    (n : ℕ) (sku : String) (v : ProductImportVariantRow) (gs : List ProductImportGroup)
    → All (λ g. has_sku sku g ≡ false → 1 ≤ length g.variants) gs
    → Distinct sku_taken gs
    → total gs ≡ n
    → any (has_sku sku) gs ≡ true
    → IsGrouped (n + 1) (append_variant sku v gs)
append_variant-IsGrouped n sku v gs h d t there = record {
  some_variant = appended-some_variant sku v gs h;
  distinct = Distinct-update_where sku_taken (has_sku sku) _ gs (λ x y. refl) (λ x y. refl) d;
  complete = rw (total-append_variant sku v gs, one_affected sku gs d there, t) refl;
}

pub parse_decimal-reads :
    (n : ℕ) (value : Option Text) (column : String) (s : Session)
    → (parse_decimal n value column s).1 ≡ s
unfolding parse_decimal
parse_decimal-reads n value column s = ground arith

pub parse_optional_decimal-reads :
    (n : ℕ) (value : Option Text) (column : String) (s : Session)
    → (parse_optional_decimal n value column s).1 ≡ s
unfolding parse_optional_decimal
parse_optional_decimal-reads n value column s = ground arith

pub parse_optional_int-reads :
    (n : ℕ) (value : Option Text) (column : String) (s : Session)
    → (parse_optional_int n value column s).1 ≡ s
unfolding parse_optional_int
parse_optional_int-reads n value column s = ground arith

-- the rows that are parsed leave the session alone
parse_variant-reads :
    (header : List Text) (n : ℕ) (cells : List Text) (sku : Text) (s : Session)
    → Ensures (λ _ s'. s' ≡ s) (parse_variant header n cells sku s)
unfolding parse_variant
parse_variant-reads header n cells sku s =
    let Q = λ (_ : ProductImportVariantRow) (s' : Session). s' ≡ s in
    Ensures-check Q _ _ s (parse_decimal-reads n _ _ s) λ _.
      Ensures-check Q _ _ s (parse_decimal-reads n _ _ s)
        λ _. Ensures-check Q _ _ s (parse_optional_decimal-reads n _ _ s) λ _. refl

parse_group-Opens :
    (header : List Text) (n : ℕ) (cells : List Text) (sku : Text) (s : Session)
    → Ensures
        (λ g s'. (s' ≡ s) × (g.sku ≡ text_of sku) × (g.variants ≡ []))
        (parse_group header n cells sku s)
unfolding parse_group
parse_group-Opens header n cells sku s =
    let Q = λ (g : ProductImportGroup) (s' : Session).
      (s' ≡ s) × (g.sku ≡ text_of sku) × (g.variants ≡ []) in
    Ensures-raise_if Q _ _ _ s λ _. Ensures-raise_if Q _ _ _ s λ _.
      Ensures-check Q _ _ s (parse_optional_decimal-reads n _ _ s)
        λ _. Ensures-check Q _ _ s (parse_optional_int-reads n _ _ s) λ _. (refl, refl, refl)

old_groups :
    (sku : String) (gs : List ProductImportGroup)
    → All (λ g. 1 ≤ length g.variants) gs
    → All (λ g. has_sku sku g ≡ false → 1 ≤ length g.variants) gs
old_groups sku gs h =
    All-map_to _ (λ g. has_sku sku g ≡ false → 1 ≤ length g.variants) gs (λ g p _. p) h

total-append_empty :
    (g : ProductImportGroup) (gs : List ProductImportGroup)
    → g.variants ≡ []
    → total (gs ++ g ∷ []) ≡ total gs
total-append_empty g [] h = rw h refl
total-append_empty g (x ∷ xs) h = omega (arith, total-append_empty g xs h)

str_eq_sym : (a b : String) → str_eq a b ≡ str_eq b a
str_eq_sym a b = ground (arith, eq_iff a b, eq_iff b a)

any-flip :
    (sku : String) (gs : List ProductImportGroup)
    → any (λ y. str_eq sku y.sku) gs ≡ any (has_sku sku) gs
any-flip sku [] = refl
any-flip sku (g ∷ gs) = rw (str_eq_sym sku g.sku, any-flip sku gs) refl

-- a group is opened, and its first variant appended
opened-IsGrouped :
    (n : ℕ) (sku : String) (v : ProductImportVariantRow) (g : ProductImportGroup)
    (gs : List ProductImportGroup)
    → g.sku ≡ sku
    → g.variants ≡ []
    → any (has_sku sku) gs ≡ false
    → IsGrouped n gs
    → IsGrouped (n + 1) (append_variant sku v (gs ++ g ∷ []))
opened-IsGrouped n sku v g gs e none_yet free h =
    let is_it : has_sku sku g ≡ true = rw e (str_eq_self sku) in
    append_variant-IsGrouped n sku v (gs ++ g ∷ [])
      (All-append (λ x. has_sku sku x ≡ false → 1 ≤ length x.variants) gs (g ∷ [])
        (old_groups sku gs h.some_variant) ((λ k. absurd (cc (is_it, k))), tt))
      (Distinct-append sku_taken gs g h.distinct
        (subst (λ x. any (λ y. str_eq x y.sku) gs ≡ false) (sym e) (any-flip sku gs ∙ free)))
      (total-append_empty g gs none_yet ∙ h.complete)
      (rw (any-append (has_sku sku) gs (g ∷ []), free, is_it) refl)

pub parse_row-IsGrouped :
    (header : List Text) (line n : ℕ) (cells : List Text) (gs : List ProductImportGroup)
    (s : Session)
    → IsGrouped n gs
    → Ensures (λ gs' s'. (s' ≡ s) × IsGrouped (n + 1) gs') (parse_row header line cells gs s)
unfolding parse_row
parse_row-IsGrouped header line n cells gs s h =
    let Q = λ (gs' : List ProductImportGroup) (s' : Session). (s' ≡ s) × IsGrouped (n + 1) gs' in
    let sku = cell header cells "sku" in
    Ensures-raise_if Q _ _ _ s λ _.
      Ensures-step Q s _ _ s (parse_variant-reads header line cells sku s) λ v.
        Ensures-if Q (any (has_sku (text_of sku)) gs) _ _ s
          (λ there. (
            refl,
            append_variant-IsGrouped n (text_of sku) v gs
                (old_groups (text_of sku) gs h.some_variant) h.distinct h.complete there,
          ))
          (λ free.
            Ensures-bind Q _ _ _ s (parse_group-Opens header line cells sku s) λ g s' opens.
              (opens.0, opened-IsGrouped n (text_of sku) v g gs opens.1 opens.2 free h))

pub parse_rows-IsGrouped :
    (header : List Text) (line n : ℕ) (rows : Rows) (gs : List ProductImportGroup) (s : Session)
    → IsGrouped n gs
    → Ensures
        (λ gs' s'. (s' ≡ s) × IsGrouped (n + row_count rows) gs')
        (parse_rows header line rows gs s)
unfolding parse_rows row_count
parse_rows-IsGrouped header line n done gs s h = (refl, subst (λ k. IsGrouped k gs) (omega arith) h)
parse_rows-IsGrouped header line n broken gs s h = tt
parse_rows-IsGrouped header line n (next [] rest) gs s h =
    parse_rows-IsGrouped header line n rest gs s h
parse_rows-IsGrouped header line n (next (c ∷ cs) rest) gs s h =
    let Q = λ (gs' : List ProductImportGroup) (s' : Session).
      (s' ≡ s) × IsGrouped (n + suc (row_count rest)) gs' in
    Ensures-move Q (IsGrouped (n + 1)) s _ _ s (parse_row-IsGrouped header line n (c ∷ cs) gs s h)
      λ gs' h'.
        Ensures-weaken Q _ _ (parse_rows-IsGrouped header (line + 1) (n + 1) rest gs' s h')
          λ gs'' s' k. (k.0, subst (λ k. IsGrouped k gs'') (omega arith) k.1)

-- the rows behind the header
abbrev pub data_rows : Rows → ℕ
data_rows done = 0
data_rows broken = 0
data_rows (next header rest) = row_count rest

parse_table-IsGrouped :
    (rows : Rows) (s : Session)
    → Ensures (λ gs s'. (s' ≡ s) × IsGrouped (data_rows rows) gs) (parse_table rows s)
unfolding parse_table
parse_table-IsGrouped done s = tt
parse_table-IsGrouped broken s = tt
parse_table-IsGrouped (next header rest) s =
    let Q =
      λ (gs : List ProductImportGroup) (s' : Session). (s' ≡ s) × IsGrouped (row_count rest) gs in
    let none_yet : IsGrouped 0 [] = record { some_variant = tt; distinct = tt; complete = refl } in
    Ensures-raise_if Q _ _ _ s λ _.
      Ensures-weaken Q _ _ (parse_rows-IsGrouped header 2 0 rest [] s none_yet)
        λ gs s' k. (k.0, subst (λ n. IsGrouped n gs) (omega arith) k.1)

-- Parsing leaves the session alone and groups as many variants as there are rows.
pub parse_products_csv-IsGrouped :
    (csv_text : Text) (s : Session) {groups : List ProductImportGroup} {s' : Session}
    → parse_products_csv csv_text s ≡ (ok groups, s')
    → (s' ≡ s) × IsGrouped (data_rows (read_rows csv_text)) groups
parse_products_csv-IsGrouped csv_text s e =
    Ensures-ok (λ gs s'. (s' ≡ s) × IsGrouped (data_rows (read_rows csv_text)) gs) _
      (parse_table-IsGrouped (read_rows csv_text) s) e
