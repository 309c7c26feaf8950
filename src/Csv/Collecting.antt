-- ===== src/Csv/Collecting.antt =====
-- The loop of `parse_products_csv` of backend/app/modules/products_catalog/csv_io.py: every row goes to
-- the group of its SKU.
use retail_os.Core.Ensures.{
  Ensures-ok, Ensures-weaken, Ensures-if, Ensures-read, Ensures-raise_if, Ensures,
}
use retail_os.Core.Session.{ok, Session}
use retail_os.Csv.Grouping.{parse_products_csv-IsGrouped, data_rows, row_count, IsGrouped}
use retail_os.Csv.Values.{text_of}
use retail_os.Prelude.Rows.{length, any-append, All, select_all, select_one, any}
use retail_os.Prelude.Tables.{All-append, All-update_where, All-map_to, any-update_where}
use retail_os.Prelude.Related.{
  select_all-append_out, select_all-any_none, Related-append, select_one-last, select_all-append_in,
  select_one-append, Related,
}
use mathlib.Core.List.{append-nil, append_assoc}
use retail_os.Csv.Readings.{parse_variant-IsVariant, parse_group-IsGroup}
use retail_os.Csv.Groups.{
  parse_products_csv, ProductImportVariantRow, ProductImportGroup, parse_row, parse_rows,
  parse_table, append_variant, has_sku, cell,
}
use retail_os.Csv.Readings.{value, Row, numbered, sku_is, IsVariant, IsGroup, IsRead}
use retail_os.Csv.Wire.{read_rows, Text, Rows, done, broken, next}
use retail_os.Prelude.{
  suc, ◌+◌, str_eq_self, sym, ℕ, subst, inr, ap, inl, ◌∙◌, refl, eq_iff, Bool-cases, arith, some,
  ◌++◌, String, ◌≡◌, List, true, false, [], ◌∷◌,
}

module _ (header : List Text) (rows : List Row) (row : Row) where
  abbrev key : String
  key = text_of (value header row "sku")

  abbrev First : List Row → ProductImportGroup → Type 0
  First seen g = (r : Row) × (select_one (sku_is header g.sku) seen ≡ some r) × IsGroup header r g

  abbrev Reads : List Row → ProductImportGroup → Type 0
  Reads seen g = Related (IsVariant header) (select_all (sku_is header g.sku) seen) g.variants

  abbrev more : List Row
  more = rows ++ row ∷ []

  key-sku_is : (g : ProductImportGroup) → sku_is header g.sku row ≡ has_sku key g
  key-sku_is g = ground (arith, eq_iff key g.sku, eq_iff g.sku key)

  -- the fields of a group do not hang on its variants
  with_variants-First :
      (vs : List ProductImportVariantRow) (g : ProductImportGroup)
      → First more g
      → First more (record g { variants = vs })
  with_variants-First vs g (r, e, h) = (
    r,
    e,
    record {
      sku = h.sku;
      name = h.name;
      unit = h.unit;
      description = h.description;
      category = h.category;
      brand = h.brand;
      gender = h.gender;
      season = h.season;
      age_group = h.age_group;
      hsn_code = h.hsn_code;
      tax_percent = h.tax_percent;
      low_stock_threshold = h.low_stock_threshold;
      track_inventory = h.track_inventory;
      allow_negative_stock = h.allow_negative_stock;
    },
  )

  more-First : (gs : List ProductImportGroup) → All (First rows) gs → All (First more) gs
  more-First gs h =
      All-map_to (First rows) (First more) gs
        (λ g f. (f.0, select_one-append (sku_is header g.sku) rows row f.0 f.1, f.2)) h

  append_variant-First :
      (v : ProductImportVariantRow) (gs : List ProductImportGroup)
      → All (First more) gs
      → All (First more) (append_variant key v gs)
  append_variant-First v gs h =
      All-update_where (First more) (has_sku key) _ gs
        (λ g. with_variants-First (g.variants ++ v ∷ []) g) h

  append_variant-Reads :
      (v : ProductImportVariantRow) (gs : List ProductImportGroup)
      → IsVariant header row v
      → All (Reads rows) gs
      → All (Reads more) (append_variant key v gs)
  append_variant-Reads v [] is h = tt
  append_variant-Reads v (g ∷ gs) is h = elim (Bool-cases (has_sku key g)) [
    | inl e ↦
        rw (e, select_all-append_in (sku_is header g.sku) rows row (key-sku_is g ∙ e))
          (
            Related-append (IsVariant header) _ g.variants row v h.0 is,
            append_variant-Reads v gs is h.1,
          )
    | inr e ↦
        rw (e, select_all-append_out (sku_is header g.sku) rows row (key-sku_is g ∙ e))
          (h.0, append_variant-Reads v gs is h.1)
  ]

  append_variant-any :
      (k : String) (v : ProductImportVariantRow) (gs : List ProductImportGroup)
      → any (has_sku k) (append_variant key v gs) ≡ any (has_sku k) gs
  append_variant-any k v gs = any-update_where (has_sku k) (has_sku key) _ gs (λ g. refl)

  added_sku :
      (k : String) (v : ProductImportVariantRow) (gs : List ProductImportGroup)
      → any (has_sku key) gs ≡ true
      → any (sku_is header k) rows ≡ any (has_sku k) gs
      → any (sku_is header k) more ≡ any (has_sku k) (append_variant key v gs)
  added_sku k v gs there h =
      any-append (sku_is header k) rows (row ∷ []) ∙ elim (Bool-cases (sku_is header k row)) [
        | inl e ↦
            let there' : any (has_sku k) gs ≡ true =
              subst (λ x. any (has_sku x) gs ≡ true) ((eq_iff key k).0 e) there in
            rw (e, append_variant-any k v gs, h, there') refl
        | inr e ↦ rw (e, append_variant-any k v gs, h) (ground arith)
      ]

  -- the row's group is there
  added-IsRead :
      (v : ProductImportVariantRow) (gs : List ProductImportGroup)
      → IsVariant header row v
      → any (has_sku key) gs ≡ true
      → IsRead header rows gs
      → IsRead header more (append_variant key v gs)
  added-IsRead v gs is there h = record {
    fields = append_variant-First v gs (more-First gs h.fields);
    variants = append_variant-Reads v gs is h.variants;
    skus = λ k. added_sku k v gs there (h.skus k);
  }

  -- the row opens a group
  opened-IsRead :
      (v : ProductImportVariantRow) (g : ProductImportGroup) (gs : List ProductImportGroup)
      → IsVariant header row v
      → IsGroup header row g
      → g.variants ≡ []
      → any (has_sku key) gs ≡ false
      → IsRead header rows gs
      → IsRead header more (append_variant key v (gs ++ g ∷ []))
  opened-IsRead v g gs is opens none_yet free h =
      let unseen : any (sku_is header g.sku) rows ≡ false =
        subst (λ k. any (sku_is header k) rows ≡ false) (sym opens.sku) (h.skus key ∙ free) in
      let its : sku_is header g.sku row ≡ true = rw (opens.sku) (str_eq_self key) in
      record {
        fields = append_variant-First v (gs ++ g ∷ []) (
            All-append (First more) gs (g ∷ []) (more-First gs h.fields)
              ((row, select_one-last (sku_is header g.sku) rows row unseen its, opens), tt));
        variants = append_variant-Reads v (gs ++ g ∷ []) is (
            All-append (Reads rows) gs (g ∷ []) h.variants
              (rw (select_all-any_none (sku_is header g.sku) rows unseen, none_yet) tt, tt));
        skus = λ k.
            any-append (sku_is header k) rows (row ∷ [])
            ∙ rw
                (
                  append_variant-any k v (gs ++ g ∷ []),
                  any-append (has_sku k) gs (g ∷ []),
                  opens.sku,
                  h.skus k,
                )
                refl;
      }

parse_row-IsRead :
    (header : List Text) (n : ℕ) (cells : List Text) (rows : List Row)
    (gs : List ProductImportGroup) (s : Session)
    → IsRead header rows gs
    → Ensures
        (λ gs' s'. (s' ≡ s) × IsRead header (rows ++ (n, cells) ∷ []) gs')
        (parse_row header n cells gs s)
unfolding parse_row cell
parse_row-IsRead header n cells rows gs s h =
    let row : Row = (n, cells) in
    let k = key header rows row in
    let Q = λ (gs' : List ProductImportGroup) (s' : Session).
      (s' ≡ s) × IsRead header (rows ++ row ∷ []) gs' in
    Ensures-raise_if Q _ _ _ s λ _.
      Ensures-read Q (IsVariant header row) _ _ s (parse_variant-IsVariant header n cells s) λ v is.
        Ensures-if Q (any (has_sku k) gs) _ _ s
          (λ there. (refl, added-IsRead header rows row v gs is there h))
          (λ free.
            Ensures-read Q (λ g. IsGroup header row g × (g.variants ≡ [])) _ _ s
              (parse_group-IsGroup header n cells s)
              λ g opens. (refl, opened-IsRead header rows row v g gs is opens.0 opens.1 free h))

parse_rows-IsRead :
    (header : List Text) (n : ℕ) (rest : Rows) (rows : List Row) (gs : List ProductImportGroup)
    (s : Session)
    → IsRead header rows gs
    → Ensures
        (λ gs' s'. (s' ≡ s) × IsRead header (rows ++ numbered n rest) gs')
        (parse_rows header n rest gs s)
unfolding parse_rows
parse_rows-IsRead header n done rows gs s h = (refl, rw (append-nil rows) h)
parse_rows-IsRead header n broken rows gs s h = tt
parse_rows-IsRead header n (next [] rest) rows gs s h = parse_rows-IsRead header n rest rows gs s h
parse_rows-IsRead header n (next (c ∷ cs) rest) rows gs s h =
    let row : Row = (n, c ∷ cs) in
    let Q = λ (gs' : List ProductImportGroup) (s' : Session).
      (s' ≡ s) × IsRead header (rows ++ row ∷ numbered (n + 1) rest) gs' in
    Ensures-read Q (IsRead header (rows ++ row ∷ [])) _ _ s
      (parse_row-IsRead header n (c ∷ cs) rows gs s h)
      λ gs' h'.
        Ensures-weaken Q _ _ (parse_rows-IsRead header (n + 1) rest (rows ++ row ∷ []) gs' s h')
          λ gs'' s' k. (
            k.0,
            subst (λ xs. IsRead header xs gs'')
                (append_assoc rows (row ∷ []) (numbered (n + 1) rest)) k.1,
          )

numbered-length : (n : ℕ) (rows : Rows) → length (numbered n rows) ≡ row_count rows
unfolding row_count
numbered-length n done = refl
numbered-length n broken = refl
numbered-length n (next [] rest) = numbered-length n rest
numbered-length n (next (c ∷ cs) rest) = ap suc (numbered-length (n + 1) rest)

-- A file with a header, whose other rows were read into the groups.
abbrev pub Parsed : Rows → List ProductImportGroup → Type 0
Parsed rows groups =
    (header : List Text) × (rest : Rows) × (rows ≡ next header rest)
    × IsRead header (numbered 2 rest) groups
    × IsGrouped (length (numbered 2 rest)) groups

parse_table-Parsed :
    (rows : Rows) (s : Session) {groups : List ProductImportGroup} {s' : Session}
    → parse_table rows s ≡ (ok groups, s')
    → IsGrouped (data_rows rows) groups
    → Parsed rows groups
unfolding parse_table
parse_table-Parsed done s e h = cc
parse_table-Parsed broken s e h = cc
parse_table-Parsed (next header rest) s {groups} {s'} e h =
    let Q = λ (gs : List ProductImportGroup) (s₁ : Session). IsRead header (numbered 2 rest) gs in
    let empty : IsRead header [] [] = record { fields = tt; variants = tt; skus = λ k. refl } in
    (
      header,
      rest,
      refl,
      Ensures-ok Q _
          (Ensures-raise_if Q _ _ _ s λ _.
            Ensures-weaken Q _ _ (parse_rows-IsRead header 2 rest [] [] s empty) λ gs s₁ k. k.1)
          e,
      subst (λ n. IsGrouped n groups) (sym (numbered-length 2 rest)) h,
    )

-- Parsing that returns leaves the session alone, and the file has a header. Numbered from 2, each row
-- behind it that has a cell is read into exactly one variant of one group: a group has, in order, one
-- variant for every row with its SKU, with the row's number, size, colour and prices and with its variant
-- SKU or, where that is blank, its SKU; the other fields of the group are those of the first such row.
-- The SKUs of the groups are those of the rows, no two groups share one, every group has a variant, and
-- there are as many variants as rows.
pub parse_products_csv-Parsed :
    (csv_text : Text) (s : Session) {groups : List ProductImportGroup} {s' : Session}
    → parse_products_csv csv_text s ≡ (ok groups, s')
    → (s' ≡ s) × Parsed (read_rows csv_text) groups
parse_products_csv-Parsed csv_text s e =
    let h = parse_products_csv-IsGrouped csv_text s e in
    (h.0, parse_table-Parsed (read_rows csv_text) s e h.1)
