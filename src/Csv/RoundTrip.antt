-- ===== src/Csv/RoundTrip.antt =====
-- Reading back what `csv.DictWriter` wrote, for backend/app/modules/products_catalog/csv_io.py.
use retail_os.Prelude.Rows.{length, All}
use mathlib.Core.List.{append_assoc, append-nil}
use Prim.Native.Char.{Char, code}
use text.Mathlib.TextEquality.{Char-path}
use retail_os.Prelude.{
  ◌≤◌, ==_iff, Bool, true, false, List, [], ◌∷◌, ◌++◌, ◌≡◌, refl, ◌∙◌, arith, if◌then◌else◌,
  Bool-cases, inl, inr, ap, ◌⊎◌, ◌≢◌,
}
use retail_os.Csv.Wire.{
  Text, Mode, start_record, start_field, in_field, in_quoted_field, quote_in_quoted_field, Reader,
  Rows, next, done, read, read_rows, write_field, write_row, write_rows, doubled, needs_quotes,
  comma, quote, return, newline, fresh, is, is_special,
}

abbrev at : Mode → Text → List Text → Reader
at m f fs = record { mode = m; field = f; fields = fs }

-- one character of a field that needs no quotes
read-plain :
    (c : Char) (cs f : Text) (fs : List Text)
    → is_special c ≡ false
    → read (at in_field f fs) true (c ∷ cs) ≡ read (at in_field (f ++ c ∷ []) fs) true cs
unfolding read
read-plain c cs f fs h = ground arith

read-needs_quotes :
    (cs rest f : Text) (fs : List Text)
    → needs_quotes cs ≡ false
    → read (at in_field f fs) true (cs ++ rest) ≡ read (at in_field (f ++ cs) fs) true rest
unfolding needs_quotes
read-needs_quotes [] rest f fs h = rw (append-nil f) refl
read-needs_quotes (c ∷ cs) rest f fs h =
    read-plain c (cs ++ rest) f fs (ground arith)
    ∙ read-needs_quotes cs rest (f ++ c ∷ []) fs (ground arith)
    ∙ rw (append_assoc f (c ∷ []) cs) refl

-- one character inside quotes, and a doubled quote
read-quoted :
    (c : Char) (cs f : Text) (fs : List Text) (b : Bool)
    → is c quote ≡ false
    → read (at in_quoted_field f fs) b (c ∷ cs)
      ≡ read (at in_quoted_field (f ++ c ∷ []) fs) (if is c newline then false else true) cs
unfolding read
read-quoted c cs f fs b h = ground arith

is-≡ : (c d : Char) → is c d ≡ true → c ≡ d
is-≡ c d h = Char-path c d ((==_iff (code c) (code d)).0 h)

not_special :
    (c : Char)
    → is_special c ≡ false
    → (is c comma ≡ false) × (is c quote ≡ false) × (is c return ≡ false) × (is c newline ≡ false)
not_special c h = ground arith

read-doubled :
    (cs rest f : Text) (fs : List Text) (b : Bool)
    → read (at in_quoted_field f fs) b (doubled cs ++ quote ∷ rest)
      ≡ read (at quote_in_quoted_field (f ++ cs) fs) true rest
unfolding doubled read
read-doubled [] rest f fs b = rw (append-nil f) refl
read-doubled (c ∷ cs) rest f fs b = elim (Bool-cases (is c quote)) [
  | inl e ↦
      rw (is-≡ c quote e)
        (read-doubled cs rest (f ++ quote ∷ []) fs true ∙ rw (append_assoc f (quote ∷ []) cs) refl)
  | inr e ↦ rw e (
      read-quoted c (doubled cs ++ quote ∷ rest) f fs b e
      ∙ read-doubled cs rest (f ++ c ∷ []) fs _
      ∙ rw (append_assoc f (c ∷ []) cs) refl)
]

-- the two ways in which a field can end
end-comma :
    (m : Mode) (f rest : Text) (fs : List Text)
    → (m ≡ in_field) ⊎ (m ≡ quote_in_quoted_field)
    → read (at m f fs) true (comma ∷ rest) ≡ read (at start_field [] (fs ++ f ∷ [])) true rest
unfolding read
end-comma m f rest fs (inl e) = rw e refl
end-comma m f rest fs (inr e) = rw e refl

end-return :
    (m : Mode) (f rest : Text) (fs : List Text)
    → (m ≡ in_field) ⊎ (m ≡ quote_in_quoted_field)
    → read (at m f fs) true (return ∷ newline ∷ rest) ≡ next (fs ++ f ∷ []) (read fresh false rest)
unfolding read
end-return m f rest fs (inl e) = rw e refl
end-return m f rest fs (inr e) = rw e refl

-- Where a field begins: at the start of a record, or after a comma.
first-plain :
    (m : Mode) (b : Bool) (c : Char) (cs : Text) (fs : List Text)
    → (m ≡ start_record) ⊎ (m ≡ start_field)
    → is_special c ≡ false
    → read (at m [] fs) b (c ∷ cs) ≡ read (at in_field (c ∷ []) fs) true cs
unfolding read
first-plain m b c cs fs (inl e) h = let (p, q, r, n) = not_special c h in rw e (simp (p, q, r, n))
first-plain m b c cs fs (inr e) h = let (p, q, r, n) = not_special c h in rw e (simp (p, q, r, n))

first-quote :
    (m : Mode) (b : Bool) (cs : Text) (fs : List Text)
    → (m ≡ start_record) ⊎ (m ≡ start_field)
    → read (at m [] fs) b (quote ∷ cs) ≡ read (at in_quoted_field [] fs) true cs
unfolding read
first-quote m b cs fs (inl e) = rw e refl
first-quote m b cs fs (inr e) = rw e refl

-- a field that is not empty, read up to what follows it
read-field :
    (m : Mode) (b : Bool) (f rest : Text) (fs : List Text)
    → (m ≡ start_record) ⊎ (m ≡ start_field)
    → f ≢ []
    → (n : Mode) × ((n ≡ in_field) ⊎ (n ≡ quote_in_quoted_field))
      × (read (at m [] fs) b (write_field f ++ rest) ≡ read (at n f fs) true rest)
unfolding write_field needs_quotes
read-field m b [] rest fs s ne = absurd (ne refl)
read-field m b (c ∷ cs) rest fs s ne = elim (Bool-cases (needs_quotes (c ∷ cs))) [
  | inl e ↦ (
    quote_in_quoted_field,
    inr refl,
    rw e (
        ap (λ t. read (at m [] fs) b (quote ∷ t))
          (append_assoc (doubled (c ∷ cs)) (quote ∷ []) rest)
        ∙ first-quote m b _ fs s
        ∙ read-doubled (c ∷ cs) rest [] fs true),
  )
  | inr e ↦ (
    in_field,
    inl refl,
    rw e (
        first-plain m b c (cs ++ rest) fs s (ground arith)
        ∙ read-needs_quotes cs rest (c ∷ []) fs (ground arith)),
  )
]

field-comma :
    (m : Mode) (b : Bool) (f rest : Text) (fs : List Text)
    → (m ≡ start_record) ⊎ (m ≡ start_field)
    → read (at m [] fs) b (write_field f ++ comma ∷ rest)
      ≡ read (at start_field [] (fs ++ f ∷ [])) true rest
unfolding write_field needs_quotes read
field-comma m b [] rest fs (inl e) = rw e refl
field-comma m b [] rest fs (inr e) = rw e refl
field-comma m b (c ∷ cs) rest fs s =
    let (n, k, e) = read-field m b (c ∷ cs) (comma ∷ rest) fs s cc in
    e ∙ end-comma n (c ∷ cs) rest fs k

field-return :
    (f rest : Text) (fs : List Text)
    → read (at start_field [] fs) true (write_field f ++ return ∷ newline ∷ rest)
      ≡ next (fs ++ f ∷ []) (read fresh false rest)
unfolding write_field needs_quotes read
field-return [] rest fs = refl
field-return (c ∷ cs) rest fs =
    let (n, k, e) =
      read-field start_field true (c ∷ cs) (return ∷ newline ∷ rest) fs (inr refl) cc in
    e ∙ end-return n (c ∷ cs) rest fs k

-- the fields behind the first one
later_fields :
    (g : Text) (gs : List Text) (rest : Text) (fs : List Text)
    → read (at start_field [] fs) true (write_row (g ∷ gs) ++ rest)
      ≡ next (fs ++ g ∷ gs) (read fresh false rest)
unfolding write_row
later_fields g [] rest fs =
    ap (read (at start_field [] fs) true)
      (append_assoc (write_field g) (return ∷ newline ∷ []) rest)
    ∙ field-return g rest fs
later_fields g (h ∷ gs) rest fs =
    ap (read (at start_field [] fs) true)
      (append_assoc (write_field g) (comma ∷ write_row (h ∷ gs)) rest)
    ∙ field-comma start_field true g _ fs (inr refl)
    ∙ later_fields h gs rest (fs ++ g ∷ [])
    ∙ rw (append_assoc fs (g ∷ []) (h ∷ gs)) refl

read-write_row :
    (r : List Text) (rest : Text)
    → 2 ≤ length r
    → read fresh false (write_row r ++ rest) ≡ next r (read fresh false rest)
unfolding write_row
read-write_row [] rest h = absurd (omega (arith, h))
read-write_row (f ∷ []) rest h = absurd (omega (arith, h))
read-write_row (f ∷ g ∷ fs) rest h =
    ap (read fresh false) (append_assoc (write_field f) (comma ∷ write_row (g ∷ fs)) rest)
    ∙ field-comma start_record false f _ [] (inl refl)
    ∙ later_fields g fs rest (f ∷ [])

-- the rows of a table, none of them broken
pub rows_of : List (List Text) → Rows
rows_of [] = done
rows_of (r ∷ rs) = next r (rows_of rs)

-- What the writer of csv.DictWriter makes of rows of two or more cells, whatever characters the cells
-- hold, is read back by csv.reader as the same rows.
pub read_rows-write_rows :
    (rs : List (List Text)) → All (λ r. 2 ≤ length r) rs → read_rows (write_rows rs) ≡ rows_of rs
unfolding read_rows write_rows rows_of read
read_rows-write_rows [] h = refl
read_rows-write_rows (r ∷ rs) h =
    read-write_row r (write_rows rs) h.0 ∙ ap (next r) (read_rows-write_rows rs h.1)
