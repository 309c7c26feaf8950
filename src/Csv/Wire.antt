-- ===== src/Csv/Wire.antt =====
-- What backend/app/modules/products_catalog/csv_io.py uses of Python's module csv, in its dialect
-- "excel": the rows that `csv.DictWriter` writes, and the state machine of `csv.reader` over the lines
-- of an `io.StringIO`, which end at a line feed only. The limit of 131072 characters for a field is left
-- out.
use Prim.Native.Char.{Char, char, code}
use retail_os.Prelude.{
  Bool, true, false, not, ◌&&◌, ◌||◌, Option, none, some, List, [], ◌∷◌, ◌++◌, ◌==◌, if◌then◌else◌,
}

abbrev pub Text : Type 0
Text = List Char

abbrev pub comma : Char
comma = char 44 tt

abbrev pub quote : Char
quote = char 34 tt

abbrev pub return : Char
return = char 13 tt

abbrev pub newline : Char
newline = char 10 tt

abbrev pub is : Char → Char → Bool
is c d = code c == code d

-- a character for which QUOTE_MINIMAL quotes the field
abbrev pub is_special : Char → Bool
is_special c = is c comma || (is c quote || (is c return || is c newline))

unfoldable pub needs_quotes : Text → Bool
needs_quotes [] = false
needs_quotes (c ∷ cs) = is_special c || needs_quotes cs

-- a quote inside a quoted field is doubled
unfoldable pub doubled : Text → Text
doubled [] = []
doubled (c ∷ cs) = let rest = doubled cs in if is c quote then quote ∷ quote ∷ rest else c ∷ rest

unfoldable pub write_field : Text → Text
write_field f = if needs_quotes f then quote ∷ doubled f ++ quote ∷ [] else f

-- A row of two fields or more; csv quotes a row's only field when it is empty.
unfoldable pub write_row : List Text → Text
write_row [] = return ∷ newline ∷ []
write_row (f ∷ []) = write_field f ++ return ∷ newline ∷ []
write_row (f ∷ g ∷ fs) = write_field f ++ comma ∷ write_row (g ∷ fs)

unfoldable pub write_rows : List (List Text) → Text
write_rows [] = []
write_rows (r ∷ rs) = write_row r ++ write_rows rs

pub data Mode : Type 0 where
  start_record start_field in_field in_quoted_field quote_in_quoted_field eat_crnl : Mode

pub record Reader : Type 0 where
  pub mode : Mode
  pub field : Text
  pub fields : List Text

abbrev pub fresh : Reader
fresh = record { mode = start_record; field = []; fields = [] }

abbrev save : Mode → Reader → Reader
save m p = record { mode = m; field = []; fields = p.fields ++ p.field ∷ [] }

abbrev add : Mode → Char → Reader → Reader
add m c p = record p { mode = m; field = p.field ++ c ∷ [] }

abbrev is_break : Char → Bool
is_break c = is c return || is c newline

abbrev begin_field : Char → Reader → Reader
begin_field c p =
    if is_break c
    then save eat_crnl p
    else if is c quote
    then record p { mode = in_quoted_field }
    else if is c comma
    then save start_field p
    else add in_field c p

-- one character; `none` is csv.Error
unfoldable pub step : Mode → Char → Reader → Option Reader
step start_record c p =
    if is_break c then some (record p { mode = eat_crnl }) else some (begin_field c p)
step start_field c p = some (begin_field c p)
step in_field c p = some (
    if is_break c
    then save eat_crnl p
    else if is c comma
    then save start_field p
    else add in_field c p)
step in_quoted_field c p =
    some (if is c quote then record p { mode = quote_in_quoted_field } else add in_quoted_field c p)
step quote_in_quoted_field c p = some (
    if is c quote
    then add in_quoted_field c p
    else if is c comma
    then save start_field p
    else if is_break c
    then save eat_crnl p
    else add in_field c p)
step eat_crnl c p = if is_break c then some p else none

-- the end of a line
unfoldable pub end_line : Mode → Reader → Reader
end_line start_record p = p
end_line in_quoted_field p = p
end_line eat_crnl p = record p { mode = start_record }
end_line _ p = save start_record p

abbrev pub is_done : Mode → Bool
is_done start_record = true
is_done _ = false

-- The rows, one after the other, up to the end of the text or a csv.Error.
pub data Rows : Type 0 where
  done broken : Rows
  next : List Text → Rows → Rows

-- the end of the text; a quoted field that is still open is closed
abbrev at_end : Bool → Reader → Rows
at_end started p = elim p.mode [
  | start_record ↦ if started then next p.fields done else done
  | _ ↦ next (save start_record p).fields done
]

-- `started` tells that the line has a character.
unfoldable pub read : Reader → Bool → Text → Rows
unfolding step end_line
read p started [] = at_end started (if started then end_line p.mode p else p)
read p started (c ∷ cs) = elim (step p.mode c p) [
  | none ↦ broken
  | some p ↦
      let ends = is c newline in
      let q = if ends then end_line p.mode p else p in
      let whole = ends && is_done q.mode in
      let rest = read (if whole then fresh else q) (not ends) cs in
      if whole then next q.fields rest else rest
]

unfoldable pub read_rows : Text → Rows
unfolding read
read_rows text = read fresh false text
