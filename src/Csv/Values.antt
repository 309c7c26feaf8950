-- ===== src/Csv/Values.antt =====
-- The cells of backend/app/modules/products_catalog/csv_io.py: `_clean` and `_parse_bool`.
use Prim.Native.Char.{code}
use retail_os.Prelude.{
  ℕ, ◌+◌, String, Bool, true, false, ◌&&◌, ◌||◌, Option, none, some, List, [], ◌∷◌, map, ◌==◌, leb,
  if◌then◌else◌,
}
use retail_os.Prelude.Rows.{any}
use retail_os.Csv.Wire.{Text}

abbrev pub chars : String → Text
chars String.[] = []
chars (String.◌∷◌ c s) = c ∷ chars s

abbrev pub text_of : Text → String
text_of [] = String.[]
text_of (c ∷ cs) = String.◌∷◌ c (text_of cs)

abbrev pub is_empty : Text → Bool
is_empty [] = true
is_empty _ = false

-- `str.isspace` for one character
unfoldable pub is_space : ℕ → Bool
is_space n =
    (leb 9 n && leb n 13)
    || (leb 28 n && leb n 32)
    || (leb 8192 n && leb n 8202)
    || any (λ m. m == n) (133 ∷ 160 ∷ 5760 ∷ 8232 ∷ 8233 ∷ 8239 ∷ 8287 ∷ 12288 ∷ [])

unfoldable pub strip_start : Text → Text
unfolding is_space
strip_start [] = []
strip_start (c ∷ cs) = let rest = strip_start cs in if is_space (code c) then rest else c ∷ cs

unfoldable pub strip_end : Text → Text
unfolding is_space
strip_end [] = []
strip_end (c ∷ cs) =
    let rest = strip_end cs in if is_empty rest && is_space (code c) then [] else c ∷ rest

-- `str.strip()`
abbrev pub strip : Text → Text
strip t = strip_end (strip_start t)

-- `_clean`
abbrev pub clean : Option Text → Text
clean none = []
clean (some value) = strip value

abbrev pub same : List ℕ → List ℕ → Bool
same [] [] = true
same (a ∷ xs) (b ∷ ys) = a == b && same xs ys
same _ _ = false

abbrev pub codes : String → List ℕ
codes s = map code (chars s)

-- `str.lower()`, up to the characters that are compared: beside the capitals of ASCII, only the
-- Kelvin sign becomes a letter of ASCII.
abbrev pub lower : ℕ → ℕ
lower n = if leb 65 n && leb n 90 then n + 32 else if n == 8490 then 107 else n

abbrev pub is_word : Text → String → Bool
is_word value word = same (map (λ c. lower (code c)) value) (codes word)

-- `_parse_bool`
unfoldable pub parse_bool : Option Text → Bool → Bool
unfolding strip_start strip_end
parse_bool value default =
    let cleaned = clean value in
    if is_empty cleaned then default else any (is_word cleaned) ("true" ∷ "1" ∷ "yes" ∷ "y" ∷ [])
