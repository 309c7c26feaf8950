-- ===== src/Csv/Numbers.antt =====
-- The numbers that `Decimal` and `int` read from the cells of
-- backend/app/modules/products_catalog/csv_io.py, and the texts that `str` makes of them. Digits outside
-- ASCII are left out.
use Prim.Native.Char.{Char, char, code}
use Prim.Native.Nat.{◌/◌, ◌%◌}
use retail_os.Prelude.{
  ℕ, zero, suc, ◌+◌, ◌-◌, ◌*◌, ◌^◌, Bool, true, false, not, ◌&&◌, ◌||◌, Option, none, some, List,
  [], ◌∷◌, ◌++◌, map, ◌==◌, ltb, leb, if◌then◌else◌,
}
use retail_os.Prelude.Int.{ℤ, pos, negsuc, neg, pos_part, neg_part}
use retail_os.Prelude.Rows.{length}
use retail_os.Core.Decimal.{Decimal}
use retail_os.Csv.Wire.{Text}
use retail_os.Csv.Values.{codes, same, lower}

abbrev is_digit : ℕ → Bool
is_digit n = leb 48 n && leb n 57

-- the digits in front, as their values, and what follows
unfoldable pub take_digits : List ℕ → List ℕ × List ℕ
take_digits [] = ([], [])
take_digits (n ∷ ns) =
    let (ds, rest) = take_digits ns in if is_digit n then ((n - 48) ∷ ds, rest) else ([], n ∷ ns)

abbrev number_from : ℕ → List ℕ → ℕ
number_from acc [] = acc
number_from acc (d ∷ ds) = number_from (acc * 10 + d) ds

abbrev signed : (List ℕ → Option ℤ) → List ℕ → Option ℤ
signed f [] = f []
signed f (n ∷ ns) =
    if n == 45
    then elim (f ns) [ none ↦ none | some z ↦ some (neg z) ]
    else if n == 43
    then f ns
    else f (n ∷ ns)

-- What `Decimal` makes of a text: a finite number, or an infinity or a NaN.
pub data Number : Type 0 where
  finite : Decimal → Number
  special : Number

abbrev nothing_left : List ℕ → Bool
nothing_left [] = true
nothing_left _ = false

abbrev digits_only : List ℕ → Option ℤ
digits_only ns =
    let (ds, rest) = take_digits ns in
    if nothing_left rest && not (nothing_left ds) then some (pos (number_from 0 ds)) else none

-- the exponent behind the digits
abbrev exponent : List ℕ → Option ℤ
exponent [] = some (pos 0)
exponent (n ∷ ns) = if lower n == 101 then signed digits_only ns else none

abbrev fraction : List ℕ → List ℕ × List ℕ
fraction [] = ([], [])
fraction (n ∷ ns) = if n == 46 then take_digits ns else ([], n ∷ ns)

-- `digits` * 10 ^ (`e` - `places`)
abbrev scaled : ℕ → ℕ → ℤ → Decimal
scaled digits places e =
    let down = places + neg_part e in
    record { unscaled = pos (digits * 10 ^ (pos_part e - down)); scale = down - pos_part e }

abbrev is_nan : List ℕ → Bool
is_nan (a ∷ b ∷ c ∷ ns) =
    let (ds, rest) = take_digits ns in a == 110 && (b == 97 && (c == 110 && nothing_left rest))
is_nan _ = false

abbrev is_special_number : List ℕ → Bool
is_special_number ns =
    same ns (codes "inf")
    || same ns (codes "infinity")
    || is_nan ns
    || elim ns [ [] ↦ false | n ∷ rest ↦ n == 115 && is_nan rest ]

unfoldable pub unsigned_number : List ℕ → Option Number
unfolding take_digits
unsigned_number ns =
    let (whole, r) = take_digits ns in
    let (places, r') = fraction r in
    if nothing_left whole && nothing_left places
    then (if is_special_number (map lower ns) then some special else none)
    else elim (exponent r') [
      | none ↦ none
      | some e ↦ some (finite (scaled (number_from 0 (whole ++ places)) (length places) e))
    ]

abbrev negated : Number → Number
negated (finite d) = finite (record { unscaled = neg d.unscaled; scale = d.scale })
negated special = special

abbrev no_underscores : List ℕ → List ℕ
no_underscores [] = []
no_underscores (n ∷ ns) = if n == 95 then no_underscores ns else n ∷ no_underscores ns

-- `Decimal(value)`, where `none` is InvalidOperation
unfoldable pub decimal_of : Text → Option Number
unfolding unsigned_number neg
decimal_of value = elim (no_underscores (map code value)) [
  | [] ↦ none
  | n ∷ ns ↦
      if n == 45
      then elim (unsigned_number ns) [ none ↦ none | some x ↦ some (negated x) ]
      else if n == 43
      then unsigned_number ns
      else unsigned_number (n ∷ ns)
]

-- the digits of an integer, with single underscores between them; `after` tells that a digit is in front
abbrev int_digits : Bool → List ℕ → Option (List ℕ)
int_digits after [] = if after then some [] else none
int_digits after (n ∷ ns) =
    if is_digit n
    then elim (int_digits true ns) [ none ↦ none | some ds ↦ some ((n - 48) ∷ ds) ]
    else if n == 95 && after
    then int_digits false ns
    else none

-- `int(value)`, where `none` is ValueError
unfoldable pub int_of : Text → Option ℤ
unfolding neg
int_of value =
    signed
      (λ ns. elim (int_digits false ns) [ none ↦ none | some ds ↦ some (pos (number_from 0 ds)) ])
      (map code value)

abbrev digit : ℕ → Char
digit n = elim (ltb n 5) [
  | true ↦
      if n == 0
      then char 48 tt
      else if n == 1
      then char 49 tt
      else if n == 2
      then char 50 tt
      else if n == 3
      then char 51 tt
      else char 52 tt
  | false ↦
      if n == 5
      then char 53 tt
      else if n == 6
      then char 54 tt
      else if n == 7
      then char 55 tt
      else if n == 8
      then char 56 tt
      else char 57 tt
]

-- the digits of a number; as much fuel as the number is enough
unfoldable pub str_digits : ℕ → ℕ → Text
str_digits zero n = digit n ∷ []
str_digits (suc fuel) n = elim (ltb n 10) [
  | true ↦ digit n ∷ []
  | false ↦ str_digits fuel (n / 10) ++ digit (n % 10) ∷ []
]

abbrev minus : ℤ → Text
minus (pos _) = []
minus (negsuc _) = char 45 tt ∷ []

abbrev magnitude : ℤ → ℕ
magnitude z = pos_part z + neg_part z

-- `str` of an int
abbrev pub str_int : ℤ → Text
str_int z = minus z ++ str_digits (magnitude z) (magnitude z)

-- the digits behind the point, as many as the scale
abbrev places_of : ℕ → ℕ → Text
places_of zero n = []
places_of (suc scale) n = places_of scale (n / 10) ++ digit (n % 10) ∷ []

-- `str` of a Decimal of scale 6 at most, for which Python writes no exponent
abbrev pub str_decimal : Decimal → Text
str_decimal d =
    let n = magnitude d.unscaled in
    let whole = n / 10 ^ d.scale in
    minus d.unscaled
    ++ str_digits whole whole
    ++ (if d.scale == 0 then [] else char 46 tt ∷ places_of d.scale n)
