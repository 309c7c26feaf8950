-- ===== src/Prelude/Fields.antt =====
-- The fields of a pydantic schema under `model_dump(exclude_unset=True)`: a field that the request
-- leaves out is `none`, and `some none` is an explicit null.
use mathlib.Core.Bool.{Bool, true, false}
use mathlib.Core.Option.{Option, none, some}

module _ {A : Type 0} where
  -- a nullable column after the update
  abbrev pub set : Option (Option A) → Option A → Option A
  set none old = old
  set (some new) old = new

  -- a column that is NOT NULL; a null is refused before
  abbrev pub set_required : Option (Option A) → A → A
  set_required (some (some new)) old = new
  set_required _ old = old

  -- the request sets the field to null
  abbrev pub is_null : Option (Option A) → Bool
  is_null (some none) = true
  is_null _ = false

  abbrev pub is_set : Option (Option A) → Bool
  is_set none = false
  is_set (some _) = true

  -- the value that the request gives, unless it is null
  abbrev pub given : Option (Option A) → Option A
  given none = none
  given (some new) = new
