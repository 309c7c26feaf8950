-- ===== src/Inventory/Cursors.antt =====
-- The cursors of backend/app/modules/inventory/repository.py, `encode_cursor` and `decode_cursor`.
-- A text is the list of its characters. All of a cursor's are ASCII, so that `encode` and `decode`
-- between texts and bytes are left out.
use Prim.Native.Char.{Char, char}
use retail_os.Prelude.{refl, if◌then◌else◌, ℕ, false, Option, none, some, [], ◌∷◌, ◌++◌, ◌≡◌}
use retail_os.Prelude.Rows.{All}
use retail_os.Core.Time.{DateTime}
use retail_os.Csv.Wire.{Text, is}

abbrev pub bar : Char
bar = char 124 tt

-- Of the modules datetime, uuid and base64; `none` where they raise a ValueError.
pub record Codecs : Type 0 where
  pub isoformat : DateTime → Text
  pub fromisoformat : Text → Option DateTime
  pub str_uuid : ℕ → Text
  pub parse_uuid : Text → Option ℕ
  pub urlsafe_b64encode : Text → Text
  pub urlsafe_b64decode : Text → Option Text

-- What the three modules document: each pair undoes itself, and no instant is written with a bar.
abbrev pub IsCodec : Codecs → Type 0
IsCodec libs =
    ((t : DateTime) → libs.fromisoformat (libs.isoformat t) ≡ some t)
    × ((n : ℕ) → libs.parse_uuid (libs.str_uuid n) ≡ some n)
    × ((raw : Text) → libs.urlsafe_b64decode (libs.urlsafe_b64encode raw) ≡ some raw)
    × ((t : DateTime) → All (λ c. is c bar ≡ false) (libs.isoformat t))

abbrev before : Char → Option (Text × Text) → Option (Text × Text)
before c none = none
before c (some (a, b)) = some (c ∷ a, b)

-- `a, b = raw.split("|", 1)`
unfoldable pub split_once : Text → Option (Text × Text)
split_once [] = none
split_once (c ∷ cs) = let rest = split_once cs in if is c bar then some ([], cs) else before c rest

-- the first ValueError ends the function
infixl 5 ◌>>=◌
abbrev ◌>>=◌ : {A B : Type 0} → Option A → (A → Option B) → Option B
none >>= k = none
some a >>= k = k a

module _ (libs : Codecs) where
  unfoldable pub encode_cursor : DateTime → ℕ → Text
  encode_cursor created_at transaction_id =
      libs.urlsafe_b64encode (libs.isoformat created_at ++ bar ∷ libs.str_uuid transaction_id)

  unfoldable pub decode_cursor : Text → Option (DateTime × ℕ)
  unfolding split_once
  decode_cursor cursor = do
    raw ← libs.urlsafe_b64decode cursor
    (created_at_raw, id_raw) ← split_once raw
    created_at ← libs.fromisoformat created_at_raw
    transaction_id ← libs.parse_uuid id_raw
    some (created_at, transaction_id)

split_once-append :
    (a b : Text) → All (λ c. is c bar ≡ false) a → split_once (a ++ bar ∷ b) ≡ some (a, b)
unfolding split_once
split_once-append [] b h = refl
split_once-append (c ∷ cs) b h = rw (h.0, split_once-append cs b h.1) refl

-- A cursor is decoded to the instant and the id that were encoded, whatever they are.
pub decode-encode_cursor :
    (libs : Codecs)
    → IsCodec libs
    → (created_at : DateTime) (id : ℕ)
    → decode_cursor libs (encode_cursor libs created_at id) ≡ some (created_at, id)
unfolding decode_cursor encode_cursor
decode-encode_cursor libs codec created_at id =
    rw
      (
        codec.2 (libs.isoformat created_at ++ bar ∷ libs.str_uuid id),
        split_once-append (libs.isoformat created_at) (libs.str_uuid id) (codec.3 created_at),
        codec.0 created_at,
        codec.1 id,
      )
      refl
