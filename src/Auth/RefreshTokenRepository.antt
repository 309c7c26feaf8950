-- ===== src/Auth/RefreshTokenRepository.antt =====
-- `RefreshTokenRepository` of backend/app/modules/auth/repository.py: a row is a device session.
use retail_os.Core.Exceptions.{integrity_error}
use retail_os.Prelude.Rows.{select_all, any, order_by, select_one, update_where}
use retail_os.Core.Time.{DateTime}
use retail_os.Auth.Models.{RefreshToken}
use retail_os.Core.Session.{raise_if, gets, modify_db, ◌>>◌, M, ◌>>=◌}
use retail_os.Prelude.{
  [], ◌∷◌, ◌++◌, leb, is_none, ◌&&◌, some, List, ◌==◌, Option, str_eq, Bool, ℕ, String,
}

abbrev pub has_hash : String → RefreshToken → Bool
has_hash token_hash t = str_eq t.token_hash token_hash

unfoldable pub get_by_token_hash : String → M (Option RefreshToken)
get_by_token_hash token_hash = gets λ s. select_one (has_hash token_hash) s.db.refresh_tokens

abbrev pub is_active_of : ℕ → RefreshToken → Bool
is_active_of user_id t = t.user_id == user_id && is_none t.revoked_at

-- newest first
unfoldable pub list_active_for_user : ℕ → M (List RefreshToken)
list_active_for_user user_id = gets λ s.
    order_by (λ x y. leb y.issued_at x.issued_at)
      (select_all (is_active_of user_id) s.db.refresh_tokens)

-- The row's id is drawn by the column's default, and `issued_at` is the database's `now()`. The
-- hash is unique.
unfoldable pub create : RefreshToken → M (Unit {0})
unfolding ◌>>=◌
create token = do
  raise_if (← gets λ s. any (has_hash token.token_hash) s.db.refresh_tokens) integrity_error
  modify_db λ db. record db { refresh_tokens = db.refresh_tokens ++ token ∷ [] }

abbrev pub write_tokens : (RefreshToken → Bool) → (RefreshToken → RefreshToken) → M (Unit {0})
write_tokens p change =
    modify_db λ db. record db { refresh_tokens = update_where p change db.refresh_tokens }

unfoldable pub revoke : RefreshToken → DateTime → M (Unit {0})
revoke token at = write_tokens (λ t. t.id == token.id) λ t. record t { revoked_at = some at }

-- The loop writes every active token of the user.
unfoldable pub revoke_all_for_user : ℕ → DateTime → M (Unit {0})
revoke_all_for_user user_id at =
    write_tokens (is_active_of user_id) λ t. record t { revoked_at = some at }

-- `token.replaced_by_token_id = id`
unfoldable pub replace : RefreshToken → ℕ → M (Unit {0})
replace token id =
    write_tokens (λ t. t.id == token.id) λ t. record t { replaced_by_token_id = some id }
