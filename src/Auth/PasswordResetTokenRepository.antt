-- ===== src/Auth/PasswordResetTokenRepository.antt =====
-- `PasswordResetTokenRepository` of backend/app/modules/auth/repository.py.
use retail_os.Core.Exceptions.{integrity_error}
use retail_os.Prelude.Rows.{any, select_one, update_where}
use retail_os.Core.Time.{DateTime}
use retail_os.Auth.Models.{PasswordResetToken}
use retail_os.Core.Session.{raise_if, gets, modify_db, ◌>>◌, M, ◌>>=◌}
use retail_os.Prelude.{[], ◌∷◌, ◌++◌, some, ◌==◌, Option, str_eq, Bool, String}

abbrev pub has_hash : String → PasswordResetToken → Bool
has_hash token_hash t = str_eq t.token_hash token_hash

unfoldable pub get_by_token_hash : String → M (Option PasswordResetToken)
get_by_token_hash token_hash = gets λ s. select_one (has_hash token_hash) s.db.password_reset_tokens

unfoldable pub create : PasswordResetToken → M (Unit {0})
unfolding ◌>>=◌
create token = do
  raise_if (← gets λ s. any (has_hash token.token_hash) s.db.password_reset_tokens) integrity_error
  modify_db λ db. record db { password_reset_tokens = db.password_reset_tokens ++ token ∷ [] }

unfoldable pub mark_used : PasswordResetToken → DateTime → M (Unit {0})
mark_used token at = modify_db λ db. record db {
  password_reset_tokens =
      update_where (λ t. t.id == token.id) (λ t. record t { used_at = some at })
        db.password_reset_tokens;
}
