-- ===== src/Core/Security.antt =====
-- backend/app/core/security.py, over the libraries that it calls: PyJWT, argon2 and hashlib are
-- parameters.
use retail_os.Core.Exceptions.{invalid_token}
use Prim.Native.Nat.{◌/◌}
use retail_os.Core.Session.{ok, Session, raise_if, ◌>>=◌, ◌>>◌}
use retail_os.Core.Config.{Settings}
use retail_os.Core.Session.{or_raise, pure, gets, uuid4, M, ◌>>=◌}
use retail_os.Core.Time.{minutes, DateTime}
use retail_os.Prelude.{refl, ◌≡◌, not, ◌+◌, false, Option, true, String, ℕ, Bool}

pub data TokenType : Type 0 where
  access refresh : TokenType

abbrev pub is_type : TokenType → TokenType → Bool
is_type access access = true
is_type refresh refresh = true
is_type _ _ = false

-- The claims of a token. `str(uuid)` and `UUID(text)` undo each other, so that ids stand for their
-- texts; `iat` and `exp` are whole seconds, as they are encoded.
pub record TokenPayload : Type 0 where
  pub sub : ℕ
  pub company_id : Option ℕ
  pub branch_id : Option ℕ
  pub token_type : TokenType
  pub jti : ℕ
  pub iat : ℕ
  pub exp : ℕ

-- `jwt_decode` is given the instant of the call, against which PyJWT checks `exp`, and is `none`
-- where it raises. `argon2_hash` is given the salt that it draws, and `token_urlsafe` its random
-- bytes.
pub record Libraries : Type 0 where
  pub jwt_encode : TokenPayload → String → String → String
  pub jwt_decode : DateTime → String → String → String → Option TokenPayload
  pub argon2_hash : ℕ → String → String
  pub argon2_verify : String → String → Bool
  pub sha256 : String → String
  pub token_urlsafe : ℕ → String

-- `int(at.timestamp())`
abbrev pub timestamp : DateTime → ℕ
timestamp at = at / 1000000

module _ (libs : Libraries) where
  unfoldable pub hash_password : String → M String
  unfolding ◌>>=◌
  hash_password plain_password = do salt ← uuid4; pure (libs.argon2_hash salt plain_password)

  abbrev pub verify_password : String → String → Bool
  verify_password plain_password hashed_password = libs.argon2_verify hashed_password plain_password

  -- `hash_token` of auth/repository.py
  abbrev pub hash_token : String → String
  hash_token raw_token = libs.sha256 raw_token

module _ (libs : Libraries) (settings : Settings) where
  abbrev pub payload_of : ℕ → TokenType → ℕ → Option ℕ → Option ℕ → ℕ → DateTime → TokenPayload
  payload_of subject token_type expires_delta company_id branch_id jti now = record {
    sub = subject;
    company_id = company_id;
    branch_id = branch_id;
    token_type = token_type;
    jti = jti;
    iat = timestamp now;
    exp = timestamp (now + expires_delta);
  }

  -- `_create_token`
  unfoldable pub create_token : ℕ → TokenType → ℕ → Option ℕ → Option ℕ → M String
  unfolding ◌>>=◌
  create_token subject token_type expires_delta company_id branch_id = do
    now ← gets (λ s. s.now)
    jti ← uuid4
    pure (
        libs.jwt_encode (payload_of subject token_type expires_delta company_id branch_id jti now)
          settings.jwt_secret_key settings.jwt_algorithm)

  unfoldable pub create_access_token : ℕ → Option ℕ → Option ℕ → M String
  create_access_token subject company_id branch_id =
      create_token subject access (minutes settings.access_token_expire_minutes) company_id
        branch_id

  -- The service always passes `expires_delta`.
  unfoldable pub create_refresh_token : ℕ → Option ℕ → Option ℕ → ℕ → M String
  create_refresh_token subject company_id branch_id expires_delta =
      create_token subject refresh expires_delta company_id branch_id

  unfoldable pub decode_token : String → TokenType → M TokenPayload
  unfolding ◌>>=◌
  decode_token token expected_type = do
    now ← gets (λ s. s.now)
    payload ←
        or_raise (libs.jwt_decode now token settings.jwt_secret_key settings.jwt_algorithm)
          invalid_token
    raise_if (not (is_type payload.token_type expected_type)) invalid_token
    pure payload

  -- The two kinds of token are always issued.
  pub create_access_token-ok :
      (subject : ℕ) (company_id branch_id : Option ℕ) (s : Session)
      → create_access_token subject company_id branch_id s ≡ (
        ok (
            libs.jwt_encode
              (payload_of subject access
                (minutes settings.access_token_expire_minutes)
                company_id
                branch_id
                s.next_id
                s.now)
              settings.jwt_secret_key
              settings.jwt_algorithm),
        record s { next_id = s.next_id + 1 },
      )
  unfolding create_access_token create_token
  create_access_token-ok subject company_id branch_id s = refl

  pub create_refresh_token-ok :
      (subject : ℕ) (company_id branch_id : Option ℕ) (lifetime : ℕ) (s : Session)
      → create_refresh_token subject company_id branch_id lifetime s ≡ (
        ok (
            libs.jwt_encode
              (payload_of subject refresh lifetime company_id branch_id s.next_id s.now)
              settings.jwt_secret_key
              settings.jwt_algorithm),
        record s { next_id = s.next_id + 1 },
      )
  unfolding create_refresh_token create_token
  create_refresh_token-ok subject company_id branch_id lifetime s = refl
