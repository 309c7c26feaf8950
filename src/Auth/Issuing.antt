-- ===== src/Auth/Issuing.antt =====
-- What `_issue_token_pair` of backend/app/modules/auth/service.py leaves behind: one new device
-- session.
use retail_os.Core.Ensures.{Ensures-move, Ensures-run, Ensures}
use retail_os.Auth.RefreshTokenRepository.{has_hash}
use retail_os.Prelude.Rows.{any}
use retail_os.Users.Models.{User}
use retail_os.Core.Config.{Settings}
use retail_os.Auth.Models.{RefreshToken}
use retail_os.Auth.Schemas.{RequestContext, TokenResponse}
use retail_os.Core.Session.{pure, ◌>>◌, Session}
use retail_os.Prelude.{
  some, ◌+◌, refl, arith, inr, none, inl, ◌≤◌, Bool-cases, false, String, Bool, [], Option, ◌∷◌,
  ◌++◌, ◌≡◌, ℕ,
}
use retail_os.Auth.AuthService.{new_token, issue_token_pair}
use retail_os.Core.Security.{create_refresh_token-ok, create_access_token-ok, hash_token, Libraries}
use retail_os.Auth.RefreshTokenRepository

pub record Issued (libs : Libraries) (user_id : ℕ) (s : Session) (tokens : TokenResponse)
    (s' : Session) : Type 0 where
  pub row : RefreshToken
  pub written : s'.db ≡ record (s.db) { refresh_tokens = s.db.refresh_tokens ++ row ∷ [] }
  pub hashed : row.token_hash ≡ hash_token libs tokens.refresh_token
  pub unused : any (has_hash row.token_hash) s.db.refresh_tokens ≡ false
  pub fresh : s.next_id ≤ row.id
  pub owner : row.user_id ≡ user_id
  pub active : row.revoked_at ≡ none
  pub later : s.now ≤ row.expires_at
  pub saved : s'.saved ≡ s.saved
  pub instant : s'.now ≡ s.now

create-appends :
    (token : RefreshToken) (s : Session)
    → Ensures
        (λ _ s'.
          (s' ≡ record s {
            db = record (s.db) { refresh_tokens = s.db.refresh_tokens ++ token ∷ [] };
          })
          × (any (has_hash token.token_hash) s.db.refresh_tokens ≡ false))
        (RefreshTokenRepository.create token s)
unfolding RefreshTokenRepository.create
create-appends token s = elim (Bool-cases (any (has_hash token.token_hash) s.db.refresh_tokens)) [
  | inl e ↦ rw e tt
  | inr e ↦ rw e (refl, refl)
]

-- the last step, from the two tokens
new_token-Issued :
    (libs : Libraries) (user : User) (access_token raw : String) (s : Session)
    (request : RequestContext) (device_id device_name : Option String) (lifetime : ℕ)
    → let token =
        new_token
          (s.next_id + 1 + 1)
          user.id
          (hash_token libs raw)
          s.now
          (s.now + lifetime)
          request
          device_id
          device_name in
      Ensures (Issued libs user.id s) (
        (RefreshTokenRepository.create token
            >> pure (record { access_token = access_token; refresh_token = raw }))
          (record s { next_id = s.next_id + 1 + 1 + 1 }))
new_token-Issued libs user access_token raw s request device_id device_name lifetime =
    let token =
      new_token (s.next_id + 1 + 1) user.id (hash_token libs raw) s.now (s.now + lifetime) request
        device_id device_name in
    let s₃ : Session = record s { next_id = s.next_id + 1 + 1 + 1 } in
    Ensures-move (Issued libs user.id s)
      (λ _. any (has_hash token.token_hash) s.db.refresh_tokens ≡ false)
      (record s₃ { db = record (s.db) { refresh_tokens = s.db.refresh_tokens ++ token ∷ [] } }) _ _
      s₃ (create-appends token s₃)
      λ _ unused. record {
        row = token;
        written = refl;
        hashed = refl;
        unused = unused;
        fresh = ground arith;
        owner = refl;
        active = refl;
        later = ground arith;
        saved = refl;
        instant = refl;
      }

pub issue_token_pair-Issued :
    (libs : Libraries) (settings : Settings) (user : User) (branch_id : Option ℕ)
    (remember_me : Bool) (request : RequestContext) (device_id device_name : Option String)
    (s : Session)
    → Ensures
        (Issued libs user.id s)
        (issue_token_pair libs settings user branch_id remember_me request device_id device_name s)
unfolding issue_token_pair
issue_token_pair-Issued libs settings user branch_id remember_me request device_id device_name s =
    let Q = Issued libs user.id s in
    let s₁ : Session = record s { next_id = s.next_id + 1 } in
    let s₂ : Session = record s { next_id = s.next_id + 1 + 1 } in
    let s₃ : Session = record s { next_id = s.next_id + 1 + 1 + 1 } in
    Ensures-run Q _ _ s _ s₁
      (create_access_token-ok libs settings user.id (some user.company_id) branch_id s)
      (Ensures-run Q _ _ s₁ _ s₂
        (create_refresh_token-ok libs settings user.id (some user.company_id) branch_id _ s₁)
        (Ensures-run Q _ _ s₂ s.now s₂ refl (
          Ensures-run Q _ _ s₂ (s.next_id + 1 + 1) s₃ refl
            (new_token-Issued libs user _ _ s request device_id device_name _))))
