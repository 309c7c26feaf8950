-- ===== src/Auth/Rotation.antt =====
-- `refresh` of backend/app/modules/auth/service.py: the presented token is retired, and a new one takes
-- its place.
use retail_os.Core.Returns.{run_to}
use retail_os.Auth.Issuing.{issue_token_pair-Issued, Issued}
use retail_os.Prelude.{sym, subst, str_eq_self}
use retail_os.Auth.RefreshTokenRepository.{has_hash}
use retail_os.Users.Models.{User}
use retail_os.Prelude.Rows.{
  All-select_one, select_one-appended, All, any, select_one-update_where, select_one-append,
  select_one, update_where,
}
use retail_os.Core.Ensures.{
  Ensures-ok, Ensures-bind, Ensures-raise_if, Ensures-or_raise, Ensures-run, Ensures-read, Ensures,
}
use retail_os.Auth.Schemas.{RequestContext, TokenResponse}
use retail_os.Core.Time.{DateTime}
use retail_os.Core.Session.{pure, ◌>>◌, ok, when, Session}
use retail_os.Core.Config.{Settings}
use retail_os.Prelude.{
  ◌<◌, str_eq, ap, refl, inr, ==_self, inl, [], Option-cases, ◌∷◌, is_none, true, ◌++◌, not, ◌≤◌,
  false, some, ◌==◌, none, arith, ◌≡◌, List, String,
}
use retail_os.Auth.Models.{RefreshToken}
use retail_os.Auth.AuthService.{refresh, link_replacement, reject_reuse}
use retail_os.Core.Security.{hash_token, TokenType, decode_token, Libraries}
use retail_os.Auth.RefreshTokenRepository
use retail_os.Users.UserRepository

-- What a refresh that returned `tokens` has done with the token that was presented as `raw`: it was
-- neither revoked nor expired, and its user is active; its row is revoked now and names the row of
-- the new token, which belongs to the same user and is not revoked.
pub record Rotated (libs : Libraries) (raw : String) (s : Session) (tokens : TokenResponse)
    (s' : Session) : Type 0 where
  pub token : RefreshToken
  pub user : User
  pub row : RefreshToken
  pub found : select_one (has_hash (hash_token libs raw)) s.db.refresh_tokens ≡ some token
  pub unrevoked : token.revoked_at ≡ none
  pub unexpired : s.now ≤ token.expires_at
  pub user_found : select_one (UserRepository.is_live token.user_id) s.db.users ≡ some user
  pub user_active : user.is_active ≡ true
  pub retired :
      select_one (has_hash (hash_token libs raw)) s'.db.refresh_tokens
      ≡ some (record token { revoked_at = some s.now; replaced_by_token_id = some row.id })
  pub current :
      select_one (has_hash (hash_token libs tokens.refresh_token)) s'.db.refresh_tokens ≡ some row
  pub current_active : row.revoked_at ≡ none
  pub current_owner : row.user_id ≡ user.id

decode_token-reads :
    (libs : Libraries) (settings : Settings) (raw : String) (t : TokenType) (s : Session)
    → Ensures (λ _ s'. (s' ≡ s) × Unit {0}) (decode_token libs settings raw t s)
unfolding decode_token
decode_token-reads libs settings raw t s = ground arith

check_reuse :
    (token : RefreshToken) (s : Session)
    → Ensures
        (λ _ s'. (s' ≡ s) × (token.revoked_at ≡ none))
        (when (not (is_none token.revoked_at)) (reject_reuse token) s)
unfolding reject_reuse
check_reuse token s = elim (Option-cases token.revoked_at) [
  | inl e ↦ rw e (refl, refl)
  | inr (at, e) ↦ rw e tt
]

-- the tokens once the new row is added, the old one revoked and linked
abbrev rotated : RefreshToken → RefreshToken → DateTime → List RefreshToken → List RefreshToken
rotated token row now tokens =
    update_where (λ t. t.id == token.id) (λ t. record t { replaced_by_token_id = some row.id })
      (update_where (λ t. t.id == token.id) (λ t. record t { revoked_at = some now })
        (tokens ++ row ∷ []))

rotated-old :
    (token row : RefreshToken) (now : DateTime) (tokens : List RefreshToken) (hash : String)
    → select_one (has_hash hash) tokens ≡ some token
    → select_one (has_hash hash) (rotated token row now tokens)
      ≡ some (record token { revoked_at = some now; replaced_by_token_id = some row.id })
rotated-old token row now tokens hash found =
    let added = select_one-append (has_hash hash) tokens (row ∷ []) token found in
    let revoked = rw (==_self token.id) at (
      select_one-update_where (has_hash hash) (λ t. t.id == token.id)
        (λ t. record t { revoked_at = some now }) (tokens ++ row ∷ []) token (λ y. refl) added) in
    rw (==_self token.id) at (
      select_one-update_where (has_hash hash) (λ t. t.id == token.id)
        (λ t. record t { replaced_by_token_id = some row.id }) _ _ (λ y. refl) revoked)

-- an update of rows with another id
select_new :
    (token row : RefreshToken) (change : RefreshToken → RefreshToken) (tokens : List RefreshToken)
    (hash : String)
    → ((t : RefreshToken) → (change t).token_hash ≡ t.token_hash)
    → (row.id == token.id) ≡ false
    → select_one (has_hash hash) tokens ≡ some row
    → select_one (has_hash hash) (update_where (λ t. t.id == token.id) change tokens) ≡ some row
select_new token row change tokens hash k other found = rw other at (
    select_one-update_where (has_hash hash) (λ t. t.id == token.id) change tokens row
      (λ y. ap (λ h. str_eq h hash) (k y)) found)

rotated-new :
    (token row : RefreshToken) (now : DateTime) (tokens : List RefreshToken)
    → any (has_hash row.token_hash) tokens ≡ false
    → (row.id == token.id) ≡ false
    → select_one (has_hash row.token_hash) (rotated token row now tokens) ≡ some row
rotated-new token row now tokens unused other =
    let self = str_eq_self row.token_hash in
    let added = select_one-appended (has_hash row.token_hash) tokens row unused self in
    select_new token row _ _ row.token_hash (λ t. refl) other
      (select_new token row _ _ row.token_hash (λ t. refl) other added)

-- Every id in the table was drawn before.
abbrev pub AreDrawn : Session → Type 0
AreDrawn s = All (λ (t : RefreshToken). t.id < s.next_id) s.db.refresh_tokens

link-writes :
    (libs : Libraries) (settings : Settings) (token row : RefreshToken) (tokens : TokenResponse)
    (s : Session)
    → select_one (has_hash (hash_token libs tokens.refresh_token)) s.db.refresh_tokens ≡ some row
    → link_replacement libs settings token tokens s ≡ RefreshTokenRepository.replace token row.id s
unfolding link_replacement RefreshTokenRepository.get_by_token_hash
link-writes libs settings token row tokens s h =
    run_to (RefreshTokenRepository.get_by_token_hash (hash_token libs tokens.refresh_token))
      (λ r. elim r [ none ↦ pure tt | some t ↦ RefreshTokenRepository.replace token t.id ]) s
      (some row) s _ (ap (λ o. (ok o, s)) h) refl

-- the tokens once the old one is revoked
abbrev retired_tokens : RefreshToken → DateTime → List RefreshToken → List RefreshToken
retired_tokens token now tokens =
    update_where (λ t. t.id == token.id) (λ t. record t { revoked_at = some now }) tokens

-- the end of `refresh`, once the new pair is issued
retire-Rotated :
    (libs : Libraries) (settings : Settings) (raw : String) (s s₁ : Session) (token : RefreshToken)
    (user : User) (tokens : TokenResponse)
    → Issued libs user.id s tokens s₁
    → token.id < s.next_id
    → select_one (has_hash (hash_token libs raw)) s.db.refresh_tokens ≡ some token
    → token.revoked_at ≡ none
    → s.now ≤ token.expires_at
    → select_one (UserRepository.is_live token.user_id) s.db.users ≡ some user
    → user.is_active ≡ true
    → Ensures (Rotated libs raw s) (
        (RefreshTokenRepository.revoke token s.now
            >> (link_replacement libs settings token tokens >> pure tokens))
          s₁)
unfolding RefreshTokenRepository.revoke RefreshTokenRepository.replace
retire-Rotated libs settings raw s s₁ token user tokens issued drawn found unrevoked unexpired known
      active =
    let Q = Rotated libs raw s in
    let row = issued.row in
    let before = s.db.refresh_tokens in
    let other : (row.id == token.id) ≡ false = ground (arith, issued.fresh) in
    let s₂ : Session = record s₁ {
      db = record (s₁.db) { refresh_tokens = retired_tokens token s.now s₁.db.refresh_tokens };
    } in
    let written : s₁.db.refresh_tokens ≡ before ++ row ∷ [] = rw issued.written refl in
    let kept =
      subst (λ ts. select_one (has_hash row.token_hash) (retired_tokens token s.now ts) ≡ some row)
        (sym written)
        (select_new token row _ _ row.token_hash (λ t. refl) other
          (select_one-appended (has_hash row.token_hash) before row issued.unused
            (str_eq_self row.token_hash))) in
    Ensures-run Q _ _ s₁ tt s₂ refl (
      Ensures-run Q _ _ s₂ tt _
        (link-writes libs settings token row tokens s₂
          (subst (λ h. select_one (has_hash h) s₂.db.refresh_tokens ≡ some row) issued.hashed kept))
        (record {
          token = token;
          user = user;
          row = row;
          found = found;
          unrevoked = unrevoked;
          unexpired = unexpired;
          user_found = known;
          user_active = active;
          retired = rw written (rotated-old token row s.now before (hash_token libs raw) found);
          current = rw written (
              subst (λ h. select_one (has_hash h) (rotated token row s.now before) ≡ some row)
                issued.hashed (rotated-new token row s.now before issued.unused other));
          current_active = issued.active;
          current_owner = issued.owner;
        }))

pub refresh-Rotated :
    (libs : Libraries) (settings : Settings) (raw : String) (request : RequestContext) (s : Session)
    → AreDrawn s
    → Ensures (Rotated libs raw s) (refresh libs settings raw request s)
unfolding refresh RefreshTokenRepository.get_by_token_hash UserRepository.get_by_id_unscoped
refresh-Rotated libs settings raw request s drawn =
    let Q = Rotated libs raw s in
    Ensures-read Q (λ _. Unit {0}) _ _ s (decode_token-reads libs settings raw _ s)
      λ payload _. Ensures-run Q _ _ s _ s refl (
        Ensures-or_raise Q _ _ _ s λ token found.
          Ensures-read Q (λ _. token.revoked_at ≡ none) _ _ s (check_reuse token s)
            λ _ unrevoked. Ensures-run Q _ _ s s.now s refl (
              Ensures-raise_if Q _ _ _ s λ unexpired. Ensures-run Q _ _ s _ s refl (
                Ensures-or_raise Q _ _ _ s λ user known. Ensures-raise_if Q _ _ _ s λ active.
                  Ensures-bind Q (Issued libs user.id s) _ _ s
                    (issue_token_pair-Issued libs settings user _ _ request _ _ s)
                    λ tokens s₁ issued.
                      retire-Rotated libs settings raw s s₁ token user tokens issued
                        (All-select_one (λ (t : RefreshToken). t.id < s.next_id) _ _ token drawn
                          found)
                        found unrevoked (ground arith) known (ground arith))))

-- If every id in the table was drawn before, a refresh that returns a new pair of tokens has retired
-- the presented token, which was neither
-- revoked nor expired and belongs to an active user, in favour of the new one.
pub refresh-rotates :
    (libs : Libraries) (settings : Settings) (raw : String) (request : RequestContext) (s : Session)
    {tokens : TokenResponse} {s' : Session}
    → AreDrawn s
    → refresh libs settings raw request s ≡ (ok tokens, s')
    → Rotated libs raw s tokens s'
refresh-rotates libs settings raw request s drawn e =
    Ensures-ok (Rotated libs raw s) _ (refresh-Rotated libs settings raw request s drawn) e
