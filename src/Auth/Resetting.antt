-- ===== src/Auth/Resetting.antt =====
-- `reset_password` of backend/app/modules/auth/service.py: a link works once, and ends every session.
use retail_os.Core.Returns.{fail_to, run_to}
use retail_os.Auth.RefreshTokenRepository.{is_active_of}
use retail_os.Prelude.Rows.{
  select_one-holds, select_all-update_where, select_one-update_where, select_all, select_one,
}
use retail_os.Core.Ensures.{Ensures-ok, Ensures-or_raise, Ensures-raise_if, Ensures-run, Ensures}
use retail_os.Users.Models.{User}
use retail_os.Core.Session.{err, ok, Session, ◌>>=◌}
use retail_os.Core.Time.{DateTime}
use retail_os.Prelude.{
  ap, true, sym, refl, [], ◌==◌, ==_self, arith, ◌+◌, subst, ◌≤◌, none, false, ◌≡◌, ℕ, some, String,
}
use retail_os.Auth.Passwords.{invalid_link, is_dead, reset_password, finish_reset}
use retail_os.Auth.Models.{PasswordResetToken}
use retail_os.Core.Security.{hash_token, hash_password, Libraries}
use retail_os.Audit.AuditService
use retail_os.Auth.RefreshTokenRepository
use retail_os.Auth.PasswordResetTokenRepository
use retail_os.Users.UserRepository

-- What a password reset that returned has done: the link was known, unused and in time; it is used
-- now, the user's hash is the one of the new password, and no session of the user is active.
pub record Reset (libs : Libraries) (raw : String) (password : String) (s s' : Session)
    : Type 0 where
  pub token : PasswordResetToken
  pub user : User
  pub salt : ℕ
  pub found :
      select_one
        (PasswordResetTokenRepository.has_hash (hash_token libs raw))
        s.db.password_reset_tokens
      ≡ some token
  pub unused : token.used_at ≡ none
  pub in_time : s.now ≤ token.expires_at
  pub known : select_one (UserRepository.is_live token.user_id) s.db.users ≡ some user
  pub spent :
      select_one
        (PasswordResetTokenRepository.has_hash (hash_token libs raw))
        s'.db.password_reset_tokens
      ≡ some (record token { used_at = some s.now })
  pub changed :
      select_one (UserRepository.is_live user.id) s'.db.users
      ≡ some (record user {
        password_hash = libs.argon2_hash salt password;
        must_change_password = false;
        version = user.version + 1;
      })
  pub signed_out : select_all (is_active_of user.id) s'.db.refresh_tokens ≡ []

live-token :
    (token : PasswordResetToken) (now : DateTime)
    → is_dead (some token) now ≡ false
    → (token.used_at ≡ none) × (now ≤ token.expires_at)
live-token token now h = ground arith

live-id :
    (id : ℕ) (s : Session) (user : User)
    → select_one (UserRepository.is_live id) s.db.users ≡ some user
    → user.id ≡ id
live-id id s user h = ground (arith, select_one-holds (UserRepository.is_live id) s.db.users user h)

-- the four writes at the end
written-Reset :
    (libs : Libraries) (raw password : String) (s : Session) (token : PasswordResetToken)
    (user : User)
    → select_one
        (PasswordResetTokenRepository.has_hash (hash_token libs raw))
        s.db.password_reset_tokens
      ≡ some token
    → token.used_at ≡ none
    → s.now ≤ token.expires_at
    → select_one (UserRepository.is_live token.user_id) s.db.users ≡ some user
    → Ensures (λ _ s'. Reset libs raw password s s') (finish_reset libs token user password s.now s)
unfolding finish_reset ◌>>=◌ hash_password PasswordResetTokenRepository.mark_used
    RefreshTokenRepository.revoke_all_for_user AuditService.log
written-Reset libs raw password s token user found unused in_time known = record {
  token = token;
  user = user;
  salt = s.next_id;
  found = found;
  unused = unused;
  in_time = in_time;
  known = known;
  spent = rw (==_self token.id) at (
      select_one-update_where (PasswordResetTokenRepository.has_hash (hash_token libs raw))
        (λ t. t.id == token.id) (λ t. record t { used_at = some s.now }) s.db.password_reset_tokens
        token (λ y. refl) found);
  changed = rw (==_self user.id) at (
      select_one-update_where (UserRepository.is_live user.id) (λ u. u.id == user.id)
        (λ u. record u {
          password_hash = libs.argon2_hash s.next_id password;
          must_change_password = false;
          version = user.version + 1;
        })
        s.db.users user (λ y. refl)
        (subst (λ id. select_one (UserRepository.is_live id) s.db.users ≡ some user)
          (sym (live-id token.user_id s user known)) known));
  signed_out =
      select_all-update_where (is_active_of user.id) _ s.db.refresh_tokens λ t h. ground arith;
}

pub reset_password-Reset :
    (libs : Libraries) (raw password : String) (s : Session)
    → Ensures (λ _ s'. Reset libs raw password s s') (reset_password libs raw password s)
unfolding reset_password PasswordResetTokenRepository.get_by_token_hash
    UserRepository.get_by_id_unscoped
reset_password-Reset libs raw password s =
    let Q = λ (_ : Unit {0}) (s' : Session). Reset libs raw password s s' in
    Ensures-run Q _ _ s _ s refl (
      Ensures-run Q _ _ s s.now s refl (
        Ensures-raise_if Q _ _ _ s λ good. Ensures-or_raise Q _ _ _ s λ token found.
          Ensures-run Q _ _ s _ s refl (
            Ensures-or_raise Q _ _ _ s λ user known.
              let live = live-token token s.now (subst (λ o. is_dead o s.now ≡ false) found good) in
              written-Reset libs raw password s token user found live.0 live.1 known)))

-- A password reset that returns has used up its link, which was unused and in time, and set the
-- hash of the new password; every session of the user is ended.
pub reset_password-resets :
    (libs : Libraries) (raw password : String) (s : Session) {a : Unit {0}} {s' : Session}
    → reset_password libs raw password s ≡ (ok a, s')
    → Reset libs raw password s s'
reset_password-resets libs raw password s e =
    Ensures-ok (λ (_ : Unit {0}) (s' : Session). Reset libs raw password s s') _
      (reset_password-Reset libs raw password s) e

-- A used link is refused, whatever the new password is and whenever it comes, and nothing is written.
used-refused :
    (libs : Libraries) (raw password : String) (s : Session) (token : PasswordResetToken)
    (at : DateTime)
    → select_one
        (PasswordResetTokenRepository.has_hash (hash_token libs raw))
        s.db.password_reset_tokens
      ≡ some token
    → token.used_at ≡ some at
    → reset_password libs raw password s ≡ (err invalid_link, s)
unfolding reset_password PasswordResetTokenRepository.get_by_token_hash
used-refused libs raw password s token at found used =
    let dead : is_dead (some token) s.now ≡ true = ground (arith, used) in
    run_to _ _ s (some token) s _ (ap (λ o. (ok o, s)) found)
      (run_to _ _ s s.now s _ refl (fail_to _ _ s _ s (rw dead refl)))

-- A link that has reset a password once is refused from then on.
pub reset_password-once :
    (libs : Libraries) (raw password again : String) (s : Session) {a : Unit {0}} {s' : Session}
    → reset_password libs raw password s ≡ (ok a, s')
    → (later : DateTime)
    → let s₂ : Session = record s' { now = later } in
      reset_password libs raw again s₂ ≡ (err invalid_link, s₂)
reset_password-once libs raw password again s {a} {s'} e later =
    let h = reset_password-resets libs raw password s e in
    used-refused libs raw again (record s' { now = later }) _ s.now h.spent refl
