-- ===== src/Core/Returns.antt =====
-- Actions of Core/Session.antt that return a value, with a rule for each way to build one.
use retail_os.Core.Exceptions.{Exception}
use retail_os.Prelude.{refl, false, ◌∙◌, ap, Bool, ◌≡◌}
use retail_os.Core.Session.{get_db_session, raise_if, Session, ok, err, M, Result, ◌>>=◌, ◌>>◌}

abbrev pub Returns : {A : Type 0} → M A → Session → Type 0
Returns {A} m s = (a : A) × (s' : Session) × (m s ≡ (ok a, s'))

module _ {A B : Type 0} where
  pub run_eq :
      (m : M A) (f : A → M B) (s : Session) (a : A) (s' : Session)
      → m s ≡ (ok a, s')
      → (m >>= f) s ≡ f a s'
  unfolding ◌>>=◌
  run_eq m f s a s' e =
      ap (λ (r : Result A × Session). elim r.0 [ ok x ↦ f x r.1 | err x ↦ (err x, r.1) ]) e

  -- the first action returns
  pub run_to :
      (m : M A) (f : A → M B) (s : Session) (a : A) (s' : Session) (r : Result B × Session)
      → m s ≡ (ok a, s')
      → f a s' ≡ r
      → (m >>= f) s ≡ r
  run_to m f s a s' r e h = run_eq m f s a s' e ∙ h

  -- the first action raises
  pub fail_to :
      (m : M A) (f : A → M B) (s : Session) (x : Exception) (s' : Session)
      → m s ≡ (err x, s')
      → (m >>= f) s ≡ (err x, s')
  unfolding ◌>>=◌
  fail_to m f s x s' e =
      ap (λ (r : Result A × Session). elim r.0 [ ok x ↦ f x r.1 | err x ↦ (err x, r.1) ]) e

  pub Returns-run :
      (m : M A) (f : A → M B) (s : Session) (a : A) (s' : Session)
      → m s ≡ (ok a, s')
      → Returns (f a) s'
      → Returns (m >>= f) s
  Returns-run m f s a s' e (b, s'', h) = (b, s'', run_eq m f s a s' e ∙ h)

pub Returns-raise_if :
    {B : Type 0} (c : Bool) (e : Exception) (m : M B) (s : Session)
    → c ≡ false
    → Returns m s
    → Returns (raise_if c e >> m) s
Returns-raise_if c e m s h r = Returns-run (raise_if c e) (λ _. m) s tt s (rw h refl) r

module _ {A : Type 0} (m : M A) (s : Session) where
  -- a request whose endpoint raises, and one whose endpoint returns
  pub get_db_session-raised :
      {e : Exception} {s' : Session}
      → m s ≡ (err e, s')
      → get_db_session m s ≡ (err e, record s' { db = s'.saved })
  unfolding get_db_session
  get_db_session-raised h =
      ap
        (λ (r : Result A × Session). elim r.0 [
          | ok a ↦ (ok a, record (r.1) { saved = r.1.db })
          | err e ↦ (err e, record (r.1) { db = r.1.saved })
        ])
        h

  pub get_db_session-returned :
      {a : A} {s' : Session}
      → m s ≡ (ok a, s')
      → get_db_session m s ≡ (ok a, record s' { saved = s'.db })
  unfolding get_db_session
  get_db_session-returned h =
      ap
        (λ (r : Result A × Session). elim r.0 [
          | ok a ↦ (ok a, record (r.1) { saved = r.1.db })
          | err e ↦ (err e, record (r.1) { db = r.1.saved })
        ])
        h
