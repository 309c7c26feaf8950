-- ===== src/Core/Ensures.antt =====
-- Postconditions of the actions of Core/Session.antt: what holds of the value and of the session when
-- an action returns, with a rule for each way to build one.
use retail_os.Prelude.{if◌then◌else◌, ◌≡◌, refl, sym, subst, Bool, true, false, Option, none, some}
use retail_os.Core.Exceptions.{Exception}
use retail_os.Core.Session.{when, Session, Result, ok, err, M, or_raise, raise_if, ◌>>=◌, ◌>>◌}

abbrev pub Ensures : {A : Type 0} → (A → Session → Type 0) → Result A × Session → Type 0
Ensures P (ok a, s) = P a s
Ensures P (err e, s) = Unit

-- from a postcondition to a run that returned
pub Ensures-ok :
    {A : Type 0} (P : A → Session → Type 0) (r : Result A × Session) {a : A} {s : Session}
    → Ensures P r
    → r ≡ (ok a, s)
    → P a s
Ensures-ok P r h e = rw e at h

-- a postcondition from what holds of every run that returns
pub Ensures-intro :
    {A : Type 0} (P : A → Session → Type 0) (r : Result A × Session)
    → ((a : A) (s : Session) → r ≡ (ok a, s) → P a s)
    → Ensures P r
Ensures-intro P (ok a, s) k = k a s refl
Ensures-intro P (err e, s) k = tt

-- what holds anyway
pub Ensures-always :
    {A : Type 0} (P : A → Session → Type 0) (r : Result A × Session)
    → ((a : A) (s : Session) → P a s)
    → Ensures P r
Ensures-always P (ok a, s) k = k a s
Ensures-always P (err e, s) k = tt

module _ {A B : Type 0} (Q : B → Session → Type 0) where
  pub Ensures-bind :
      (P : A → Session → Type 0) (m : M A) (f : A → M B) (s : Session)
      → Ensures P (m s)
      → ((a : A) (s' : Session) → P a s' → Ensures Q (f a s'))
      → Ensures Q ((m >>= f) s)
  unfolding ◌>>=◌
  Ensures-bind P m f s h k = let (r, s') = m s in go r s' h
    where
      go : (r : Result A) (s' : Session) → Ensures P (r, s') → Ensures Q (((λ _. (r, s')) >>= f) s)
      go (ok a) s' h = k a s' h
      go (err e) s' h = tt

  -- an action that returns whatever the session is
  pub Ensures-run :
      (m : M A) (f : A → M B) (s : Session) (a : A) (s' : Session)
      → m s ≡ (ok a, s')
      → Ensures Q (f a s')
      → Ensures Q ((m >>= f) s)
  unfolding ◌>>=◌
  Ensures-run m f s a s' e h =
      subst
        (λ (r : Result A × Session). Ensures Q (elim r.0 [ ok x ↦ f x r.1 | err x ↦ (err x, r.1) ]))
        (sym e) h

  -- an action that can only end in one session
  pub Ensures-move :
      (P : A → Type 0) (s₁ : Session) (m : M A) (f : A → M B) (s : Session)
      → Ensures (λ a s'. (s' ≡ s₁) × P a) (m s)
      → ((a : A) → P a → Ensures Q (f a s₁))
      → Ensures Q ((m >>= f) s)
  Ensures-move P s₁ m f s h k =
      Ensures-bind (λ a s'. (s' ≡ s₁) × P a) m f s h λ a s' p. rw p.0 (k a p.1)

  pub Ensures-step :
      (s₁ : Session) (m : M A) (f : A → M B) (s : Session)
      → Ensures (λ _ s'. s' ≡ s₁) (m s)
      → ((a : A) → Ensures Q (f a s₁))
      → Ensures Q ((m >>= f) s)
  Ensures-step s₁ m f s h k = Ensures-bind (λ _ s'. s' ≡ s₁) m f s h λ a s' e. rw e (k a)

  -- an action that only reads
  pub Ensures-read :
      (P : A → Type 0) (m : M A) (f : A → M B) (s : Session)
      → Ensures (λ a s'. (s' ≡ s) × P a) (m s)
      → ((a : A) → P a → Ensures Q (f a s))
      → Ensures Q ((m >>= f) s)
  Ensures-read P m f s h k = Ensures-move P s m f s h k

  -- a check, which only reads
  pub Ensures-check :
      (m : M A) (f : A → M B) (s : Session)
      → (m s).1 ≡ s
      → ((a : A) → Ensures Q (f a s))
      → Ensures Q ((m >>= f) s)
  unfolding ◌>>=◌
  Ensures-check m f s e k = let (r, s₁) = m s in go r s₁ e
    where
      go : (r : Result A) (s₁ : Session) → s₁ ≡ s → Ensures Q (((λ _. (r, s₁)) >>= f) s)
      go (ok a) s₁ e = rw e (k a)
      go (err x) s₁ e = tt

  pub Ensures-or_raise :
      (o : Option A) (e : Exception) (f : A → M B) (s : Session)
      → ((a : A) → o ≡ some a → Ensures Q (f a s))
      → Ensures Q ((or_raise o e >>= f) s)
  unfolding ◌>>=◌
  Ensures-or_raise none e f s k = tt
  Ensures-or_raise (some a) e f s k = k a refl

module _ {B : Type 0} (Q : B → Session → Type 0) where
  pub Ensures-raise_if :
      (c : Bool) (e : Exception) (m : M B) (s : Session)
      → (c ≡ false → Ensures Q (m s))
      → Ensures Q ((raise_if c e >> m) s)
  unfolding ◌>>=◌
  Ensures-raise_if true e m s k = tt
  Ensures-raise_if false e m s k = k refl

  pub Ensures-when :
      (c : Bool) (m : M (Unit {0})) (k : M B) (s : Session)
      → (c ≡ true → Ensures Q ((m >> k) s))
      → (c ≡ false → Ensures Q (k s))
      → Ensures Q ((when c m >> k) s)
  unfolding ◌>>=◌
  Ensures-when true m k s h g = h refl
  Ensures-when false m k s h g = g refl

  pub Ensures-if :
      (c : Bool) (m k : M B) (s : Session)
      → (c ≡ true → Ensures Q (m s))
      → (c ≡ false → Ensures Q (k s))
      → Ensures Q ((if c then m else k) s)
  Ensures-if true m k s h g = h refl
  Ensures-if false m k s h g = g refl

  -- a read at the end
  pub Ensures-reads : (m : M B) (s : Session) → (m s).1 ≡ s → ((b : B) → Q b s) → Ensures Q (m s)
  Ensures-reads m s e k = let (r, s₁) = m s in go r s₁ e
    where
      go : (r : Result B) (s₁ : Session) → s₁ ≡ s → Ensures Q (r, s₁)
      go (ok b) s₁ e = rw e (k b)
      go (err x) s₁ e = tt

  pub Ensures-weaken :
      (P : B → Session → Type 0) (r : Result B × Session)
      → Ensures P r
      → ((a : B) (s : Session) → P a s → Q a s)
      → Ensures Q r
  Ensures-weaken P (ok a, s) h k = k a s h
  Ensures-weaken P (err e, s) h k = tt
