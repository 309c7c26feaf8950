-- ===== src/Core/Refused.antt =====
-- Actions of Core/Session.antt that raise and leave the session as it is, behind checks that only read.
use retail_os.Core.Exceptions.{Exception}
use retail_os.Prelude.{false, subst, refl, true, ◌≡◌, Bool}
use retail_os.Core.Session.{ok, Result, ◌>>=◌, err, raise_if, Session, M}

-- the action raises and writes nothing
abbrev pub Refused : {A : Type 0} → M A → Session → Type 0
Refused m s = (e : Exception) × (m s ≡ (err e, s))

module _ {A B : Type 0} (m : M B) (k : B → M A) (s : Session) (reads : (m s).1 ≡ s) where
  -- a read in front of an action that is refused
  pub Refused-read : ((b : B) → Refused (k b) s) → Refused (m >>= k) s
  unfolding ◌>>=◌
  Refused-read refused = let (r, s₁) = m s in go r s₁ reads
    where
      go : (r : Result B) (s₁ : Session) → s₁ ≡ s → Refused ((λ _. (r, s₁)) >>= k) s
      go (ok b) s₁ e = rw e (refused b)
      go (err x) s₁ e = rw e (x, refl)

  -- an action that returned behind a read
  pub returned_read :
      {a : A} {s' : Session} → (m >>= k) s ≡ (ok a, s') → (b : B) × (k b s ≡ (ok a, s'))
  unfolding ◌>>=◌
  returned_read {a} {s'} h = let (r, s₁) = m s in go r s₁ reads h
    where
      go :
          (r : Result B) (s₁ : Session)
          → s₁ ≡ s
          → ((λ (_ : Session). (r, s₁)) >>= k) s ≡ (ok a, s')
          → (b : B) × (k b s ≡ (ok a, s'))
      go (ok b) s₁ e h = (b, subst (λ z. k b z ≡ (ok a, s')) e h)
      go (err x) s₁ e h = absurd (cc h)

pub raise_if-reads : (c : Bool) (e : Exception) (s : Session) → (raise_if c e s).1 ≡ s
raise_if-reads true e s = refl
raise_if-reads false e s = refl
