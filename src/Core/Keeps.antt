-- ===== src/Core/Keeps.antt =====
-- The actions of Core/Session.antt that commit nothing, whether they return or raise, and what
-- `get_db_session` of backend/app/core/db.py makes of them.
use retail_os.Prelude.Rows.{affected_rows}
use retail_os.Core.Versioned.{versioned_update}
use retail_os.Core.Ensures.{Ensures}
use retail_os.Core.Db.{Db}
use retail_os.Prelude.{
  ap, ◌==◌, [], ◌∷◌, List, if◌then◌else◌, sym, subst, false, arith, true, none, refl, ◌∙◌, some,
  ◌≡◌, Bool, Option,
}
use retail_os.Core.Exceptions.{Exception}
use retail_os.Core.Session.{
  for_each, when, err, ok, Result, modify_db, raise_if, or_raise, raise, gets, get_db_session,
  ◌>>=◌, uuid4, Session, pure, M,
}

pub record Keeps {A : Type 0} (m : M A) : Type 0 where
  pub at : (s : Session) → (m s).1.saved ≡ s.saved

module _ {A : Type 0} where
  pub Keeps-pure : (a : A) → Keeps (pure a)
  Keeps-pure a = record { at = λ s. refl }

  pub Keeps-gets : (f : Session → A) → Keeps (gets f)
  Keeps-gets f = record { at = λ s. refl }

  pub Keeps-raise : (e : Exception) → Keeps (raise {A = A} e)
  Keeps-raise e = record { at = λ s. refl }

  pub Keeps-or_raise : (o : Option A) (e : Exception) → Keeps (or_raise o e)
  Keeps-or_raise none e = record { at = λ s. refl }
  Keeps-or_raise (some a) e = record { at = λ s. refl }

-- an action that only reads
pub Keeps-reads : {A : Type 0} (m : M A) → ((s : Session) → (m s).1 ≡ s) → Keeps m
Keeps-reads m h = record { at = λ s. ap (λ (z : Session). z.saved) (h s) }

pub Keeps-raise_if : (c : Bool) (e : Exception) → Keeps (raise_if c e)
Keeps-raise_if true e = record { at = λ s. refl }
Keeps-raise_if false e = record { at = λ s. refl }

pub Keeps-uuid4 : Keeps uuid4
Keeps-uuid4 = record { at = λ s. refl }

pub Keeps-modify_db : (f : Db → Db) → Keeps (modify_db f)
Keeps-modify_db f = record { at = λ s. refl }

module _ {A B : Type 0} where
  pub Keeps-bind : (m : M A) (f : A → M B) → Keeps m → ((a : A) → Keeps (f a)) → Keeps (m >>= f)
  unfolding ◌>>=◌
  Keeps-bind m f km kf = record { at = λ s. let (r, s') = m s in go s r s' (km.at s) }
    where
      go :
          (s : Session) (r : Result A) (s' : Session)
          → s'.saved ≡ s.saved
          → (((λ (_ : Session). (r, s')) >>= f) s).1.saved ≡ s.saved
      go s (ok a) s' e = (kf a).at s' ∙ e
      go s (err x) s' e = e

pub Keeps-when : (c : Bool) (m : M (Unit {0})) → Keeps m → Keeps (when c m)
Keeps-when true m k = record { at = λ s. k.at s }
Keeps-when false m k = record { at = λ s. refl }

pub Keeps-if : {A : Type 0} (c : Bool) (m k : M A) → Keeps m → Keeps k → Keeps (if c then m else k)
Keeps-if true m k h g = h
Keeps-if false m k h g = g

pub Keeps-for_each :
    {A : Type 0} (f : A → M (Unit {0})) (xs : List A)
    → ((x : A) → Keeps (f x))
    → Keeps (for_each f xs)
unfolding for_each
Keeps-for_each f [] k = record { at = λ s. refl }
Keeps-for_each f (x ∷ xs) k = record {
  at = (Keeps-bind (f x) (λ _. for_each f xs) (k x) λ _. Keeps-for_each f xs k).at;
}

pub ruleset keeps_rules = (
  Keeps-pure, Keeps-gets, Keeps-raise, Keeps-or_raise, Keeps-raise_if, Keeps-uuid4, Keeps-modify_db,
  Keeps-bind, Keeps-when, Keeps-if, Keeps-for_each,
)

-- A request that raises leaves the database as it was committed before.
pub get_db_session-rolls_back :
    {A : Type 0} (m : M A) (s : Session) {e : Exception} {s' : Session}
    → Keeps m
    → get_db_session m s ≡ (err e, s')
    → (s'.db ≡ s.saved) × (s'.saved ≡ s.saved)
unfolding get_db_session
get_db_session-rolls_back m s k h = ground (arith, k.at s)

-- A session between two requests: nothing is open.
abbrev pub IsCommitted : Session → Type 0
IsCommitted s = s.db ≡ s.saved

-- After a request the session is committed, and what its operation preserves holds of what is
-- committed, whether the operation returned or raised.
pub get_db_session-invariant :
    {A : Type 0} (P : Db → Type 0) (m : M A) (s : Session)
    → Keeps m
    → Ensures (λ _ s'. P s'.db) (m s)
    → P s.saved
    → IsCommitted (get_db_session m s).1 × P (get_db_session m s).1.saved
unfolding get_db_session
get_db_session-invariant {A = A} P m s k h p = let (r, s') = m s in go r s' (k.at s) h
  where
    go :
        (r : Result A) (s' : Session)
        → s'.saved ≡ s.saved
        → Ensures (λ _ s'. P s'.db) (r, s')
        → IsCommitted (get_db_session {A = A} (λ _. (r, s')) s).1
          × P (get_db_session {A = A} (λ _. (r, s')) s).1.saved
    go (ok a) s' e h = (refl, h)
    go (err x) s' e h = (refl, subst P (sym e) p)

module _ {A : Type 0} (rows : Db → List A) (put : List A → Db → Db) where
  pub Keeps-versioned :
      (matches : A → Bool) (change : A → A) (violates : Db → Bool) (find : M (Option A))
      (missing stale : Exception)
      → Keeps find
      → Keeps (versioned_update rows put matches change violates find missing stale)
  unfolding versioned_update
  Keeps-versioned matches change violates find missing stale k =
      Keeps-bind _ _ (Keeps-gets _) λ table. Keeps-bind _ _ (Keeps-gets _) λ broken.
        Keeps-bind _ _ (Keeps-raise_if _ _) λ _. Keeps-bind _ _ (Keeps-modify_db _) λ _.
          Keeps-if (affected_rows matches table == 0) _ _
            (Keeps-bind _ _ k λ existing. Keeps-bind _ _ (Keeps-or_raise _ _) λ _. Keeps-raise _)
            (Keeps-bind _ _ k λ row. Keeps-or_raise _ _)
