-- ===== src/Core/Session.antt =====
-- backend/app/core/db.py: the session of one request. A coroutine of the services and repositories
-- is an action on the session, which returns a value or raises. What was written before a raise
-- stays in the open transaction, until `get_db_session` rolls it back.
use retail_os.Prelude.{ℕ, ◌+◌, Bool, true, false, Option, none, some, List, [], ◌∷◌}
use retail_os.Core.Time.{DateTime}
use retail_os.Core.Exceptions.{Exception}
use retail_os.Core.Db.{Db}

-- `now` is the request's instant: `datetime.now(UTC)` and PostgreSQL's `now()`. `next_id` is the
-- supply of `uuid4()`. `db` is what the request sees, `saved` what was committed last.
pub record Session : Type 0 where
  pub now : DateTime
  pub next_id : ℕ
  pub db : Db
  pub saved : Db

pub data Result {ℓ} (A : Type ℓ) : Type ℓ where
  ok : A → Result A
  err : Exception → Result A

abbrev pub M : Type 0 → Type 0
M A = Session → Result A × Session

module _ {A : Type 0} where
  abbrev pub pure : A → M A
  pure a s = (ok a, s)

  abbrev pub raise : Exception → M A
  raise e s = (err e, s)

  abbrev pub gets : (Session → A) → M A
  gets f s = (ok (f s), s)

  -- `if x is None: raise e`
  abbrev pub or_raise : Option A → Exception → M A
  or_raise none e s = (err e, s)
  or_raise (some a) e s = (ok a, s)

-- Shut, so that the rules of Core/Ensures.antt apply to a block as it is written.
infixl 5 ◌>>=◌ ◌>>◌
unfoldable pub ◌>>=◌ : {A B : Type 0} → M A → (A → M B) → M B
◌>>=◌ m f s = let (r, s') = m s in elim r [ ok a ↦ f a s' | err e ↦ (err e, s') ]

abbrev pub ◌>>◌ : {A B : Type 0} → M A → M B → M B
m >> k = m >>= λ _. k

-- `if c: raise e`
abbrev pub raise_if : Bool → Exception → M (Unit {0})
raise_if c e s = elim c [ true ↦ (err e, s) | false ↦ (ok tt, s) ]

-- `if c: m`
abbrev pub when : Bool → M (Unit {0}) → M (Unit {0})
when c m s = elim c [ true ↦ m s | false ↦ (ok tt, s) ]

-- `for x in xs: f(x)`
unfoldable pub for_each : {A : Type 0} → (A → M (Unit {0})) → List A → M (Unit {0})
for_each f [] s = (ok tt, s)
for_each f (x ∷ xs) s = (f x >>= λ _. for_each f xs) s

abbrev pub uuid4 : M ℕ
uuid4 s = (ok s.next_id, record s { next_id = s.next_id + 1 })

abbrev pub modify_db : (Db → Db) → M (Unit {0})
modify_db f s = (ok tt, record s { db = f s.db })

abbrev pub commit : M (Unit {0})
commit s = (ok tt, record s { saved = s.db })

-- `get_db_session`: commits when the endpoint returns, and rolls back when it raises.
unfoldable pub get_db_session : {A : Type 0} → M A → M A
get_db_session endpoint s =
    let (r, s') = endpoint s in
    elim r [
      | ok a ↦ (ok a, record s' { saved = s'.db })
      | err e ↦ (err e, record s' { db = s'.saved })
    ]

-- a request at a given instant on a committed database
abbrev pub start : DateTime → ℕ → Db → Session
start now next_id db = record { now = now; next_id = next_id; db = db; saved = db }
