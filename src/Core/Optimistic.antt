-- ===== src/Core/Optimistic.antt =====
-- The optimistic locking of Core/Versioned.antt: of two updates that carry the same version, the second is
-- refused.
use retail_os.Core.Ensures.{
  Ensures-weaken, Ensures-or_raise, Ensures-raise_if, Ensures-run, Ensures-ok, Ensures,
}
use retail_os.Prelude.Rows.{
  affected_rows-update_where, update_where-none, any-affected, update_where, affected_rows,
}
use retail_os.Core.Session.{raise, or_raise, ◌>>=◌, ok, err, gets, Session}
use retail_os.Core.Versioned.{versioned_update}
use retail_os.Core.Exceptions.{Exception}
use retail_os.Prelude.{
  inr, inl, ◌==◌, Bool-cases, none, refl, false, some, true, ◌≡◌, Option, Bool, List,
}
use retail_os.Core.Db.{Db}

module _ {A : Type 0} (rows : Db → List A) (put : List A → Db → Db) (matches : A → Bool)
    (lookup : Db → Option A) (missing stale : Exception)
    (rows-put : (xs : List A) (db : Db) → rows (put xs db) ≡ xs)
    (put-rows : (db : Db) → put (rows db) db ≡ db) where
  -- the row is there, and no row has the version
  pub versioned_update-stale :
      (change : A → A) (violates : Db → Bool) (s : Session) (x : A)
      → affected_rows matches (rows s.db) ≡ 0
      → lookup s.db ≡ some x
      → versioned_update rows put matches change violates (gets λ s. lookup s.db) missing stale s
        ≡ (err stale, s)
  unfolding versioned_update ◌>>=◌
  versioned_update-stale change violates s x none_matches found =
      rw
        (
          any-affected matches (rows s.db) none_matches,
          none_matches,
          update_where-none matches change (rows s.db) none_matches,
          put-rows s.db,
          found,
        )
        refl

  Ensures-lookup :
      (Q : A → Session → Type 0) (o : Option A) (s : Session)
      → ((x : A) → o ≡ some x → Q x s)
      → Ensures Q (or_raise o missing s)
  Ensures-lookup Q none s k = tt
  Ensures-lookup Q (some x) s k = k x refl

  -- what an update has done when it returns
  versioned_update-Written :
      (change : A → A) (violates : Db → Bool) (s : Session)
      → Ensures
          (λ x s'.
            (s'.db ≡ put (update_where matches change (rows s.db)) s.db) × (lookup s'.db ≡ some x))
          (versioned_update rows put matches change violates
            (gets λ s. lookup s.db)
            missing
            stale
            s)
  unfolding versioned_update
  versioned_update-Written change violates s =
      let table = rows s.db in
      let db' = put (update_where matches change table) s.db in
      let s' : Session = record s { db = db' } in
      let Q = λ (x : A) (s' : Session).
        (s'.db ≡ put (update_where matches change (rows s.db)) s.db) × (lookup s'.db ≡ some x) in
      Ensures-run Q _ _ s table s refl (
        Ensures-run Q _ _ s _ s refl (
          Ensures-raise_if Q _ _ _ s λ _.
            Ensures-run Q _ _ s tt s' refl (elim (Bool-cases (affected_rows matches table == 0)) [
              | inl e ↦ rw e (
                  Ensures-run Q _ _ s' (lookup db') s' refl
                    (Ensures-or_raise Q (lookup db') missing (λ _. raise stale) s' λ x found. tt))
              | inr e ↦ rw e (
                  Ensures-run Q _ _ s' (lookup db') s' refl
                    (Ensures-lookup Q (lookup db') s' λ x found. (refl, found)))
            ])))

  pub Ensures-versioned :
      (Q : A → Session → Type 0) (change : A → A) (violates : Db → Bool) (s : Session)
      → ((x : A) (s' : Session)
          → s'.db ≡ put (update_where matches change (rows s.db)) s.db
          → Q x s')
      → Ensures Q (
          versioned_update rows put matches change violates (gets λ s. lookup s.db) missing stale s)
  Ensures-versioned Q change violates s k =
      Ensures-weaken Q
        (λ x s'.
          (s'.db ≡ put (update_where matches change (rows s.db)) s.db) × (lookup s'.db ≡ some x))
        _ (versioned_update-Written change violates s) λ x s' h. k x s' h.0

  -- Of two updates from the same version, the second is refused and writes nothing.
  pub versioned_update-once :
      (change change' : A → A) (violates violates' : Db → Bool) (s : Session) {x : A} {s' : Session}
      → ((x : A) → matches x ≡ true → matches (change x) ≡ false)
      → versioned_update rows put matches change violates (gets λ s. lookup s.db) missing stale s
        ≡ (ok x, s')
      → versioned_update rows put matches change' violates' (gets λ s. lookup s.db) missing stale s'
        ≡ (err stale, s')
  versioned_update-once change change' violates violates' s {x} {s'} bumps e =
      let h =
        Ensures-ok
          (λ x s'.
            (s'.db ≡ put (update_where matches change (rows s.db)) s.db) × (lookup s'.db ≡ some x))
          _ (versioned_update-Written change violates s) e in
      versioned_update-stale change' violates' s' x
        (rw (h.0, rows-put (update_where matches change (rows s.db)) s.db)
          (affected_rows-update_where matches change (rows s.db) bumps))
        h.1
