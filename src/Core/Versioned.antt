-- ===== src/Core/Versioned.antt =====
-- The update of one row under optimistic locking, which each service of backend/app/modules writes
-- out for its own table: `update(T).where(..., T.version == expected_version)`, the look at the
-- number of affected rows, and the final read.
use retail_os.Prelude.Rows.{affected_rows, update_where, any}
use retail_os.Core.Session.{or_raise, modify_db, raise_if, ◌>>=◌, ◌>>◌, raise}
use retail_os.Core.Exceptions.{integrity_error, Exception}
use retail_os.Prelude.{◌==◌, if◌then◌else◌, ◌&&◌, Option, Bool, List}
use retail_os.Core.Db.{Db}
use retail_os.Core.Session.{gets, M, ◌>>=◌}

module _ {A : Type 0} where
  -- `violates` tells whether the new values break a constraint of the table.
  unfoldable pub versioned_update :
      (Db → List A)
      → (List A → Db → Db)
      → (A → Bool)
      → (A → A)
      → (Db → Bool)
      → M (Option A)
      → Exception
      → Exception
      → M A
  versioned_update rows put matches change violates find missing stale = do
    table ← gets (λ s. rows s.db)
    broken ← gets (λ s. violates s.db)
    raise_if (any matches table && broken) integrity_error
    modify_db (put (update_where matches change table))
    if affected_rows matches table == 0
        then find >>= (λ existing. or_raise existing missing >> raise stale)
        else find >>= (λ row. or_raise row missing)
