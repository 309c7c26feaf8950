-- ===== src/Inventory/Effects.antt =====
-- What one movement of backend/app/modules/inventory/service.py does to the balances and the ledger.
use retail_os.Prelude.{
  arith, ℕ, ◌+◌, List, ◌≡◌, refl, ap, subst, ◌∙◌, ◌⊎◌, true, [], ◌∷◌, ◌++◌, arith, ◌&&◌, not,
  &&-right, Bool-cases, inl, inr,
}
use retail_os.Prelude.Int.{ℤ, pos, ◌+ℤ◌, ltb_ℤ, ◌≤ℤ◌, InInt32, in_int32, in_int32-InInt32}
use retail_os.Core.Db.{Db}
use retail_os.Audit.AuditService.{log_row}
use retail_os.Core.Session.{Session, ◌>>◌}
use retail_os.Core.Ensures.{Ensures, Ensures-bind, Ensures-run, Ensures-weaken}
use retail_os.Catalog.Models.{Product}
use retail_os.Inventory.Models.{StockTransaction, StockLevel}
use retail_os.Inventory.Service.{
  Movement, movement_key, ledger_row, ledger_entry, check_policy, write_ledger_row,
  record_delta_movement,
}
use retail_os.Inventory.Statements.{Sets, with_levels, Upserted, upsert_delta-Upserted}
use retail_os.Inventory.Balance.{quantity_of}

-- The tables that a movement does not write are those of before.
abbrev pub SameElsewhere : Db → Db → Type 0
SameElsewhere db db' = db' ≡ record db {
  stock_levels = db'.stock_levels;
  stock_transfers = db'.stock_transfers;
  stock_transactions = db'.stock_transactions;
  audit_logs = db'.audit_logs;
}

pub SameElsewhere-trans : (a b c : Db) → SameElsewhere a b → SameElsewhere b c → SameElsewhere a c
SameElsewhere-trans a b c h k =
    k
    ∙ ap {A = Db}
        (λ x. record x {
          stock_levels = c.stock_levels;
          stock_transfers = c.stock_transfers;
          stock_transactions = c.stock_transactions;
          audit_logs = c.audit_logs;
        })
        h

-- The policy lets a movement of the product end at `q`.
abbrev pub Allows : Product → ℤ → Type 0
Allows product q =
    (product.track_inventory ≡ true) × ((pos 0 ≤ℤ q) ⊎ (product.allow_negative_stock ≡ true))

-- What a movement that returned `t` has done: it left its key at `q`, appended `t` to the ledger and
-- one entry to the audit trail, and kept all else.
pub record Posted (m : Movement) (delta q : ℤ) (s : Session) (t : StockTransaction) (s' : Session)
    : Type 0 where
  pub quantities : Sets (movement_key m) q s.db s'.db
  pub ledger : s'.db.stock_transactions ≡ s.db.stock_transactions ++ t ∷ []
  pub row : t ≡ ledger_row m delta q t.id s.now
  pub fits : InInt32 q
  pub transfers : s'.db.stock_transfers ≡ s.db.stock_transfers
  pub audited :
      (id : ℕ) × (s'.db.audit_logs ≡ s.db.audit_logs ++ log_row (ledger_entry m t) id s.now ∷ [])
  pub elsewhere : SameElsewhere s.db s'.db
  pub saved : s'.saved ≡ s.saved
  pub instant : s'.now ≡ s.now

-- The ledger row of a quantity that the table already holds.
pub write_ledger_row-Posted :
    (m : Movement) (delta q : ℤ) (s : Session) (next_id : ℕ) (levels : List StockLevel)
    → Sets (movement_key m) q s.db (record (s.db) { stock_levels = levels })
    → Ensures (Posted m delta q s) (write_ledger_row m delta q (with_levels s next_id levels))
unfolding write_ledger_row
write_ledger_row-Posted m delta q s next_id levels h =
    elim (Bool-cases (in_int32 delta && in_int32 q)) [
      | inr large ↦ rw large tt
      | inl fit ↦ rw fit (record {
        quantities = h;
        ledger = refl;
        row = refl;
        fits = in_int32-InInt32 q (&&-right _ _ fit);
        transfers = refl;
        audited = (next_id + 1, refl);
        elsewhere = refl;
        saved = refl;
        instant = refl;
      })
    ]

-- The policy is checked on the quantity that the statement has returned.
checked-Posted :
    (m : Movement) (product : Product) (delta q : ℤ) (s : Session) (next_id : ℕ)
    (levels : List StockLevel)
    → Sets (movement_key m) q s.db (record (s.db) { stock_levels = levels })
    → Ensures
        (λ t s'. Posted m delta q s t s' × Allows product q)
        ((check_policy product q >> write_ledger_row m delta q) (with_levels s next_id levels))
unfolding check_policy
checked-Posted m product delta q s next_id levels h = elim (Bool-cases product.track_inventory) [
  | inr untracked ↦ rw untracked tt
  | inl tracked ↦
      rw tracked (elim (Bool-cases (ltb_ℤ q (pos 0) && not product.allow_negative_stock)) [
        | inl negative ↦ rw negative tt
        | inr allowed ↦ rw allowed (
            Ensures-weaken _ (Posted m delta q s) _
              (write_ledger_row-Posted m delta q s next_id levels h)
              λ t s' posted. (posted, (refl, ground arith)))
      ])
]

-- the same, with the quantity under another name
checked-Posted_eq :
    (m : Movement) (product : Product) (delta q q' : ℤ) (s : Session) (next_id : ℕ)
    (levels : List StockLevel)
    → q ≡ q'
    → Sets (movement_key m) q s.db (record (s.db) { stock_levels = levels })
    → Ensures
        (λ t s'. Posted m delta q' s t s' × Allows product q')
        ((check_policy product q >> write_ledger_row m delta q) (with_levels s next_id levels))
checked-Posted_eq m product delta q q' s next_id levels e h =
    subst
      (λ x.
        Ensures (λ t s'. Posted m delta x s t s' × Allows product x)
          ((check_policy product q >> write_ledger_row m delta q) (with_levels s next_id levels)))
      e (checked-Posted m product delta q s next_id levels h)

-- A movement moves the balance of its key by `delta`, if the policy allows the sum.
pub record_delta_movement-Posted :
    (m : Movement) (product : Product) (delta : ℤ) (s : Session)
    → let q = quantity_of (movement_key m) s.db.stock_levels +ℤ delta in
      Ensures
        (λ t s'. Posted m delta q s t s' × Allows product q)
        (record_delta_movement m product delta s)
unfolding record_delta_movement
record_delta_movement-Posted m product delta s =
    let k = movement_key m in
    let q' = quantity_of k s.db.stock_levels +ℤ delta in
    let Q = λ (t : StockTransaction) (s' : Session). Posted m delta q' s t s' × Allows product q' in
    let s₁ : Session = record s { next_id = s.next_id + 1 } in
    Ensures-run Q _ _ s s.next_id s₁ refl (
      Ensures-bind Q (Upserted k delta s₁) _ _ s₁ (upsert_delta-Upserted s.next_id k delta s₁)
        λ q s' u. rw u.1 (checked-Posted_eq m product delta q q' s (s.next_id + 1) u.0 u.3 u.2))
