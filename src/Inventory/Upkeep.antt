-- ===== src/Inventory/Upkeep.antt =====
-- What every movement of backend/app/modules/inventory/service.py keeps, any sequence of requests keeps.
use retail_os.Inventory.Atomic.{perform-Keeps}
use retail_os.Core.Keeps.{get_db_session-invariant, IsCommitted}
use retail_os.Core.Time.{DateTime}
use retail_os.Inventory.Requests.{serve, Operation, serve_all, perform}
use retail_os.Inventory.Transferring.{with_header, transfer-Transferred}
use retail_os.Inventory.Posting.{adjust-Counts, issue-Moves, receive-Moves}
use retail_os.Core.Ensures.{Ensures-bind, Ensures-weaken, Ensures}
use retail_os.Inventory.Effects.{Posted}
use retail_os.Inventory.Models.{StockTransaction}
use retail_os.Core.Session.{Session}
use retail_os.Prelude.{sym, subst, [], ◌∷◌, List, refl, ◌≡◌}
use retail_os.Inventory.Balance.{quantity_of}
use retail_os.Inventory.Operations.{transfer, TransferRequest}
use retail_os.Prelude.Int.{int_laws, ◌-ℤ◌, ◌+ℤ◌, ℤ}
use retail_os.Inventory.Service.{movement_key, Movement}
use retail_os.Core.Db.{Db}
use retail_os.Inventory.Models.{StockTransfer}

count_delta : (c p : ℤ) → c ≡ p +ℤ (c -ℤ p)
count_delta c p = omega int_laws

-- `P` does not look at the headers of transfers, and each posted movement keeps it.
module _ (P : Db → Type 0)
    (headers : (db : Db) (x : List StockTransfer) → P db → P (record db { stock_transfers = x }))
    (step : (m : Movement) (d q : ℤ) (s : Session) (t : StockTransaction) (s' : Session)
      → Posted m d q s t s'
      → q ≡ quantity_of (movement_key m) s.db.stock_levels +ℤ d
      → P s.db
      → P s'.db) where
  abbrev Kept : {A : Type 0} → A → Session → Type 0
  Kept _ s' = P s'.db

  transfer-keeps : (r : TransferRequest) (s : Session) → P s.db → Ensures Kept (transfer r s)
  transfer-keeps r s b = Ensures-weaken Kept _ _ (transfer-Transferred r s) λ x s' h.
      step _ _ _ h.middle h.second s' h.second_posted.0 refl
        (step _ _ _ (with_header r s) h.first h.middle h.first_posted.0 refl (headers s.db _ b))

  perform-keeps : (op : Operation) (s : Session) → P s.db → Ensures Kept (perform op s)
  unfolding perform
  perform-keeps (Operation.stock_in r) s b =
      Ensures-bind _ _ _ _ s (receive-Moves r s) λ t s' h. step _ _ _ s t s' h.1.1.0 refl b
  perform-keeps (Operation.stock_out r) s b =
      Ensures-bind _ _ _ _ s (issue-Moves r s) λ t s' h. step _ _ _ s t s' h.1.1.0 refl b
  perform-keeps (Operation.adjustment r) s b =
      Ensures-bind _ _ _ _ s (adjust-Counts r s)
        λ t s' h. step _ _ _ s t s' h.1.0 (count_delta _ _) b
  perform-keeps (Operation.transfer r) s b =
      Ensures-bind _ Kept _ _ s (transfer-keeps r s b) λ _ _ h. h

  serve-keeps :
      (now : DateTime) (op : Operation) (s : Session)
      → IsCommitted s
      → P s.saved
      → IsCommitted (serve (now, op) s) × P (serve (now, op) s).saved
  unfolding serve
  serve-keeps now op s c b =
      let s₀ : Session = record s { now = now } in
      get_db_session-invariant P (perform op) s₀ (perform-Keeps op)
        (perform-keeps op s₀ (subst P (sym c) b)) b

  pub serve_all-keeps :
      (xs : List (DateTime × Operation)) (s : Session)
      → IsCommitted s
      → P s.saved
      → IsCommitted (serve_all xs s) × P (serve_all xs s).saved
  unfolding serve_all
  serve_all-keeps [] s c b = (c, b)
  serve_all-keeps (x ∷ xs) s c b =
      let h = serve-keeps x.0 x.1 s c b in serve_all-keeps xs (serve x s) h.0 h.1
