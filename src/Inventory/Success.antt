-- ===== src/Inventory/Success.antt =====
-- When a movement of backend/app/modules/inventory/service.py goes through.
use retail_os.Inventory.Policy.{request_key, balance}
use retail_os.Company.Models.{Warehouse}
use retail_os.Inventory.Posting.{Target}
use retail_os.Inventory.Operations.{movement, issue, receive, StockRequest}
use retail_os.Core.Returns.{Returns-raise_if, Returns-run, Returns}
use retail_os.Prelude.Rows.{update_where, select_one}
use retail_os.Inventory.Statements.{with_levels}
use retail_os.Inventory.Models.{stock_out, stock_in, MovementType, StockLevel}
use retail_os.Inventory.Balance.{quantity_of}
use retail_os.Inventory.Effects.{Allows}
use retail_os.Prelude.Int.{InInt32-in_int32, neg, InInt32, ◌<ℤ◌, int_laws, pos, ◌+ℤ◌, in_int32, ℤ}
use retail_os.Catalog.Models.{ProductVariant, Product}
use retail_os.Prelude.{
  sym, subst, inr, [], ◌∷◌, ◌++◌, inl, Option-cases, ◌+◌, refl, List, arith, true, ◌≡◌, ℕ,
}
use retail_os.Core.Session.{ok, Session, ◌>>=◌, M}
use retail_os.Inventory.Service.{
  get_variant_and_product, get_warehouse, ledger_row, movement_key, Movement, record_delta_movement,
  write_ledger_row, check_policy,
}
use retail_os.Inventory.StockLevelRepository.{add_quantity, new_level, is_level, Key, upsert_delta}

zero_+ : (d : ℤ) → pos 0 +ℤ d ≡ d
zero_+ d = omega int_laws

upsert_delta-ok :
    (id : ℕ) (k : Key) (d : ℤ) (s : Session)
    → in_int32 d ≡ true
    → in_int32 (quantity_of k s.db.stock_levels +ℤ d) ≡ true
    → (levels : List StockLevel) × (upsert_delta id k d s
        ≡ (ok (quantity_of k s.db.stock_levels +ℤ d), with_levels s s.next_id levels))
unfolding upsert_delta ◌>>=◌
upsert_delta-ok id k d s fd fq = elim (Option-cases (select_one (is_level k) s.db.stock_levels)) [
  | inl e ↦ rw (fd, e) (s.db.stock_levels ++ new_level id k d ∷ [], rw (zero_+ d) refl)
  | inr (l, e) ↦
      rw (fd, e, rw e at fq) (update_where (is_level k) (add_quantity d) s.db.stock_levels, refl)
]

check_policy-ok : (p : Product) (q : ℤ) (s : Session) → Allows p q → check_policy p q s ≡ (ok tt, s)
unfolding check_policy ◌>>=◌
check_policy-ok p q s a = ground arith

write_ledger_row-ok :
    (m : Movement) (d q : ℤ) (s : Session)
    → in_int32 d ≡ true
    → in_int32 q ≡ true
    → (s' : Session) × (write_ledger_row m d q s ≡ (ok (ledger_row m d q s.next_id s.now), s'))
unfolding write_ledger_row ◌>>=◌
write_ledger_row-ok m d q s fd fq = rw (fd, fq) (_, refl)

record_delta_movement-Returns :
    (m : Movement) (p : Product) (d : ℤ) (s : Session)
    → (let q = quantity_of (movement_key m) s.db.stock_levels +ℤ d in
        Allows p q
        → in_int32 d ≡ true
        → in_int32 q ≡ true
        → Returns (record_delta_movement m p d) s)
unfolding record_delta_movement
record_delta_movement-Returns m p d s a fd fq =
    let s₁ : Session = record s { next_id = s.next_id + 1 } in
    let q = quantity_of (movement_key m) s.db.stock_levels +ℤ d in
    let (levels, e) = upsert_delta-ok s.next_id (movement_key m) d s₁ fd fq in
    let s₂ = with_levels s₁ s₁.next_id levels in
    let (s', w) = write_ledger_row-ok m d q s₂ fd fq in
    Returns-run _ _ s s.next_id s₁ refl
      (Returns-run _ _ s₁ q s₂ e (Returns-run _ _ s₂ tt s₂ (check_policy-ok p q s₂ a) (_, s', w)))

module _ (r : StockRequest) (s : Session) (x : Target r s) where
  warehouse_found : get_warehouse r.company_id r.warehouse_id s ≡ (ok x.warehouse, s)
  unfolding get_warehouse ◌>>=◌
  warehouse_found = rw x.finds_warehouse refl

  variant_found :
      get_variant_and_product r.company_id r.product_variant_id s ≡ (ok (x.variant, x.product), s)
  unfolding get_variant_and_product
  variant_found = ground (arith, x.finds_product)

  lookups-Returns :
      {B : Type 0} (f : Warehouse → ProductVariant × Product → M B)
      → Returns (f x.warehouse (x.variant, x.product)) s
      → Returns
          (get_warehouse r.company_id r.warehouse_id >>= λ w.
            get_variant_and_product r.company_id r.product_variant_id >>= f w)
          s
  lookups-Returns f h =
      Returns-run _ _ s x.warehouse s warehouse_found
        (Returns-run _ _ s (x.variant, x.product) s variant_found h)

  -- the movement of the requested balance
  movement-Returns :
      (movement_type : MovementType) (d : ℤ)
      → Allows x.product (balance r s +ℤ d)
      → in_int32 d ≡ true
      → in_int32 (balance r s +ℤ d) ≡ true
      → Returns
          (record_delta_movement (movement r x.warehouse x.variant movement_type) x.product d)
          s
  unfolding balance
  movement-Returns movement_type d a fd fq =
      let m = movement r x.warehouse x.variant movement_type in
      let same = request_key r s x movement_type in
      record_delta_movement-Returns m x.product d s
        (subst (λ k. Allows x.product (quantity_of k s.db.stock_levels +ℤ d)) (sym same) a) fd
        (subst (λ k. in_int32 (quantity_of k s.db.stock_levels +ℤ d) ≡ true) (sym same) fq)

  -- A stock-in of a positive quantity goes through when its warehouse, variant and product are
  -- found, the policy of the product allows the new balance, and both numbers fit their columns.
  pub receive-succeeds :
      pos 0 <ℤ r.quantity
      → Allows x.product (balance r s +ℤ r.quantity)
      → InInt32 r.quantity
      → InInt32 (balance r s +ℤ r.quantity)
      → Returns (receive r) s
  unfolding receive
  receive-succeeds h a fd fq = Returns-raise_if _ _ _ s (ground arith) (
      lookups-Returns _
        (movement-Returns stock_in r.quantity a (InInt32-in_int32 _ fd) (InInt32-in_int32 _ fq)))

  -- A stock-out of a positive quantity goes through when its warehouse, variant and product are
  -- found, the policy of the product allows the new balance, and both numbers fit their columns.
  pub issue-succeeds :
      pos 0 <ℤ r.quantity
      → Allows x.product (balance r s +ℤ neg r.quantity)
      → InInt32 (neg r.quantity)
      → InInt32 (balance r s +ℤ neg r.quantity)
      → Returns (issue r) s
  unfolding issue
  issue-succeeds h a fd fq = Returns-raise_if _ _ _ s (ground arith) (
      lookups-Returns _ (
        movement-Returns stock_out (neg r.quantity) a (InInt32-in_int32 _ fd)
          (InInt32-in_int32 _ fq)))
