-- ===== src/Inventory/Statements.antt =====
-- The two statements on the balances in backend/app/modules/inventory/repository.py: what each has
-- done when it returns.
use retail_os.Prelude.{
  none, some, arith, ℕ, List, ◌≡◌, refl, none, some, [], ◌∷◌, ◌++◌, arith, if◌then◌else◌,
  Option-cases, Bool-cases, inl, inr,
}
use retail_os.Prelude.Int.{ℤ, pos, ◌+ℤ◌, int_laws, in_int32}
use retail_os.Prelude.Rows.{select_one, update_where}
use retail_os.Core.Db.{Db}
use retail_os.Core.Session.{Session}
use retail_os.Core.Ensures.{Ensures}
use retail_os.Inventory.Models.{StockLevel}
use retail_os.Inventory.StockLevelRepository.{
  Key, is_level, new_level, add_quantity, upsert_delta, set_absolute, set_quantity,
}
use retail_os.Inventory.Balance.{quantity_of, same_key, quantity_of-new, quantity_of-update}

-- the balance of `k` is `q`, and all others are as they were
abbrev pub Sets : Key → ℤ → Db → Db → Type 0
Sets k q db db' =
    (j : Key)
    → quantity_of j db'.stock_levels ≡ (if same_key k j then q else quantity_of j db.stock_levels)

-- the session once the balances are written
abbrev pub with_levels : Session → ℕ → List StockLevel → Session
with_levels s next_id levels = record s {
  next_id = next_id;
  db = record (s.db) { stock_levels = levels };
}

-- what `upsert_delta` has done when it returns `q`
abbrev pub Upserted : Key → ℤ → Session → ℤ → Session → Type 0
Upserted k delta s q s' =
    (levels : List StockLevel) × (s' ≡ with_levels s s.next_id levels)
    × Sets k q s.db (record (s.db) { stock_levels = levels })
    × (q ≡ quantity_of k s.db.stock_levels +ℤ delta)

pub upsert_delta-Upserted :
    (id : ℕ) (k : Key) (delta : ℤ) (s : Session)
    → Ensures (Upserted k delta s) (upsert_delta id k delta s)
unfolding upsert_delta
upsert_delta-Upserted id k delta s = elim (Bool-cases (in_int32 delta)) [
  | inr large ↦ rw large tt
  | inl fits ↦ rw fits (elim (Option-cases (select_one (is_level k) s.db.stock_levels)) [
    | inl e ↦ rw e (
      s.db.stock_levels ++ new_level id k delta ∷ [],
      refl,
      λ j. quantity_of-new j k id delta s.db.stock_levels e,
      rw e (omega int_laws),
    )
    | inr (l, e) ↦ rw e (elim (Bool-cases (in_int32 (l.quantity +ℤ delta))) [
      | inr large ↦ rw large tt
      | inl sum_fits ↦ rw sum_fits (
        update_where (is_level k) (add_quantity delta) s.db.stock_levels,
        refl,
        λ j. quantity_of-update (λ x. x +ℤ delta) j k l s.db.stock_levels e,
        rw e refl,
      )
    ])
  ])
]

select_one-new :
    (id : ℕ) (k : Key) (q : ℤ) (levels : List StockLevel)
    → select_one (is_level k) levels ≡ none
    → select_one (is_level k) (levels ++ new_level id k q ∷ []) ≡ some (new_level id k q)
select_one-new id k q [] h = ground arith
select_one-new id k q (l ∷ levels) h = ground (arith, select_one-new id k q levels)

-- what `set_absolute` has done when it returns the previous quantity
abbrev pub Overwritten : Key → ℤ → Session → ℤ → Session → Type 0
Overwritten k q s previous s' =
    (levels : List StockLevel) × (s' ≡ with_levels s s.next_id levels)
    × Sets k q s.db (record (s.db) { stock_levels = levels })
    × (previous ≡ quantity_of k s.db.stock_levels)

pub set_absolute-Overwritten :
    (id : ℕ) (k : Key) (q : ℤ) (s : Session) → Ensures (Overwritten k q s) (set_absolute id k q s)
unfolding set_absolute
set_absolute-Overwritten id k q s = elim (Bool-cases (in_int32 q)) [
  | inr large ↦ rw large tt
  | inl fits ↦ rw fits (
      let levels = s.db.stock_levels in
      elim (Option-cases (select_one (is_level k) levels)) [
        | inl e ↦
            let inserted = levels ++ new_level id k (pos 0) ∷ [] in
            let found = select_one-new id k (pos 0) levels e in
            rw e (
              update_where (is_level k) (set_quantity q) inserted,
              refl,
              (λ j. ground (
                arith,
                quantity_of-update (λ x. q) j k _ inserted found,
                quantity_of-new j k id (pos 0) levels e,
              )),
              rw found refl,
            )
        | inr (l, e) ↦ rw e (
          update_where (is_level k) (set_quantity q) levels,
          refl,
          (λ j. quantity_of-update (λ x. q) j k l levels e),
          rw e refl,
        )
      ])
]
