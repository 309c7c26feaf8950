-- ===== src/Inventory/Paging.antt =====
-- The pages of the ledger that `list_page` of backend/app/modules/inventory/repository.py returns.
use retail_os.Core.Returns.{run_eq, run_to}
use retail_os.Core.Session.{◌>>=◌, ok, pure, M, Session}
use retail_os.Csv.Wire.{Text}
use retail_os.Inventory.Cursors.{decode-encode_cursor, IsCodec, encode_cursor, Codecs}
use retail_os.Prelude.Pages.{
  select_all-always, take-drop, length-drop, length-take_less, last-none, append_nil, take-all,
  ltb-length-take, take_again, select_all-same, select_all-holds, All-take, last-All, drop,
  select_all-both, last,
}
use retail_os.Core.Time.{DateTime}
use retail_os.Core.Db.{Db}
use retail_os.Prelude.Rows.{length, take, All, any, order_by, select_all}
use retail_os.Prelude.Distinct.{Distinct}
use retail_os.Inventory.History.{
  RawTransactionPage, list_page, page_of, is_before, asks, stands, selects, TransactionFilter,
  newer,
}
use retail_os.Prelude.{
  Option-cases, ltb, ◌<◌, zero, ◌≤◌, ◌++◌, suc, ◌+◌, ap, sym, ◌∙◌, none, some, Option, refl, ◌⊎◌,
  [], true, inr, inl, false, Bool-cases, ◌≡◌, ◌∷◌, ◌&&◌, arith, ◌==◌, ℕ, List, Bool,
}
use retail_os.Prelude.Sorted.{
  select_all-last, order_by-IsSorted, select_all-IsSorted, order_by-select_all, IsSorted,
  Comparable, IsStrict,
}
use retail_os.Inventory.Models.{StockTransaction}

newer-IsStrict : IsStrict newer
newer-IsStrict = (λ a b e. ground arith, λ a b c e f. ground arith)

-- the primary key of the ledger: no two rows share an id
abbrev pub same_id : StockTransaction → StockTransaction → Bool
same_id a b = a.id == b.id

Distinct-Comparable : (xs : List StockTransaction) → Distinct same_id xs → Comparable newer xs
Distinct-Comparable [] d = tt
Distinct-Comparable (x ∷ xs) d = (others xs d.0, Distinct-Comparable xs d.1)
  where
    others :
        (ys : List StockTransaction)
        → any (λ y. same_id y x) ys ≡ false
        → All (λ y. (newer x y ≡ true) ⊎ (newer y x ≡ true)) ys
    others [] h = tt
    others (y ∷ ys) h = (
      elim (Bool-cases (newer x y)) [ inl e ↦ inl e | inr e ↦ inr (ground arith) ],
      others ys (ground arith),
    )

-- the rows that the filter selects, newest first
abbrev pub history : ℕ → TransactionFilter → Db → List StockTransaction
history company_id filter db =
    order_by newer (select_all (selects company_id filter) db.stock_transactions)

module _ (company_id : ℕ) (filter : TransactionFilter) (db : Db) where
  -- the rows behind a cursor
  abbrev behind : Option (DateTime × ℕ) → List StockTransaction
  behind key = order_by newer (select_all (stands company_id filter key) db.stock_transactions)

  abbrev after : Option (DateTime × ℕ) → StockTransaction → Bool
  after key t = asks key (λ k. is_before k t)

  behind-select_all :
      (key : Option (DateTime × ℕ))
      → Distinct same_id db.stock_transactions
      → behind key ≡ select_all (after key) (history company_id filter db)
  behind-select_all key d =
      let c = Distinct-Comparable db.stock_transactions d in
      rw
        (
          order_by-select_all newer newer-IsStrict (stands company_id filter key)
              db.stock_transactions c,
          order_by-select_all newer newer-IsStrict (selects company_id filter) db.stock_transactions
              c,
        )
        (select_all-both (selects company_id filter) (after key)
          (order_by newer db.stock_transactions))

  history-IsSorted :
      Distinct same_id db.stock_transactions → IsSorted newer (history company_id filter db)
  history-IsSorted d =
      let c = Distinct-Comparable db.stock_transactions d in
      rw
        (order_by-select_all newer newer-IsStrict (selects company_id filter) db.stock_transactions
          c)
        (select_all-IsSorted newer newer-IsStrict _ _
          (order_by-IsSorted newer newer-IsStrict db.stock_transactions c))

  after_trans :
      (key : Option (DateTime × ℕ)) (t x : StockTransaction)
      → after key t ≡ true
      → (after key x && newer t x) ≡ newer t x
  after_trans none t x h = refl
  after_trans (some k) t x h = ground arith

  -- Behind the cursor of a page are the rows behind the page.
  pub behind-last :
      (key : Option (DateTime × ℕ)) (limit : ℕ) (t : StockTransaction)
      → Distinct same_id db.stock_transactions
      → last (take limit (behind key)) ≡ some t
      → behind (some (t.created_at, t.id)) ≡ drop limit (behind key)
  behind-last key limit t d e =
      let H = history company_id filter db in
      let h =
        last-All (λ x. after key x ≡ true) _ t
          (All-take (λ x. after key x ≡ true) limit (behind key)
            (rw (behind-select_all key d) (select_all-holds (after key) H)))
          e in
      behind-select_all (some (t.created_at, t.id)) d
      ∙ sym (select_all-same _ (newer t) H (λ x. after_trans key t x h))
      ∙ select_all-both (after key) (newer t) H
      ∙ select_all-last newer newer-IsStrict limit (select_all (after key) H) t
          (select_all-IsSorted newer newer-IsStrict _ H (history-IsSorted d))
          (rw (behind-select_all key d) at e)
      ∙ ap (drop limit) (sym (behind-select_all key d))

module _ (libs : Codecs) (company_id : ℕ) (filter : TransactionFilter) (limit : ℕ) where
  page_of-take :
      (rows : List StockTransaction)
      → page_of libs limit (take (limit + 1) rows) ≡ page_of libs limit rows
  unfolding page_of
  page_of-take rows =
      let one : limit + 1 ≡ suc limit = omega arith in
      rw (one, take_again limit rows, ltb-length-take limit rows) refl

  abbrev encoded : Option (DateTime × ℕ) → Option Text
  encoded none = none
  encoded (some k) = some (encode_cursor libs k.0 k.1)

  list_page-reads :
      (key : Option (DateTime × ℕ)) (s : Session)
      → IsCodec libs
      → list_page libs company_id filter (encoded key) limit s
        ≡ (ok (page_of libs limit (behind company_id filter s.db key)), s)
  unfolding list_page ◌>>=◌
  list_page-reads none s codec = rw (page_of-take (behind company_id filter s.db none)) refl
  list_page-reads (some k) s codec =
      rw
        (
          decode-encode_cursor libs codec k.0 k.1,
          page_of-take (behind company_id filter s.db (some k)),
        )
        refl

  abbrev pub follow :
      (Option Text → M (List StockTransaction)) → Option Text → M (List StockTransaction)
  follow next none = pure []
  follow next (some cursor) = next (some cursor)

  -- A client that asks for a page and follows the cursors, with `n` requests at most.
  unfoldable pub visit : ℕ → Option Text → M (List StockTransaction)
  visit zero cursor = pure []
  visit (suc n) cursor = do
    page ← list_page libs company_id filter cursor limit
    rest ← follow (visit n) page.next_cursor
    pure (page.items ++ rest)

  visit-page :
      (n : ℕ) (cursor : Option Text) (page : RawTransactionPage) (rest : List StockTransaction)
      (s : Session)
      → list_page libs company_id filter cursor limit s ≡ (ok page, s)
      → follow (visit n) page.next_cursor s ≡ (ok rest, s)
      → visit (suc n) cursor s ≡ (ok (page.items ++ rest), s)
  unfolding visit
  visit-page n cursor page rest s e f = run_to _ _ s page s _ e (run_eq _ _ s rest s f)

  -- Given as many requests as there are rows behind the cursor and one more, every one of them is seen.
  visit-behind :
      (n : ℕ) (key : Option (DateTime × ℕ)) (s : Session)
      → IsCodec libs
      → Distinct same_id s.db.stock_transactions
      → 1 ≤ limit
      → length (behind company_id filter s.db key) < n
      → visit n (encoded key) s ≡ (ok (behind company_id filter s.db key), s)
  unfolding page_of
  visit-behind zero key s codec d l h = absurd (omega arith)
  visit-behind (suc n) key s codec d l h =
      let R = behind company_id filter s.db key in
      let step = λ (rest : List StockTransaction).
        visit-page n (encoded key) (page_of libs limit R) rest s (list_page-reads key s codec) in
      elim (Bool-cases (ltb limit (length R))) [
        | inr e ↦
            step [] (rw e refl)
            ∙ ap (λ xs. (ok xs, s)) (append_nil (take limit R) ∙ take-all limit R (ground arith))
        | inl e ↦ elim (Option-cases (last (take limit R))) [
          | inl f ↦
              absurd
                (omega (arith, last-none (take limit R) f, length-take_less limit R (ground arith)))
          | inr (t, f) ↦
              let b = behind-last company_id filter s.db key limit t d f in
              let rest =
                visit-behind n (some (t.created_at, t.id)) s codec d l
                  (rw b (ground (arith, length-drop limit R (ground arith)))) in
              step (behind company_id filter s.db (some (t.created_at, t.id))) (rw (e, f) rest)
              ∙ ap (λ xs. (ok xs, s)) (rw b (take-drop limit R))
        ]
      ]

  -- A client that asks for the first page and follows the cursors sees every row of the ledger that the
  -- filter selects, once, newest first, as long as no row is written meanwhile; one request more than
  -- there are such rows is enough.
  pub visit-history :
      (n : ℕ) (s : Session)
      → IsCodec libs
      → Distinct same_id s.db.stock_transactions
      → 1 ≤ limit
      → length (history company_id filter s.db) < n
      → visit n none s ≡ (ok (history company_id filter s.db), s)
  visit-history n s codec d l h =
      let H = history company_id filter s.db in
      let all : behind company_id filter s.db none ≡ H =
        behind-select_all company_id filter s.db none d ∙ select_all-always H in
      visit-behind n none s codec d l (rw all h) ∙ ap (λ xs. (ok xs, s)) all
