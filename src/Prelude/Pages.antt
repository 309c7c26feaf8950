-- ===== src/Prelude/Pages.antt =====
-- LIMIT and the rows behind it, and what holds of every row of a SELECT with its ORDER BY.
use retail_os.Prelude.{
  ltb, ◌&&◌, ℕ, zero, suc, Bool, true, Option, none, some, List, [], ◌∷◌, ◌≡◌, refl, ap, subst,
  arith, inl, inr, Bool-cases, ◌≤◌, ◌+◌, ◌++◌,
}
use retail_os.Prelude.Rows.{All, insert_sorted, order_by, select_all, take, length}

module _ {A : Type 0} where
  abbrev pub drop : ℕ → List A → List A
  drop zero xs = xs
  drop (suc n) [] = []
  drop (suc n) (x ∷ xs) = drop n xs

  abbrev pub last : List A → Option A
  last [] = none
  last (x ∷ []) = some x
  last (x ∷ y ∷ ys) = last (y ∷ ys)

  pub All-select_all :
      (P : A → Type 0) (p : A → Bool) (xs : List A) → All P xs → All P (select_all p xs)
  All-select_all P p [] h = tt
  All-select_all P p (x ∷ xs) h = elim (Bool-cases (p x)) [
    | inl e ↦ rw e (h.0, All-select_all P p xs h.1)
    | inr e ↦ rw e (All-select_all P p xs h.1)
  ]

  pub select_all-holds : (p : A → Bool) (xs : List A) → All (λ x. p x ≡ true) (select_all p xs)
  select_all-holds p [] = tt
  select_all-holds p (x ∷ xs) = elim (Bool-cases (p x)) [
    | inl e ↦ rw e (e, select_all-holds p xs)
    | inr e ↦ rw e (select_all-holds p xs)
  ]

  pub All-take : (P : A → Type 0) (n : ℕ) (xs : List A) → All P xs → All P (take n xs)
  All-take P zero xs h = tt
  All-take P (suc n) [] h = tt
  All-take P (suc n) (x ∷ xs) h = (h.0, All-take P n xs h.1)

  pub All-insert_sorted :
      (P : A → Type 0) (before : A → A → Bool) (x : A) (xs : List A)
      → P x
      → All P xs
      → All P (insert_sorted before x xs)
  All-insert_sorted P before x [] px h = (px, tt)
  All-insert_sorted P before x (y ∷ ys) px h = elim (Bool-cases (before x y)) [
    | inl e ↦ rw e (px, h)
    | inr e ↦ rw e (h.0, All-insert_sorted P before x ys px h.1)
  ]

  pub All-order_by :
      (P : A → Type 0) (before : A → A → Bool) (xs : List A) → All P xs → All P (order_by before xs)
  All-order_by P before [] h = tt
  All-order_by P before (x ∷ xs) h =
      All-insert_sorted P before x (order_by before xs) h.0 (All-order_by P before xs h.1)

  pub last-All : (P : A → Type 0) (xs : List A) (x : A) → All P xs → last xs ≡ some x → P x
  last-All P [] x h e = cc
  last-All P (y ∷ []) x h e = subst P (cc e) h.0
  last-All P (y ∷ z ∷ zs) x h e = last-All P (z ∷ zs) x h.1 e

  pub length-take : (n : ℕ) (xs : List A) → length (take n xs) ≤ n
  length-take zero xs = omega arith
  length-take (suc n) [] = omega arith
  length-take (suc n) (x ∷ xs) = ground (arith, length-take n xs)

  pub length-drop : (n : ℕ) (xs : List A) → n ≤ length xs → length (drop n xs) + n ≡ length xs
  length-drop zero xs h = omega arith
  length-drop (suc n) [] h = omega arith
  length-drop (suc n) (x ∷ xs) h = ground (arith, length-drop n xs (omega arith))

  pub take-drop : (n : ℕ) (xs : List A) → take n xs ++ drop n xs ≡ xs
  take-drop zero xs = refl
  take-drop (suc n) [] = refl
  take-drop (suc n) (x ∷ xs) = ap (λ ys. x ∷ ys) (take-drop n xs)

  pub take-all : (n : ℕ) (xs : List A) → length xs ≤ n → take n xs ≡ xs
  take-all zero [] h = refl
  take-all zero (x ∷ xs) h = absurd (omega arith)
  take-all (suc n) [] h = refl
  take-all (suc n) (x ∷ xs) h = ap (λ ys. x ∷ ys) (take-all n xs (omega arith))

  pub select_all-same :
      (p q : A → Bool) (xs : List A) → ((x : A) → p x ≡ q x) → select_all p xs ≡ select_all q xs
  select_all-same p q [] h = refl
  select_all-same p q (x ∷ xs) h = rw (h x, select_all-same p q xs h) refl

  -- two conditions of a WHERE, one after the other
  pub select_all-both :
      (p q : A → Bool) (xs : List A)
      → select_all (λ x. p x && q x) xs ≡ select_all q (select_all p xs)
  select_all-both p q [] = refl
  select_all-both p q (x ∷ xs) = elim (Bool-cases (p x)) [
    | inl e ↦ elim (Bool-cases (q x)) [
      | inl f ↦ rw (e, f, select_all-both p q xs) refl
      | inr f ↦ rw (e, f) (select_all-both p q xs)
    ]
    | inr e ↦ rw e (select_all-both p q xs)
  ]

  pub last-none : (xs : List A) → last xs ≡ none → length xs ≡ 0
  last-none [] e = refl
  last-none (x ∷ []) e = cc
  last-none (x ∷ y ∷ ys) e = absurd (omega (arith, last-none (y ∷ ys) e))

  pub length-take_less : (n : ℕ) (xs : List A) → n ≤ length xs → length (take n xs) ≡ n
  length-take_less zero xs h = refl
  length-take_less (suc n) [] h = omega arith
  length-take_less (suc n) (x ∷ xs) h = ground (arith, length-take_less n xs (omega arith))

  -- One row more than the page tells whether there are more rows.
  pub take_again : (n : ℕ) (xs : List A) → take n (take (suc n) xs) ≡ take n xs
  take_again zero xs = refl
  take_again (suc n) [] = refl
  take_again (suc n) (x ∷ xs) = ap (λ ys. x ∷ ys) (take_again n xs)

  pub ltb-length-take : (n : ℕ) (xs : List A) → ltb n (length (take (suc n) xs)) ≡ ltb n (length xs)
  ltb-length-take zero [] = refl
  ltb-length-take zero (x ∷ xs) = ground arith
  ltb-length-take (suc n) [] = refl
  ltb-length-take (suc n) (x ∷ xs) = ground (arith, ltb-length-take n xs)

  pub append_nil : (xs : List A) → xs ++ [] ≡ xs
  append_nil [] = refl
  append_nil (x ∷ xs) = ap (λ ys. x ∷ ys) (append_nil xs)

  pub select_all-always : (xs : List A) → select_all (λ _. true) xs ≡ xs
  select_all-always [] = refl
  select_all-always (x ∷ xs) = ap (λ ys. x ∷ ys) (select_all-always xs)
