-- ===== src/Prelude/Rows.antt =====
-- A table as the list of its rows, in the order in which they were inserted: the SELECT, the
-- conditional UPDATE with its row count, and lists measured by the native numbers.
use retail_os.Prelude.{map, ◌&&◌, ◌++◌, ap, refl, arith}
use Prim.Native.Nat.{ℕ, zero, suc, ◌+◌}
use mathlib.Core.Bool.{Bool, true, false, ◌||◌}
use mathlib.Core.Option.{Option, none, some}
use mathlib.Core.List.{List, [], ◌∷◌}
use mathlib.Core.Path.{◌≡◌, subst}
use mathlib.Core.Logic.{inl, inr}
use retail_os.Prelude.Tests.{if◌then◌else◌, Bool-cases}

module _ {ℓ} {A : Type ℓ} where
  abbrev pub length : List A → ℕ
  length [] = 0
  length (x ∷ xs) = suc (length xs)

  abbrev pub take : ℕ → List A → List A
  take zero xs = []
  take (suc n) [] = []
  take (suc n) (x ∷ xs) = x ∷ take n xs

  -- the one row that a WHERE over a unique key selects
  abbrev pub select_one : (A → Bool) → List A → Option A
  select_one p [] = none
  select_one p (x ∷ xs) = if p x then some x else select_one p xs

  -- every row that a WHERE selects
  abbrev pub select_all : (A → Bool) → List A → List A
  select_all p [] = []
  select_all p (x ∷ xs) = if p x then x ∷ select_all p xs else select_all p xs

  abbrev pub update_where : (A → Bool) → (A → A) → List A → List A
  update_where p f [] = []
  update_where p f (x ∷ xs) = (if p x then f x else x) ∷ update_where p f xs

  -- the `rowcount` of that UPDATE
  abbrev pub affected_rows : (A → Bool) → List A → ℕ
  affected_rows p [] = 0
  affected_rows p (x ∷ xs) = (if p x then 1 else 0) + affected_rows p xs

  abbrev pub any : (A → Bool) → List A → Bool
  any p [] = false
  any p (x ∷ xs) = p x || any p xs

  abbrev pub All {κ} : (A → Type κ) → List A → Type κ
  All P [] = Unit
  All P (x ∷ xs) = P x × All P xs

  -- ORDER BY: `before x y` where `x` may stand in front of `y`
  abbrev pub insert_sorted : (A → A → Bool) → A → List A → List A
  insert_sorted before x [] = x ∷ []
  insert_sorted before x (y ∷ ys) = if before x y then x ∷ y ∷ ys else y ∷ insert_sorted before x ys

  abbrev pub order_by : (A → A → Bool) → List A → List A
  order_by before [] = []
  order_by before (x ∷ xs) = insert_sorted before x (order_by before xs)

  pub select_one-holds :
      (p : A → Bool) (xs : List A) (x : A) → select_one p xs ≡ some x → p x ≡ true
  select_one-holds p [] x h = cc
  select_one-holds p (y ∷ ys) x h = elim (Bool-cases (p y)) [
    | inl e ↦ subst (λ z. p z ≡ true) (cc (rw e at h)) e
    | inr e ↦ select_one-holds p ys x (rw e at h)
  ]

  -- an UPDATE that selects no row
  pub update_where-none :
      (p : A → Bool) (f : A → A) (xs : List A) → affected_rows p xs ≡ 0 → update_where p f xs ≡ xs
  update_where-none p f [] h = refl
  update_where-none p f (x ∷ xs) h = elim (Bool-cases (p x)) [
    | inl e ↦ absurd (ground (arith, rw e at h))
    | inr e ↦ rw e (ap (λ ys. x ∷ ys) (update_where-none p f xs (ground (arith, rw e at h))))
  ]

  -- an UPDATE after which its condition selects nothing
  pub select_all-update_where :
      (p : A → Bool) (f : A → A) (xs : List A)
      → ((x : A) → p x ≡ true → p (f x) ≡ false)
      → select_all p (update_where p f xs) ≡ []
  select_all-update_where p f [] h = refl
  select_all-update_where p f (x ∷ xs) h = elim (Bool-cases (p x)) [
    | inl e ↦ rw (e, h x e) (select_all-update_where p f xs h)
    | inr e ↦ rw (e, e) (select_all-update_where p f xs h)
  ]

  test-change :
      (q p : A → Bool) (f : A → A) (y : A)
      → ((x : A) → q (f x) ≡ q x)
      → q (if p y then f y else y) ≡ q y
  test-change q p f y k = elim (Bool-cases (p y)) [ inl e ↦ rw e (k y) | inr e ↦ rw e refl ]

  -- an UPDATE of rows that stay selected
  pub select_one-update_where :
      (q p : A → Bool) (f : A → A) (xs : List A) (x : A)
      → ((y : A) → q (f y) ≡ q y)
      → select_one q xs ≡ some x
      → select_one q (update_where p f xs) ≡ some (if p x then f x else x)
  select_one-update_where q p f [] x k h = cc
  select_one-update_where q p f (y ∷ ys) x k h = elim (Bool-cases (q y)) [
    | inl g ↦
        rw (test-change q p f y k, g)
          (subst (λ z. some (if p y then f y else y) ≡ some (if p z then f z else z))
            (cc (rw g at h)) refl)
    | inr g ↦ rw (test-change q p f y k, g) (select_one-update_where q p f ys x k (rw g at h))
  ]

  pub select_one-append :
      (q : A → Bool) (xs ys : List A) (x : A)
      → select_one q xs ≡ some x
      → select_one q (xs ++ ys) ≡ some x
  select_one-append q [] ys x h = cc
  select_one-append q (z ∷ xs) ys x h = elim (Bool-cases (q z)) [
    | inl e ↦ rw e (rw e at h)
    | inr e ↦ rw e (select_one-append q xs ys x (rw e at h))
  ]

  pub select_one-appended :
      (q : A → Bool) (xs : List A) (y : A)
      → any q xs ≡ false
      → q y ≡ true
      → select_one q (xs ++ y ∷ []) ≡ some y
  select_one-appended q [] y h e = rw e refl
  select_one-appended q (z ∷ xs) y h e = elim (Bool-cases (q z)) [
    | inl g ↦ absurd (cc (rw g at h))
    | inr g ↦ rw g (select_one-appended q xs y (rw g at h) e)
  ]

  pub All-select_one {κ} :
      (P : A → Type κ) (q : A → Bool) (xs : List A) (x : A)
      → All P xs
      → select_one q xs ≡ some x
      → P x
  All-select_one P q [] x ps h = absurd (cc h)
  All-select_one P q (y ∷ ys) x (p, ps) h = elim (Bool-cases (q y)) [
    | inl e ↦ subst P (cc (rw e at h)) p
    | inr e ↦ All-select_one P q ys x ps (rw e at h)
  ]

  pub any-append : (p : A → Bool) (xs ys : List A) → any p (xs ++ ys) ≡ (any p xs || any p ys)
  any-append p [] ys = refl
  any-append p (x ∷ xs) ys = elim (Bool-cases (p x)) [
    | inl e ↦ rw e refl
    | inr e ↦ rw e (any-append p xs ys)
  ]

  pub any-select_all :
      (p q : A → Bool) (xs : List A) → any p (select_all q xs) ≡ any (λ x. q x && p x) xs
  any-select_all p q [] = refl
  any-select_all p q (x ∷ xs) = elim (Bool-cases (q x)) [
    | inl e ↦ rw e (ap (λ b. p x || b) (any-select_all p q xs))
    | inr e ↦ rw e (any-select_all p q xs)
  ]

module _ {ℓ} {A : Type ℓ} where
  pub any-affected : (p : A → Bool) (xs : List A) → affected_rows p xs ≡ 0 → any p xs ≡ false
  any-affected p [] h = refl
  any-affected p (x ∷ xs) h = elim (Bool-cases (p x)) [
    | inl e ↦ absurd (ground (arith, rw e at h))
    | inr e ↦ rw e (any-affected p xs (ground (arith, rw e at h)))
  ]

  -- an UPDATE after which its condition selects nothing, by the row count
  pub affected_rows-update_where :
      (p : A → Bool) (f : A → A) (xs : List A)
      → ((x : A) → p x ≡ true → p (f x) ≡ false)
      → affected_rows p (update_where p f xs) ≡ 0
  affected_rows-update_where p f [] h = refl
  affected_rows-update_where p f (x ∷ xs) h = elim (Bool-cases (p x)) [
    | inl e ↦ rw (e, h x e, affected_rows-update_where p f xs h) refl
    | inr e ↦ rw (e, e, affected_rows-update_where p f xs h) refl
  ]

pub any-map {ℓ κ} :
    {A : Type ℓ} {B : Type κ} (p : A → Bool) (f : B → A) (xs : List B)
    → any p (map f xs) ≡ any (λ x. p (f x)) xs
any-map p f [] = refl
any-map p f (x ∷ xs) = ap (λ b. p (f x) || b) (any-map p f xs)
