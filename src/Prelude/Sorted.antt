-- ===== src/Prelude/Sorted.antt =====
-- ORDER BY on a key that no two rows share: the order is strict.
use retail_os.Prelude.{
  ℕ, zero, suc, Bool, true, false, some, List, [], ◌∷◌, ◌≡◌, refl, sym, subst, inl, inr, ◌⊎◌,
  if◌then◌else◌, Bool-cases,
}
use retail_os.Prelude.Rows.{All, insert_sorted, order_by, select_all, take}
use retail_os.Prelude.Tables.{All-map_to}
use retail_os.Prelude.Pages.{
  drop, last, All-select_all, All-insert_sorted, All-order_by, All-take, last-All,
}

abbrev pub IsStrict : {A : Type 0} → (A → A → Bool) → Type 0
IsStrict {A} before =
    ((a b : A) → before a b ≡ true → before b a ≡ false)
    × ((a b c : A) → before a b ≡ true → before b c ≡ true → before a c ≡ true)

module _ {A : Type 0} (before : A → A → Bool) where
  abbrev pub InFrontOf : A → List A → Type 0
  InFrontOf x xs = All (λ y. before x y ≡ true) xs

  abbrev pub IsSorted : List A → Type 0
  IsSorted [] = Unit
  IsSorted (x ∷ xs) = InFrontOf x xs × IsSorted xs

  -- the key of a row is the key of no other
  abbrev pub Comparable : List A → Type 0
  Comparable [] = Unit
  Comparable (x ∷ xs) = All (λ y. (before x y ≡ true) ⊎ (before y x ≡ true)) xs × Comparable xs

module _ {A : Type 0} (before : A → A → Bool) (strict : IsStrict before) where
  InFrontOf-trans :
      (x y : A) (ys : List A) → before x y ≡ true → InFrontOf before y ys → InFrontOf before x ys
  InFrontOf-trans x y ys e h =
      All-map_to (λ z. before y z ≡ true) (λ z. before x z ≡ true) ys (λ z. strict.1 x y z e) h

  insert_sorted-IsSorted :
      (x : A) (ys : List A)
      → All (λ y. (before x y ≡ true) ⊎ (before y x ≡ true)) ys
      → IsSorted before ys
      → IsSorted before (insert_sorted before x ys)
  insert_sorted-IsSorted x [] h s = (tt, tt)
  insert_sorted-IsSorted x (y ∷ ys) h s = elim h.0 [
    | inl e ↦ rw e ((e, InFrontOf-trans x y ys e s.0), s)
    | inr e ↦ rw (strict.0 y x e) (
      All-insert_sorted (λ z. before y z ≡ true) before x ys e s.0,
      insert_sorted-IsSorted x ys h.1 s.1,
    )
  ]

  pub order_by-IsSorted :
      (xs : List A) → Comparable before xs → IsSorted before (order_by before xs)
  order_by-IsSorted [] h = tt
  order_by-IsSorted (x ∷ xs) h =
      insert_sorted-IsSorted x (order_by before xs)
        (All-order_by (λ y. (before x y ≡ true) ⊎ (before y x ≡ true)) before xs h.0)
        (order_by-IsSorted xs h.1)

  insert_sorted-first :
      (x : A) (ys : List A) → InFrontOf before x ys → insert_sorted before x ys ≡ x ∷ ys
  insert_sorted-first x [] h = refl
  insert_sorted-first x (y ∷ ys) h = rw h.0 refl

  pub select_all-IsSorted :
      (p : A → Bool) (xs : List A) → IsSorted before xs → IsSorted before (select_all p xs)
  select_all-IsSorted p [] h = tt
  select_all-IsSorted p (x ∷ xs) h = elim (Bool-cases (p x)) [
    | inl e ↦ rw e (All-select_all (λ y. before x y ≡ true) p xs h.0, select_all-IsSorted p xs h.1)
    | inr e ↦ rw e (select_all-IsSorted p xs h.1)
  ]

  select_all-insert_sorted :
      (p : A → Bool) (x : A) (ys : List A)
      → IsSorted before ys
      → select_all p (insert_sorted before x ys)
        ≡ (if p x then insert_sorted before x (select_all p ys) else select_all p ys)
  select_all-insert_sorted p x [] s = elim (Bool-cases (p x)) [
    | inl e ↦ rw e refl
    | inr e ↦ rw e refl
  ]
  select_all-insert_sorted p x (y ∷ ys) s = elim (Bool-cases (before x y)) [
    | inl e ↦ elim (Bool-cases (p x)) [
      | inl f ↦
          rw (e, f)
            (sym (
              insert_sorted-first x (select_all p (y ∷ ys)) (
                All-select_all (λ z. before x z ≡ true) p (y ∷ ys)
                  (e, InFrontOf-trans x y ys e s.0))))
      | inr f ↦ rw (e, f) refl
    ]
    | inr e ↦ elim (Bool-cases (p x)) [
      | inl f ↦ elim (Bool-cases (p y)) [
        | inl g ↦ rw (e, f, g, select_all-insert_sorted p x ys s.1) (rw (e, f) refl)
        | inr g ↦ rw (e, f, g, select_all-insert_sorted p x ys s.1) (rw f refl)
      ]
      | inr f ↦ elim (Bool-cases (p y)) [
        | inl g ↦ rw (e, f, g, select_all-insert_sorted p x ys s.1) (rw f refl)
        | inr g ↦ rw (e, f, g, select_all-insert_sorted p x ys s.1) (rw f refl)
      ]
    ]
  ]

  -- A WHERE may be asked before the rows are ordered or after.
  pub order_by-select_all :
      (p : A → Bool) (xs : List A)
      → Comparable before xs
      → order_by before (select_all p xs) ≡ select_all p (order_by before xs)
  order_by-select_all p [] h = refl
  order_by-select_all p (x ∷ xs) h =
      let move = select_all-insert_sorted p x (order_by before xs) (order_by-IsSorted xs h.1) in
      elim (Bool-cases (p x)) [
        | inl e ↦ rw (e, order_by-select_all p xs h.1, move) (rw e refl)
        | inr e ↦ rw (e, order_by-select_all p xs h.1, move) (rw e refl)
      ]

  select_all-All : (p : A → Bool) (xs : List A) → All (λ x. p x ≡ true) xs → select_all p xs ≡ xs
  select_all-All p [] h = refl
  select_all-All p (x ∷ xs) h = rw (h.0, select_all-All p xs h.1) refl

  irreflexive : (x : A) → before x x ≡ false
  irreflexive x = elim (Bool-cases (before x x)) [ inl e ↦ strict.0 x x e | inr e ↦ e ]

  select_all-after :
      (x : A) (ys : List A) → InFrontOf before x ys → select_all (before x) (x ∷ ys) ≡ ys
  select_all-after x ys h = rw (irreflexive x) (select_all-All (before x) ys h)

  -- The rows behind a page are those that come after its last one.
  pub select_all-last :
      (n : ℕ) (xs : List A) (x : A)
      → IsSorted before xs
      → last (take n xs) ≡ some x
      → select_all (before x) xs ≡ drop n xs
  select_all-last zero xs x s e = cc
  select_all-last (suc n) [] x s e = cc
  select_all-last (suc zero) (y ∷ ys) x s e =
      subst (λ z. select_all (before z) (y ∷ ys) ≡ ys) (cc e) (select_all-after y ys s.0)
  select_all-last (suc (suc n)) (y ∷ []) x s e =
      subst (λ z. select_all (before z) (y ∷ []) ≡ []) (cc e) (select_all-after y [] s.0)
  select_all-last (suc (suc n)) (y ∷ z ∷ zs) x s e =
      rw
        (strict.0 y x (
          last-All (λ w. before y w ≡ true) (take (suc n) (z ∷ zs)) x
            (All-take (λ w. before y w ≡ true) (suc n) (z ∷ zs) s.0) e))
        (select_all-last (suc n) (z ∷ zs) x s.1 e)
