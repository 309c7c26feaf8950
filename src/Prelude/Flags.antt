-- ===== src/Prelude/Flags.antt =====
-- Tables in which at most one row of a group carries a flag: taking the flag from the rows of a list,
-- one after the other.
use mathlib.Core.Path.{fun_ext}
use retail_os.Prelude.{
  ap, ◌∙◌, ℕ, ◌+◌, ◌≤◌, Bool, true, false, List, [], ◌∷◌, ◌++◌, ◌≡◌, ◌&&◌, ◌||◌, ◌==◌, refl, arith,
  if◌then◌else◌, Bool-cases, inl, inr,
}
use retail_os.Prelude.Rows.{All, any, affected_rows, update_where, insert_sorted, order_by}

module _ {ℓ} {A : Type ℓ} where
  any-insert_sorted :
      (p : A → Bool) (before : A → A → Bool) (x : A) (xs : List A)
      → any p (insert_sorted before x xs) ≡ (p x || any p xs)
  any-insert_sorted p before x [] = refl
  any-insert_sorted p before x (y ∷ ys) = elim (Bool-cases (before x y)) [
    | inl e ↦ rw e refl
    | inr e ↦ rw (e, any-insert_sorted p before x ys) (ground arith)
  ]

  pub any-order_by :
      (p : A → Bool) (before : A → A → Bool) (xs : List A) → any p (order_by before xs) ≡ any p xs
  any-order_by p before [] = refl
  any-order_by p before (x ∷ xs) =
      rw (any-insert_sorted p before x (order_by before xs), any-order_by p before xs) refl

  All-later :
      (p : A → Bool) (r : A → A → Bool) (y : A) (xs ys : List A)
      → All (λ x. p x ≡ true → any (r x) ys ≡ true) xs
      → All (λ x. p x ≡ true → any (r x) (y ∷ ys) ≡ true) xs
  All-later p r y [] ys h = tt
  All-later p r y (x ∷ xs) ys h = (λ e. ground (arith, h.0 e), All-later p r y xs ys h.1)

  -- each row finds itself
  pub All-any_self :
      (p : A → Bool) (r : A → A → Bool) (xs : List A)
      → ((x : A) → p x ≡ true → r x x ≡ true)
      → All (λ x. p x ≡ true → any (r x) xs ≡ true) xs
  All-any_self p r [] h = tt
  All-any_self p r (x ∷ xs) h =
      (λ e. ground (arith, h x e), All-later p r x xs xs (All-any_self p r xs h))

  pub affected_rows-append :
      (p : A → Bool) (xs : List A) (x : A)
      → affected_rows p (xs ++ x ∷ []) ≡ affected_rows p xs + (if p x then 1 else 0)
  affected_rows-append p [] x = omega arith
  affected_rows-append p (y ∷ ys) x = omega (arith, affected_rows-append p ys x)

module _ {ℓ} {A : Type ℓ} (id_of : A → ℕ) (flagged : A → Bool) where
  abbrev pub is_listed : List A → A → Bool
  is_listed bs x = any (λ b. flagged b && (id_of x == id_of b)) bs

module _ {ℓ} {A : Type ℓ} (id_of : A → ℕ) (flagged : A → Bool) (clear : A → A) where
  -- the loop over the rows of a list: a row with the flag loses it
  abbrev pub unflag_all : List A → List A → List A
  unflag_all [] xs = xs
  unflag_all (b ∷ bs) xs =
      unflag_all bs (if flagged b then update_where (λ x. id_of x == id_of b) clear xs else xs)

module _ {ℓ} {A : Type ℓ} (id_of : A → ℕ) (flagged : A → Bool) (clear : A → A)
    (clear_clear : (x : A) → clear (clear x) ≡ clear x) where
  update_twice :
      (b : A) (bs xs : List A)
      → flagged b ≡ true
      → update_where
          (is_listed id_of flagged bs)
          clear
          (update_where (λ x. id_of x == id_of b) clear xs)
        ≡ update_where (is_listed id_of flagged (b ∷ bs)) clear xs
  update_twice b bs [] e = refl
  update_twice b bs (x ∷ xs) e =
      rw (update_twice b bs xs e, e)
        (elim (Bool-cases (id_of x == id_of b)) [
          | inl g ↦
              rw (g, clear_clear x)
                (elim (Bool-cases (is_listed id_of flagged bs (clear x))) [
                  | inl k ↦ rw k refl
                  | inr k ↦ rw k refl
                ])
          | inr g ↦ rw g refl
        ])

  pub unflag_all-update_where :
      (bs xs : List A)
      → unflag_all id_of flagged clear bs xs ≡ update_where (is_listed id_of flagged bs) clear xs
  unflag_all-update_where [] xs = go xs
    where
      go : (xs : List A) → xs ≡ update_where (is_listed id_of flagged []) clear xs
      go [] = refl
      go (x ∷ xs) = cc (go xs)
  unflag_all-update_where (b ∷ bs) xs = elim (Bool-cases (flagged b)) [
    | inl e ↦ rw e (unflag_all-update_where bs _ ∙ update_twice b bs xs e)
    | inr e ↦ rw e (
        unflag_all-update_where bs xs
        ∙ ap (λ (p : A → Bool). update_where p clear xs) (fun_ext λ x. rw e refl))
  ]

module _ {ℓ} {A : Type ℓ} (flagged : A → Bool) (clear : A → A)
    (flagged_clear : (x : A) → flagged (clear x) ≡ false) (q : A → Bool)
    (q_clear : (x : A) → q (clear x) ≡ q x) where
  abbrev pub count : List A → ℕ
  count = affected_rows (λ x. q x && flagged x)

  -- the flags only get fewer
  pub count-update_where : (p : A → Bool) (xs : List A) → count (update_where p clear xs) ≤ count xs
  count-update_where p [] = omega arith
  count-update_where p (x ∷ xs) = ground (arith, count-update_where p xs, flagged_clear x)

  -- no flag is left in the group when each of its flagged rows is selected
  pub count-none :
      (p : A → Bool) (xs : List A)
      → All (λ x. (q x && flagged x) ≡ true → p x ≡ true) xs
      → count (update_where p clear xs) ≡ 0
  count-none p [] h = refl
  count-none p (x ∷ xs) h = ground (arith, count-none p xs h.1, h.0, flagged_clear x)
