-- ===== src/Prelude/Distinct.antt =====
-- Tables under a unique constraint: `taken y x` tells that the key of `y` is the one of `x`.
use retail_os.Prelude.{
  Bool, false, List, [], ◌∷◌, ◌++◌, ◌≡◌, refl, arith, if◌then◌else◌, Bool-cases, inl, inr,
}
use retail_os.Prelude.Rows.{any, any-append, update_where}

module _ {ℓ} {A : Type ℓ} (taken : A → A → Bool) where
  abbrev pub Distinct : List A → Type 0
  Distinct [] = Unit
  Distinct (x ∷ xs) = (any (λ y. taken y x) xs ≡ false) × Distinct xs

  pub Distinct-append :
      (xs : List A) (x : A) → Distinct xs → any (taken x) xs ≡ false → Distinct (xs ++ x ∷ [])
  Distinct-append [] x d free = (refl, tt)
  Distinct-append (y ∷ ys) x d free = (
    rw (any-append (λ z. taken z y) ys (x ∷ [])) (ground (arith, d.0)),
    Distinct-append ys x d.1 (ground arith),
  )

  any-unchanged :
      (p : A → Bool) (f : A → A) (x : A) (ys : List A)
      → ((y z : A) → taken (f y) z ≡ taken y z)
      → ((y z : A) → taken z (f y) ≡ taken z y)
      → any (λ y. taken y (if p x then f x else x)) (update_where p f ys) ≡ any (λ y. taken y x) ys
  any-unchanged p f x [] k l = refl
  any-unchanged p f x (y ∷ ys) k l = rw (any-unchanged p f x ys k l) (elim (Bool-cases (p y)) [
    | inl e ↦
        rw (e, k y (if p x then f x else x))
          (elim (Bool-cases (p x)) [ inl g ↦ rw (g, l x y) refl | inr g ↦ rw g refl ])
    | inr e ↦ rw e (elim (Bool-cases (p x)) [ inl g ↦ rw (g, l x y) refl | inr g ↦ rw g refl ])
  ])

  -- an UPDATE that leaves the key alone
  pub Distinct-update_where :
      (p : A → Bool) (f : A → A) (xs : List A)
      → ((y z : A) → taken (f y) z ≡ taken y z)
      → ((y z : A) → taken z (f y) ≡ taken z y)
      → Distinct xs
      → Distinct (update_where p f xs)
  Distinct-update_where p f [] k l d = tt
  Distinct-update_where p f (x ∷ xs) k l d =
      (rw (any-unchanged p f x xs k l) d.0, Distinct-update_where p f xs k l d.1)
