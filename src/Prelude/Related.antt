-- ===== src/Prelude/Related.antt =====
-- Lists that are related row by row, and the SELECTs when one row is appended.
use retail_os.Prelude.Rows.{select_all, select_one, any}
use retail_os.Prelude.{
  refl, inr, ap, inl, Bool-cases, some, ◌≡◌, ◌++◌, Bool, List, true, false, [], ◌∷◌,
}

-- two lists of one length, related row by row
abbrev pub Related {ℓ κ} : {A : Type ℓ} {B : Type κ} → (A → B → Type 0) → List A → List B → Type 0
Related R [] [] = Unit
Related R (x ∷ xs) (y ∷ ys) = R x y × Related R xs ys
Related R _ _ = ⊥

pub Related-append :
    {A B : Type 0} (R : A → B → Type 0) (xs : List A) (ys : List B) (x : A) (y : B)
    → Related R xs ys
    → R x y
    → Related R (xs ++ x ∷ []) (ys ++ y ∷ [])
Related-append R [] [] x y h r = (r, tt)
Related-append R [] (b ∷ bs) x y h r = absurd h
Related-append R (a ∷ rest) [] x y h r = absurd h
Related-append R (a ∷ rest) (b ∷ bs) x y h r = (h.0, Related-append R rest bs x y h.1 r)

module _ {A : Type 0} (p : A → Bool) where
  pub select_all-append_in :
      (xs : List A) (x : A) → p x ≡ true → select_all p (xs ++ x ∷ []) ≡ select_all p xs ++ x ∷ []
  select_all-append_in [] x h = rw h refl
  select_all-append_in (y ∷ ys) x h = elim (Bool-cases (p y)) [
    | inl e ↦ rw e (ap (λ zs. y ∷ zs) (select_all-append_in ys x h))
    | inr e ↦ rw e (select_all-append_in ys x h)
  ]

  pub select_all-append_out :
      (xs : List A) (x : A) → p x ≡ false → select_all p (xs ++ x ∷ []) ≡ select_all p xs
  select_all-append_out [] x h = rw h refl
  select_all-append_out (y ∷ ys) x h = elim (Bool-cases (p y)) [
    | inl e ↦ rw e (ap (λ zs. y ∷ zs) (select_all-append_out ys x h))
    | inr e ↦ rw e (select_all-append_out ys x h)
  ]

  pub select_all-any_none : (xs : List A) → any p xs ≡ false → select_all p xs ≡ []
  select_all-any_none [] h = refl
  select_all-any_none (y ∷ ys) h = elim (Bool-cases (p y)) [
    | inl e ↦ absurd (cc (rw e at h))
    | inr e ↦ rw e (select_all-any_none ys (rw e at h))
  ]

  pub select_one-append :
      (xs : List A) (x y : A) → select_one p xs ≡ some y → select_one p (xs ++ x ∷ []) ≡ some y
  select_one-append [] x y h = cc
  select_one-append (z ∷ zs) x y h = elim (Bool-cases (p z)) [
    | inl e ↦ rw e (rw e at h)
    | inr e ↦ rw e (select_one-append zs x y (rw e at h))
  ]

  pub select_one-last :
      (xs : List A) (x : A) → any p xs ≡ false → p x ≡ true → select_one p (xs ++ x ∷ []) ≡ some x
  select_one-last [] x h e = rw e refl
  select_one-last (z ∷ zs) x h e = elim (Bool-cases (p z)) [
    | inl f ↦ absurd (cc (rw f at h))
    | inr f ↦ rw f (select_one-last zs x (rw f at h) e)
  ]
