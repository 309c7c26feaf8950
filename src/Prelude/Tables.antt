-- ===== src/Prelude/Tables.antt =====
-- What holds of every row, and of some row, when rows are added or updated.
use retail_os.Prelude.{Bool, List, [], ◌∷◌, ◌++◌, ◌≡◌, refl, Bool-cases, inl, inr, ap, ◌||◌}
use retail_os.Prelude.Rows.{All, any, update_where}

module _ {ℓ κ} {A : Type ℓ} (P : A → Type κ) where
  pub All-append : (xs ys : List A) → All P xs → All P ys → All P (xs ++ ys)
  All-append [] ys h k = k
  All-append (x ∷ xs) ys h k = (h.0, All-append xs ys h.1 k)

  pub All-update_where :
      (p : A → Bool) (f : A → A) (xs : List A)
      → ((x : A) → P x → P (f x))
      → All P xs
      → All P (update_where p f xs)
  All-update_where p f [] k h = tt
  All-update_where p f (x ∷ xs) k h = elim (Bool-cases (p x)) [
    | inl e ↦ rw e (k x h.0, All-update_where p f xs k h.1)
    | inr e ↦ rw e (h.0, All-update_where p f xs k h.1)
  ]

  pub All-map_to {μ} : (Q : A → Type μ) (xs : List A) → ((x : A) → P x → Q x) → All P xs → All Q xs
  All-map_to Q [] f h = tt
  All-map_to Q (x ∷ xs) f h = (f x h.0, All-map_to Q xs f h.1)

pub any-update_where {ℓ} :
    {A : Type ℓ} (q p : A → Bool) (f : A → A) (xs : List A)
    → ((x : A) → q (f x) ≡ q x)
    → any q (update_where p f xs) ≡ any q xs
any-update_where q p f [] k = refl
any-update_where q p f (x ∷ xs) k = elim (Bool-cases (p x)) [
  | inl e ↦ rw (e, k x) (ap (λ b. q x || b) (any-update_where q p f xs k))
  | inr e ↦ rw e (ap (λ b. q x || b) (any-update_where q p f xs k))
]
