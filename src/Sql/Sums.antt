-- ===== src/Sql/Sums.antt =====
-- Sums over a table.
use selfhost_models.Prelude.{
  ℕ, ◌+◌, ◌≤◌, ◌≡◌, refl, Bool, true, List, [], ◌∷◌, arith, Bool-cases, inl, inr,
}
use selfhost_models.Sql.{update, insert, total}
use selfhost_models.Sql.Laws.{All}

module _ {A : Type 0} where
  pub total-insert : (g : A → ℕ) (x : A) (xs : List A) → total g (insert x xs) ≡ total g xs + g x
  unfolding total insert
  total-insert g x [] = omega arith
  total-insert g x (y ∷ ys) = omega (arith, total-insert g x ys)

  pub total-plus : (f g : A → ℕ) (xs : List A) → total (λ x. f x + g x) xs ≡ total f xs + total g xs
  unfolding total
  total-plus f g [] = refl
  total-plus f g (x ∷ xs) = omega (arith, total-plus f g xs)

  -- An update of which no row's number grows.
  pub total-update :
      (g : A → ℕ) (p : A → Bool) (f : A → A) (xs : List A)
      → All (λ x. p x ≡ true → g (f x) ≤ g x) xs
      → total g (update p f xs) ≤ total g xs
  unfolding total update
  total-update g p f [] h = omega arith
  total-update g p f (x ∷ xs) h = elim (Bool-cases (p x)) [
    | inl e ↦ rw e (omega (arith, h.0 e, total-update g p f xs h.1))
    | inr e ↦ rw e (omega (arith, total-update g p f xs h.1))
  ]
