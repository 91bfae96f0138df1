-- ===== src/Sql/Rows.antt =====
-- Two versions of a table, row by row.
use selfhost_models.Prelude.{◌≡◌, Bool, true, false, List, [], ◌∷◌, Bool-cases, inl, inr}
use selfhost_models.Sql.{update}
use selfhost_models.Sql.Laws.{All}

abbrev pub Rows : {A : Type 0} → (A → A → Type 0) → List A → List A → Type 0
Rows R [] [] = Unit
Rows R (x ∷ xs) (y ∷ ys) = R x y × Rows R xs ys
Rows R _ _ = ⊥

module _ {A : Type 0} (R : A → A → Type 0) where
  pub Rows-refl : ((x : A) → R x x) → (xs : List A) → Rows R xs xs
  Rows-refl h [] = tt
  Rows-refl h (x ∷ xs) = (h x, Rows-refl h xs)

  pub Rows-trans :
      ((x y z : A) → R x y → R y z → R x z)
      → (xs ys zs : List A) → Rows R xs ys
      → Rows R ys zs
      → Rows R xs zs
  Rows-trans h [] [] [] a b = tt
  Rows-trans h [] [] (z ∷ zs) a b = b
  Rows-trans h [] (y ∷ ys) zs a b = absurd a
  Rows-trans h (x ∷ xs) [] zs a b = absurd a
  Rows-trans h (x ∷ xs) (y ∷ ys) [] a b = absurd b
  Rows-trans h (x ∷ xs) (y ∷ ys) (z ∷ zs) a b = (h x y z a.0 b.0, Rows-trans h xs ys zs a.1 b.1)

  pub Rows-update :
      (p : A → Bool) (f : A → A) (xs : List A)
      → ((x : A) → p x ≡ true → R x (f x))
      → ((x : A) → p x ≡ false → R x x)
      → Rows R xs (update p f xs)
  unfolding update
  Rows-update p f [] h k = tt
  Rows-update p f (x ∷ xs) h k = (
    elim (Bool-cases (p x)) [ inl e ↦ rw e (h x e) | inr e ↦ rw e (k x e) ],
    Rows-update p f xs h k,
  )

module _ {A : Type 0} (R : A → A → Type 0) (P : A → Type 0) where
  pub Rows-All :
      (xs ys : List A) → ((x y : A) → R x y → P x → P y) → Rows R xs ys → All P xs → All P ys
  Rows-All [] [] h r a = tt
  Rows-All [] (y ∷ ys) h r a = absurd r
  Rows-All (x ∷ xs) [] h r a = absurd r
  Rows-All (x ∷ xs) (y ∷ ys) h r a = (h x y r.0 a.0, Rows-All xs ys h r.1 a.1)
