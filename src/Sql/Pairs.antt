-- ===== src/Sql/Pairs.antt =====
-- Tables any two of whose rows stand in a relation, the earlier row first.
use selfhost_models.Prelude.{suc, length, ap, ◌≡◌, refl, Bool, List, [], ◌∷◌, Bool-cases, inl, inr}
use selfhost_models.Sql.{delete, insert}
use selfhost_models.Sql.Laws.{All, All-map, All-insert, All-delete}
use selfhost_models.Sql.Rows.{Rows}

abbrev pub Pairs : {A : Type 0} → (A → A → Type 0) → List A → Type 0
Pairs R [] = Unit
Pairs R (x ∷ xs) = All (R x) xs × Pairs R xs

module _ {A : Type 0} (R : A → A → Type 0) where
  pub Pairs-insert :
      (y : A) (xs : List A) → All (λ x. R x y) xs → Pairs R xs → Pairs R (insert y xs)
  unfolding insert
  Pairs-insert y [] a s = (tt, tt)
  Pairs-insert y (x ∷ xs) a s = (All-insert (R x) y xs a.0 s.0, Pairs-insert y xs a.1 s.1)

  pub Pairs-delete : (p : A → Bool) (xs : List A) → Pairs R xs → Pairs R (delete p xs)
  unfolding delete
  Pairs-delete p [] s = tt
  Pairs-delete p (x ∷ xs) s = elim (Bool-cases (p x)) [
    | inl e ↦ rw e (Pairs-delete p xs s.1)
    | inr e ↦ rw e (All-delete (R x) p xs s.0, Pairs-delete p xs s.1)
  ]

module _ {A : Type 0} (S : A → A → Type 0) (P Q : A → Type 0) where
  All-Rows : (xs ys : List A) → ((x y : A) → S x y → P x → Q y) → Rows S xs ys → All P xs → All Q ys
  All-Rows [] [] h r a = tt
  All-Rows [] (y ∷ ys) h r a = absurd r
  All-Rows (x ∷ xs) [] h r a = absurd r
  All-Rows (x ∷ xs) (y ∷ ys) h r a = (h x y r.0 a.0, All-Rows xs ys h r.1 a.1)

module _ {A : Type 0} (S : A → A → Type 0) where
  pub length-Rows : (xs ys : List A) → Rows S xs ys → length ys ≡ length xs
  length-Rows [] [] r = refl
  length-Rows [] (y ∷ ys) r = absurd r
  length-Rows (x ∷ xs) [] r = absurd r
  length-Rows (x ∷ xs) (y ∷ ys) r = ap suc (length-Rows xs ys r.1)

module _ {A : Type 0} (R S : A → A → Type 0) where
  pub Pairs-map : (xs : List A) → ((x y : A) → R x y → S x y) → Pairs R xs → Pairs S xs
  Pairs-map [] h s = tt
  Pairs-map (x ∷ xs) h s = (All-map (R x) (S x) xs (h x) s.0, Pairs-map xs h s.1)

  -- Rows that change without the relation noticing.
  pub Pairs-Rows :
      (xs ys : List A)
      → ((x x' y y' : A) → S x x' → S y y' → R x y → R x' y')
      → Rows S xs ys
      → Pairs R xs
      → Pairs R ys
  Pairs-Rows [] [] h r s = tt
  Pairs-Rows [] (y ∷ ys) h r s = absurd r
  Pairs-Rows (x ∷ xs) [] h r s = absurd r
  Pairs-Rows (x ∷ xs) (y ∷ ys) h r s = (
    All-Rows S (R x) (R y) xs ys (λ a b q k. h x y a b r.0 q k) r.1 s.0,
    Pairs-Rows xs ys h r.1 s.1,
  )
