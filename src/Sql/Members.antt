-- ===== src/Sql/Members.antt =====
-- Rows of a table, and tables in the order of a number.
use selfhost_models.Prelude.{
  ℕ, ◌≤◌, ◌<◌, ◌≡◌, ◌∙◌, sym, subst, Bool, true, false, some, List, [], ◌∷◌, arith, Bool-cases, inl,
  inr, ◌⊎◌,
}
use selfhost_models.Sql.{select, first, exists, delete}
use selfhost_models.Sql.Laws.{All, All-select, All-delete}

abbrev pub In : {A : Type 0} → A → List A → Type 0
In x [] = ⊥
In x (y ∷ ys) = (x ≡ y) ⊎ In x ys

module _ {A : Type 0} where
  pub In-All : (P : A → Type 0) (x : A) (xs : List A) → In x xs → All P xs → P x
  In-All P x [] i a = absurd i
  In-All P x (y ∷ ys) (inl e) a = subst P (sym e) a.0
  In-All P x (y ∷ ys) (inr i) a = In-All P x ys i a.1

  pub In-select : (p : A → Bool) (x : A) (xs : List A) → In x (select p xs) → In x xs × (p x ≡ true)
  unfolding select
  In-select p x [] i = absurd i
  In-select p x (y ∷ ys) i = elim (Bool-cases (p y)) [
    | inl e ↦ kept e (λ h. In-select p x ys h) (rw e at i)
    | inr e ↦ let r = In-select p x ys (rw e at i) in (inr r.0, r.1)
  ]
    where
      kept :
          p y ≡ true
          → (In x (select p ys) → In x ys × (p x ≡ true))
          → In x (y ∷ select p ys)
          → In x (y ∷ ys) × (p x ≡ true)
      kept e rec (inl h) = (inl h, subst (λ z. p z ≡ true) (sym h) e)
      kept e rec (inr h) = let r = rec h in (inr r.0, r.1)

  pub select-In : (p : A → Bool) (x : A) (xs : List A) → In x xs → p x ≡ true → In x (select p xs)
  unfolding select
  select-In p x [] i e = i
  select-In p x (y ∷ ys) (inl h) e = rw (subst (λ z. p z ≡ true) h e) (inl h)
  select-In p x (y ∷ ys) (inr i) e = elim (Bool-cases (p y)) [
    | inl k ↦ rw k (inr (select-In p x ys i e))
    | inr k ↦ rw k (select-In p x ys i e)
  ]

  pub first-In : (p : A → Bool) (x : A) (xs : List A) → first p xs ≡ some x → In x xs
  unfolding first
  first-In p x [] e = absurd (ground arith)
  first-In p x (y ∷ ys) e = elim (Bool-cases (p y)) [
    | inl k ↦ inl (ground arith)
    | inr k ↦ inr (first-In p x ys (ground arith))
  ]

  pub not-exists :
      (p : A → Bool) (x : A) (xs : List A) → exists p xs ≡ false → In x xs → p x ≡ false
  unfolding exists
  not-exists p x [] e i = absurd i
  not-exists p x (y ∷ ys) e (inl h) = subst (λ z. p z ≡ false) (sym h) (ground arith)
  not-exists p x (y ∷ ys) e (inr i) = not-exists p x ys (ground arith) i

module _ {A : Type 0} (key : A → ℕ) where
  abbrev pub IsSorted : List A → Type 0
  IsSorted [] = Unit
  IsSorted (x ∷ xs) = All (λ y. key x < key y) xs × IsSorted xs

module _ {A : Type 0} (key : A → ℕ) where
  pub IsSorted-select : (p : A → Bool) (xs : List A) → IsSorted key xs → IsSorted key (select p xs)
  unfolding select
  IsSorted-select p [] s = tt
  IsSorted-select p (x ∷ xs) s = elim (Bool-cases (p x)) [
    | inl e ↦ rw e (All-select _ p xs s.0, IsSorted-select p xs s.1)
    | inr e ↦ rw e (IsSorted-select p xs s.1)
  ]

  pub IsSorted-delete : (p : A → Bool) (xs : List A) → IsSorted key xs → IsSorted key (delete p xs)
  unfolding delete
  IsSorted-delete p [] s = tt
  IsSorted-delete p (x ∷ xs) s = elim (Bool-cases (p x)) [
    | inl e ↦ rw e (IsSorted-delete p xs s.1)
    | inr e ↦ rw e (All-delete _ p xs s.0, IsSorted-delete p xs s.1)
  ]

  -- The first row with a property has the least key of those with it.
  pub first-least :
      (p : A → Bool) (x y : A) (xs : List A)
      → IsSorted key xs
      → first p xs ≡ some x
      → In y xs
      → p y ≡ true
      → key x ≤ key y
  unfolding first
  first-least p x y [] s e i h = absurd i
  first-least p x y (z ∷ zs) s e (inl q) h = ground arith
  first-least p x y (z ∷ zs) s e (inr q) h = elim (Bool-cases (p z)) [
    | inl k ↦ ground (arith, In-All (λ w. key z < key w) y zs q s.0)
    | inr k ↦ first-least p x y zs s.1 (ground arith) q h
  ]

  -- Two rows with one key are one row.
  pub sorted_unique :
      (x y : A) (xs : List A) → IsSorted key xs → In x xs → In y xs → key x ≡ key y → x ≡ y
  sorted_unique x y [] s i j e = absurd i
  sorted_unique x y (z ∷ zs) s (inl p) (inl q) e = p ∙ sym q
  sorted_unique x y (z ∷ zs) s (inl p) (inr j) e =
      absurd (ground (arith, In-All (λ w. key z < key w) y zs j s.0))
  sorted_unique x y (z ∷ zs) s (inr i) (inl q) e =
      absurd (ground (arith, In-All (λ w. key z < key w) x zs i s.0))
  sorted_unique x y (z ∷ zs) s (inr i) (inr j) e = sorted_unique x y zs s.1 i j e
