-- ===== src/Sql/Laws.antt =====
-- Laws of the statements on one table.
use selfhost_models.Prelude.{
  suc, ◌+◌, ◌≤◌, ◌≡◌, refl, ap, Bool, true, false, none, some, List, [], ◌∷◌, ◌++◌, arith, length,
  length-append, Bool-cases, inl, inr,
}
use selfhost_models.Sql.{select, first, exists, update, delete, insert, count}

-- Every row of the table has the property.
abbrev pub All : {A : Type 0} → (A → Type 0) → List A → Type 0
All P [] = Unit
All P (x ∷ xs) = P x × All P xs

module _ {A : Type 0} (P Q : A → Type 0) where
  pub All-map : (xs : List A) → ((x : A) → P x → Q x) → All P xs → All Q xs
  All-map [] h a = tt
  All-map (x ∷ xs) h a = (h x a.0, All-map xs h a.1)

module _ {A : Type 0} (P : A → Type 0) where
  pub All-append : (xs ys : List A) → All P xs → All P ys → All P (xs ++ ys)
  All-append [] ys a b = b
  All-append (x ∷ xs) ys a b = (a.0, All-append xs ys a.1 b)

  pub All-insert : (x : A) (xs : List A) → P x → All P xs → All P (insert x xs)
  unfolding insert
  All-insert x xs h a = All-append xs (x ∷ []) a (h, tt)

  pub All-select : (p : A → Bool) (xs : List A) → All P xs → All P (select p xs)
  unfolding select
  All-select p [] a = tt
  All-select p (x ∷ xs) a = ground (arith, All-select p xs)

  pub All-delete : (p : A → Bool) (xs : List A) → All P xs → All P (delete p xs)
  unfolding delete
  All-delete p [] a = tt
  All-delete p (x ∷ xs) a = ground (arith, All-delete p xs)

  -- An update may use that its clause holds.
  pub All-update :
      (p : A → Bool) (f : A → A) (xs : List A)
      → ((x : A) → p x ≡ true → P x → P (f x))
      → All P xs
      → All P (update p f xs)
  unfolding update
  All-update p f [] h a = tt
  All-update p f (x ∷ xs) h a = (
    elim (Bool-cases (p x)) [ inl e ↦ rw e (h x e a.0) | inr e ↦ rw e a.0 ],
    All-update p f xs h a.1,
  )

  pub All-first : (p : A → Bool) (xs : List A) {x : A} → All P xs → first p xs ≡ some x → P x
  unfolding first
  All-first p [] a e = cc
  All-first p (y ∷ ys) {x} a e = elim (Bool-cases (p y)) [
    | inl h ↦ ground arith
    | inr h ↦ All-first p ys a.1 (ground arith)
  ]

module _ {A : Type 0} where
  pub first-holds : (p : A → Bool) (xs : List A) {x : A} → first p xs ≡ some x → p x ≡ true
  unfolding first
  first-holds p [] e = cc
  first-holds p (y ∷ ys) {x} e = ground (arith, first-holds p ys {x = x})

  pub exists-first : (p : A → Bool) (xs : List A) {x : A} → first p xs ≡ some x → exists p xs ≡ true
  unfolding first exists
  exists-first p [] e = cc
  exists-first p (y ∷ ys) {x} e = ground (arith, exists-first p ys {x = x})

  pub first-none : (p : A → Bool) (xs : List A) → exists p xs ≡ false → first p xs ≡ none
  unfolding first exists
  first-none p [] e = refl
  first-none p (y ∷ ys) e = ground (arith, first-none p ys)

  pub none-exists : (p : A → Bool) (xs : List A) → first p xs ≡ none → exists p xs ≡ false
  unfolding first exists
  none-exists p [] e = refl
  none-exists p (y ∷ ys) e = elim (Bool-cases (p y)) [
    | inl h ↦ absurd (ground arith)
    | inr h ↦ rw h (none-exists p ys (ground arith))
  ]

  pub exists-some :
      (p : A → Bool) (xs : List A) → exists p xs ≡ true → (x : A) × (first p xs ≡ some x)
  unfolding first exists
  exists-some p [] e = absurd (ground arith)
  exists-some p (y ∷ ys) e = elim (Bool-cases (p y)) [
    | inl h ↦ (y, rw h)
    | inr h ↦ let (x, k) = exists-some p ys (ground arith) in (x, rw h k)
  ]

  -- A clause that holds of no row, row by row.
  pub All-not : (p : A → Bool) (xs : List A) → exists p xs ≡ false → All (λ x. p x ≡ false) xs
  unfolding exists
  All-not p [] e = tt
  All-not p (x ∷ xs) e = (ground arith, All-not p xs (ground arith))

  pub All-holds : (p : A → Bool) (xs : List A) → All (λ x. p x ≡ true) (select p xs)
  unfolding select
  All-holds p [] = tt
  All-holds p (x ∷ xs) = ground (arith, All-holds p xs)

  pub length-insert : (x : A) (xs : List A) → length (insert x xs) ≡ length xs + 1
  unfolding insert
  length-insert x xs = omega (arith, length-append xs (x ∷ []))

  pub length-update : (p : A → Bool) (f : A → A) (xs : List A) → length (update p f xs) ≡ length xs
  unfolding update
  length-update p f [] = refl
  length-update p f (x ∷ xs) = ap suc (length-update p f xs)

  pub length-delete : (p : A → Bool) (xs : List A) → length (delete p xs) ≤ length xs
  unfolding delete
  length-delete p [] = omega arith
  length-delete p (x ∷ xs) = ground (arith, length-delete p xs)

  pub length-select : (p : A → Bool) (xs : List A) → length (select p xs) ≤ length xs
  unfolding select
  length-select p [] = omega arith
  length-select p (x ∷ xs) = ground (arith, length-select p xs)

  pub count-le-length : (p : A → Bool) (xs : List A) → count p xs ≤ length xs
  unfolding count
  count-le-length p xs = length-select p xs

  -- An update that makes its own clause fail leaves no row for which it holds.
  pub All-after-update :
      (p : A → Bool) (f : A → A)
      → ((x : A) → p (f x) ≡ false)
      → (xs : List A) → All (λ x. p x ≡ false) (update p f xs)
  unfolding update
  All-after-update p f h [] = tt
  All-after-update p f h (x ∷ xs) =
      (elim (Bool-cases (p x)) [ inl e ↦ rw e (h x) | inr e ↦ rw e e ], All-after-update p f h xs)
