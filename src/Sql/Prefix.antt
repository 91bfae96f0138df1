-- ===== src/Sql/Prefix.antt =====
-- A table that rows were changed in and added to: its old rows stand first, each in a relation to
-- what it was.
use selfhost_models.Prelude.{
  ◌≡◌, refl, sym, subst, ap, none, String, ◌==◌, Bool, true, false, some, List, [], ◌∷◌, Bool-cases,
  inl, inr, arith, eq_iff,
}
use selfhost_models.Sql.{first, update, insert}
use selfhost_models.Sql.Laws.{All, All-map}
use selfhost_models.Sql.Members.{In, In-All}
use selfhost_models.Sql.Pairs.{Pairs}

abbrev pub Prefix : {A : Type 0} → (A → A → Type 0) → List A → List A → Type 0
Prefix R [] ys = Unit
Prefix R (x ∷ xs) [] = ⊥
Prefix R (x ∷ xs) (y ∷ ys) = R x y × Prefix R xs ys

module _ {A : Type 0} (R : A → A → Type 0) where
  pub Prefix-refl : ((x : A) → R x x) → (xs : List A) → Prefix R xs xs
  Prefix-refl h [] = tt
  Prefix-refl h (x ∷ xs) = (h x, Prefix-refl h xs)

  pub Prefix-trans :
      ((x y z : A) → R x y → R y z → R x z)
      → (xs ys zs : List A) → Prefix R xs ys
      → Prefix R ys zs
      → Prefix R xs zs
  Prefix-trans h [] ys zs a b = tt
  Prefix-trans h (x ∷ xs) [] zs a b = absurd a
  Prefix-trans h (x ∷ xs) (y ∷ ys) [] a b = absurd b
  Prefix-trans h (x ∷ xs) (y ∷ ys) (z ∷ zs) a b = (h x y z a.0 b.0, Prefix-trans h xs ys zs a.1 b.1)

  pub Prefix-insert : ((x : A) → R x x) → (y : A) (xs : List A) → Prefix R xs (insert y xs)
  unfolding insert
  Prefix-insert h y [] = tt
  Prefix-insert h y (x ∷ xs) = (h x, Prefix-insert h y xs)

  pub Prefix-update :
      (p : A → Bool) (f : A → A) (xs : List A)
      → ((x : A) → R x x)
      → All (λ x. p x ≡ true → R x (f x)) xs
      → Prefix R xs (update p f xs)
  unfolding update
  Prefix-update p f [] h k = tt
  Prefix-update p f (x ∷ xs) h k = (
    elim (Bool-cases (p x)) [ inl e ↦ rw e (k.0 e) | inr e ↦ rw e (h x) ],
    Prefix-update p f xs h k.1,
  )

  -- A row's later version.
  pub In-Prefix : (x : A) (xs ys : List A) → In x xs → Prefix R xs ys → (y : A) × In y ys × R x y
  In-Prefix x [] ys i r = absurd i
  In-Prefix x (z ∷ zs) [] i r = absurd r
  In-Prefix x (z ∷ zs) (y ∷ ys) (inl e) r = (y, inl refl, subst (λ v. R v y) (sym e) r.0)
  In-Prefix x (z ∷ zs) (y ∷ ys) (inr i) r = let (w, j, q) = In-Prefix x zs ys i r.1 in (w, inr j, q)

module _ {A : Type 0} (P : A → Type 0) where
  -- An update, row by row.
  pub update-All :
      (p : A → Bool) (f : A → A) (xs : List A)
      → All (λ x. p x ≡ true → P (f x)) xs
      → All P xs
      → All P (update p f xs)
  unfolding update
  update-All p f [] h a = tt
  update-All p f (x ∷ xs) h a = (
    elim (Bool-cases (p x)) [ inl e ↦ rw e (h.0 e) | inr e ↦ rw e a.0 ],
    update-All p f xs h.1 a.1,
  )

-- Tables whose rows have a text as their key.
module _ {A : Type 0} (key : A → String) where
  abbrev pub OtherKey : A → A → Type 0
  OtherKey x y = (key x == key y) ≡ false

  -- Rows that keep their keys stay apart.
  pub same_key : (x x' y y' : A) → key x' ≡ key x → key y' ≡ key y → OtherKey x y → OtherKey x' y'
  same_key x x' y y' a b h =
      subst (λ n. (n == key y') ≡ false) (sym a) (subst (λ n. (key x == n) ≡ false) (sym b) h)

  other : (k : String) (x y : A) → (key x == k) ≡ true → OtherKey x y → (key y == k) ≡ true → x ≡ y
  other k x y h o e =
      absurd (ground (arith, subst (λ v. (key x == v) ≡ true) (sym ((eq_iff (key y) k).0 e)) h))

  none_other :
      (k : String) (x : A) (xs : List A)
      → (key x == k) ≡ true
      → All (OtherKey x) xs
      → All (λ y. (key y == k) ≡ true → y ≡ x) xs
  none_other k x xs h a = All-map (OtherKey x) _ xs (λ y o e. sym (other k x y h o e)) a

  -- The row that a key finds is the only one with that key.
  pub first-only :
      (k : String) (x : A) (xs : List A)
      → Pairs OtherKey xs
      → first (λ y. key y == k) xs ≡ some x
      → All (λ y. (key y == k) ≡ true → y ≡ x) xs
  unfolding first
  first-only k x [] s e = tt
  first-only k x (y ∷ ys) s e = elim (Bool-cases (key y == k)) [
    | inl h ↦
        let q : y ≡ x = ground arith in
        (λ _. q, subst (λ v. All (λ z. (key z == k) ≡ true → z ≡ v) ys) q (none_other k y ys h s.0))
    | inr h ↦ (λ g. absurd (ground (arith, g)), first-only k x ys s.1 (ground arith))
  ]

  -- A row with a key is what the key finds.
  pub In-first :
      (k : String) (x : A) (xs : List A)
      → Pairs OtherKey xs
      → In x xs
      → (key x == k) ≡ true
      → first (λ y. key y == k) xs ≡ some x
  unfolding first
  In-first k x [] s i e = absurd i
  In-first k x (y ∷ ys) s (inl q) e = rw (subst (λ v. (key v == k) ≡ true) q e) (ap some (sym q))
  In-first k x (y ∷ ys) s (inr i) e = elim (Bool-cases (key y == k)) [
    | inl h ↦ rw h (
        ap some
          (sym (In-All (λ z. (key z == k) ≡ true → z ≡ y) x ys i (none_other k y ys h s.0) e)))
    | inr h ↦ rw h (In-first k x ys s.1 i e)
  ]

module _ {A : Type 0} where
  pub first-update :
      (p : A → Bool) (f : A → A) (x : A) (xs : List A)
      → ((y : A) → p (f y) ≡ p y)
      → first p xs ≡ some x
      → first p (update p f xs) ≡ some (f x)
  unfolding first update
  first-update p f x [] h e = absurd (ground arith)
  first-update p f x (y ∷ ys) h e = elim (Bool-cases (p y)) [
    | inl k ↦ rw (k, h y, k) (ap some (ap f (ground arith)))
    | inr k ↦ rw (k, k) (first-update p f x ys h (ground arith))
  ]

  pub first-insert :
      (p : A → Bool) (x : A) (xs : List A)
      → first p xs ≡ none
      → p x ≡ true
      → first p (insert x xs) ≡ some x
  unfolding first insert
  first-insert p x [] e h = rw h refl
  first-insert p x (y ∷ ys) e h = elim (Bool-cases (p y)) [
    | inl k ↦ absurd (ground arith)
    | inr k ↦ rw k (first-insert p x ys (rw k at e) h)
  ]
