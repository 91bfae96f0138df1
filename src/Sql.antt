-- ===== src/Sql.antt =====
-- What the stores ask of SQLite: tables as lists of rows in rowid order, and the statements on
-- one table, by the WHERE clause as a Boolean test on a row.
pub mod Laws
pub mod Rows
pub mod Members
pub mod Pairs
pub mod Prefix
pub mod Sums
use selfhost_models.Prelude.{
  ℕ, ◌+◌, Bool, true, false, ◌||◌, not, Option, none, some, List, [], ◌∷◌, ◌++◌, length,
  if◌then◌else◌,
}

module _ {A : Type 0} where
  -- SELECT * ... WHERE p
  unfoldable pub select : (A → Bool) → List A → List A
  select p [] = []
  select p (x ∷ xs) = let rest = select p xs in if p x then x ∷ rest else rest

  -- SELECT * ... WHERE p, then fetchone()
  unfoldable pub first : (A → Bool) → List A → Option A
  first p [] = none
  first p (x ∷ xs) = if p x then some x else first p xs

  -- SELECT 1 ... WHERE p, then a test of fetchone()
  unfoldable pub exists : (A → Bool) → List A → Bool
  exists p [] = false
  exists p (x ∷ xs) = p x || exists p xs

  -- UPDATE ... SET f WHERE p
  unfoldable pub update : (A → Bool) → (A → A) → List A → List A
  update p f [] = []
  update p f (x ∷ xs) = (if p x then f x else x) ∷ update p f xs

  -- DELETE ... WHERE p
  unfoldable pub delete : (A → Bool) → List A → List A
  delete p [] = []
  delete p (x ∷ xs) = let rest = delete p xs in if p x then rest else x ∷ rest

  -- INSERT INTO ...
  unfoldable pub insert : A → List A → List A
  insert x xs = xs ++ x ∷ []

  -- INSERT OR IGNORE, where `p` holds of the rows with the new row's key
  unfoldable pub insert_or_ignore : (A → Bool) → A → List A → List A
  unfolding exists insert
  insert_or_ignore p x xs = if exists p xs then xs else insert x xs

  -- INSERT OR REPLACE: the old row goes, and the new one stands last.
  unfoldable pub insert_or_replace : (A → Bool) → A → List A → List A
  unfolding delete insert
  insert_or_replace p x xs = insert x (delete p xs)

  -- SELECT COUNT(*) ... WHERE p, which is also the rowcount of an UPDATE with that clause
  unfoldable pub count : (A → Bool) → List A → ℕ
  unfolding select
  count p xs = length (select p xs)

  -- SELECT COALESCE(SUM(f), 0)
  unfoldable pub total : (A → ℕ) → List A → ℕ
  total f [] = 0
  total f (x ∷ xs) = f x + total f xs
