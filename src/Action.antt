-- ===== src/Action.antt =====
-- Methods that change an object and may raise. What was changed before a raise stays changed (a
-- transaction undoes it), so the state comes back beside the error too.
pub mod Keeps
pub mod Laws
use selfhost_models.Prelude.{ℕ, String, Bool, true, false, Option, none, some}

-- scheduler: `SchedulerError(code, status)`, and `BatchError(code, status)` in the batch store. integrity: a violated constraint of a table.
-- injected: what the test hook `fault` raises. os_error: a failed write or read of a file.
-- type_error: a subscript of the None that `fetchone()` gives for no row.
pub data Error : Type 0 where
  scheduler : String → ℕ → Error
  integrity : Error
  injected : String → Error
  os_error : Error
  type_error : Error
  value_error : String → Error

pub data Result (A : Type 0) : Type 0 where
  ok : A → Result A
  err : Error → Result A

abbrev pub Action : Type 0 → Type 0 → Type 0
Action S A = S → Result A × S

module _ {S A : Type 0} where
  unfoldable pub pure : A → Action S A
  pure a s = (ok a, s)

  unfoldable pub raise : Error → Action S A
  raise e s = (err e, s)

  unfoldable pub lift : Result A → Action S A
  lift r s = (r, s)

  -- a read of the state
  unfoldable pub gets : (S → A) → Action S A
  gets f s = (ok (f s), s)

  -- the row that `fetchone()` returned, subscripted
  unfoldable pub row : Option A → Action S A
  row none s = (err type_error, s)
  row (some a) s = (ok a, s)

module _ {S : Type 0} where
  -- a statement that changes the state
  unfoldable pub modify : (S → S) → Action S (Unit {0})
  modify f s = (ok tt, f s)

  -- `if b: raise e`
  unfoldable pub raise_if : Bool → Error → Action S (Unit {0})
  raise_if true e s = (err e, s)
  raise_if false e s = (ok tt, s)

  -- `if b: ...`
  unfoldable pub when : Bool → Action S (Unit {0}) → Action S (Unit {0})
  when true m s = m s
  when false m s = (ok tt, s)

module _ {S A B : Type 0} where
  abbrev pub continue : Result A → (A → Action S B) → Action S B
  continue (ok a) f s = f a s
  continue (err e) f s = (err e, s)

  infixl 5 ◌>>=◌ ◌>>◌
  -- opening this opens the ways to build an action too
  unfoldable pub ◌>>=◌ : Action S A → (A → Action S B) → Action S B
  unfolding pure raise lift gets row modify raise_if when
  ◌>>=◌ m f s = let (r, s') = m s in continue r f s'

  abbrev pub ◌>>◌ : Action S A → Action S B → Action S B
  m >> n = m >>= λ _. n

module _ {S : Type 0} where
  unfoldable pub caught : Result Unit → S → Result Bool × S
  caught (ok u) s = (ok true, s)
  caught (err (scheduler code status)) s = (ok false, s)
  caught (err e) s = (err e, s)

  -- try: m, except SchedulerError: whether it did not raise
  unfoldable pub succeeds : Action S Unit → Action S Bool
  succeeds m s = let (r, s') = m s in caught r s'

  -- a value for a NOT NULL column
  unfoldable pub not_null : Option String → Action S String
  not_null none s = (err integrity, s)
  not_null (some a) s = (ok a, s)
