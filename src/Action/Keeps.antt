-- ===== src/Action/Keeps.antt =====
-- Relations between the state before and after an action, whether it returns or raises.
use selfhost_models.Prelude.{◌≡◌, refl, Bool, true, false, Option, none, some, if◌then◌else◌}
use selfhost_models.Action.{
  Error, Result, ok, err, Action, pure, raise, lift, gets, row, modify, raise_if, when, continue,
  ◌>>=◌,
}

-- A relation that may be followed from step to step.
pub record IsPreorder {S : Type 0} (R : S → S → Type 0) : Type 0 where
  pub same : (s : S) → R s s
  pub step : (s t u : S) → R s t → R t u → R s u

-- From `s`, the action leads to a state that `R` allows.
pub record KeepsAt {S A : Type 0} (R : S → S → Type 0) (m : Action S A) (s : S) : Type 0 where
  pub at : R s (m s).1

module _ {S A : Type 0} {R : S → S → Type 0} (o : IsPreorder R) where
  pub KeepsAt-pure : (a : A) (s : S) → KeepsAt R (pure a) s
  unfolding pure
  KeepsAt-pure a s = record { at = o.same s }

  pub KeepsAt-raise : (e : Error) (s : S) → KeepsAt R (raise {A = A} e) s
  unfolding raise
  KeepsAt-raise e s = record { at = o.same s }

  pub KeepsAt-lift : (r : Result A) (s : S) → KeepsAt R (lift r) s
  unfolding lift
  KeepsAt-lift r s = record { at = o.same s }

  pub KeepsAt-gets : (f : S → A) (s : S) → KeepsAt R (gets f) s
  unfolding gets
  KeepsAt-gets f s = record { at = o.same s }

  pub KeepsAt-row : (x : Option A) (s : S) → KeepsAt R (row x) s
  unfolding row
  KeepsAt-row none s = record { at = o.same s }
  KeepsAt-row (some a) s = record { at = o.same s }

  pub KeepsAt-if :
      (b : Bool) (m n : Action S A) (s : S)
      → (b ≡ true → KeepsAt R m s)
      → (b ≡ false → KeepsAt R n s)
      → KeepsAt R (if b then m else n) s
  KeepsAt-if true m n s km kn = km refl
  KeepsAt-if false m n s km kn = kn refl

module _ {S : Type 0} {R : S → S → Type 0} (o : IsPreorder R) where
  pub KeepsAt-modify : (f : S → S) (s : S) → R s (f s) → KeepsAt R (modify f) s
  unfolding modify
  KeepsAt-modify f s h = record { at = h }

  pub KeepsAt-raise_if : (b : Bool) (e : Error) (s : S) → KeepsAt R (raise_if b e) s
  unfolding raise_if
  KeepsAt-raise_if true e s = record { at = o.same s }
  KeepsAt-raise_if false e s = record { at = o.same s }

  pub KeepsAt-when :
      (b : Bool) (m : Action S Unit) (s : S) → (b ≡ true → KeepsAt R m s) → KeepsAt R (when b m) s
  unfolding when
  KeepsAt-when true m s h = record { at = (h refl).at }
  KeepsAt-when false m s h = record { at = o.same s }

-- The rules for a sequence. After a read or a test the rest may use what was found.
module _ {S A B : Type 0} {R : S → S → Type 0} (o : IsPreorder R) where
  pub KeepsAt-bind :
      (m : Action S A) (k : A → Action S B) (s : S)
      → KeepsAt R m s
      → ((a : A) (t : S) → m s ≡ (ok a, t) → KeepsAt R (k a) t)
      → KeepsAt R (m >>= k) s
  unfolding ◌>>=◌
  KeepsAt-bind m k s km kk = record { at = go (m s).0 (m s).1 refl km.at }
    where
      go : (r : Result A) (t : S) → m s ≡ (r, t) → R s t → R s (continue r k t).1
      go (ok a) t e h = o.step s t _ h (kk a t e).at
      go (err x) t e h = h

module _ {S B : Type 0} {R : S → S → Type 0} (o : IsPreorder R) where
  pub KeepsAt-bind-raise_if :
      (b : Bool) (e : Error) (k : Unit {0} → Action S B) (s : S)
      → (b ≡ false → KeepsAt R (k tt) s)
      → KeepsAt R (raise_if b e >>= k) s
  unfolding ◌>>=◌
  KeepsAt-bind-raise_if true e k s h = record { at = o.same s }
  KeepsAt-bind-raise_if false e k s h = record { at = (h refl).at }

module _ {S C B : Type 0} {R : S → S → Type 0} (o : IsPreorder R) where
  pub KeepsAt-bind-gets :
      (f : S → C) (k : C → Action S B) (s : S) → KeepsAt R (k (f s)) s → KeepsAt R (gets f >>= k) s
  unfolding ◌>>=◌
  KeepsAt-bind-gets f k s h = record { at = h.at }

  pub KeepsAt-bind-row :
      (x : Option C) (k : C → Action S B) (s : S)
      → ((c : C) → x ≡ some c → KeepsAt R (k c) s)
      → KeepsAt R (row x >>= k) s
  unfolding ◌>>=◌
  KeepsAt-bind-row none k s h = record { at = o.same s }
  KeepsAt-bind-row (some c) k s h = record { at = (h c refl).at }

  -- After an action the rest need not know what it did.
  pub KeepsAt-then :
      (m : Action S C) (k : C → Action S B) (s : S)
      → KeepsAt R m s
      → ((c : C) (t : S) → KeepsAt R (k c) t)
      → KeepsAt R (m >>= k) s
  unfolding ◌>>=◌
  KeepsAt-then m k s km kk = record { at = go (m s).0 (m s).1 km.at }
    where
      go : (r : Result C) (t : S) → R s t → R s (continue r k t).1
      go (ok c) t h = o.step s t _ h (kk c t).at
      go (err x) t h = h
