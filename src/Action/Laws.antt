-- ===== src/Action/Laws.antt =====
-- What an action that returned did.
use selfhost_models.Prelude.{◌≡◌, refl, ◌⊎◌, inl, inr, Bool, true, false, arith}
use selfhost_models.Action.{Error, Result, ok, err, Action, raise_if, continue, ◌>>=◌}

pub Result-cases :
    {A : Type 0} (r : Result A) → ((e : Error) × (r ≡ err e)) ⊎ ((a : A) × (r ≡ ok a))
Result-cases (err e) = inl (e, refl)
Result-cases (ok a) = inr (a, refl)

module _ {S A B : Type 0} where
  -- Both parts of a sequence that returned did.
  pub bind-ok :
      (m : Action S A) (k : A → Action S B) (s : S) (b : B)
      → ((m >>= k) s).0 ≡ ok b
      → (a : A) × ((m s).0 ≡ ok a) × ((m >>= k) s ≡ k a (m s).1)
  unfolding ◌>>=◌
  bind-ok m k s b h = go (m s).0 (m s).1 h
    where
      go :
          (r : Result A) (t : S)
          → (continue r k t).0 ≡ ok b
          → (a : A) × (r ≡ ok a) × (continue r k t ≡ k a t)
      go (ok a) t h = (a, refl, refl)
      go (err x) t h = absurd (ground arith)

module _ {S B : Type 0} where
  pub raise_if-ok :
      (c : Bool) (e : Error) (k : Unit {0} → Action S B) (s : S) (b : B)
      → ((raise_if c e >>= k) s).0 ≡ ok b
      → (c ≡ false) × ((raise_if c e >>= k) s ≡ k tt s)
  unfolding ◌>>=◌
  raise_if-ok true e k s b h = absurd (ground arith)
  raise_if-ok false e k s b h = (refl, refl)
