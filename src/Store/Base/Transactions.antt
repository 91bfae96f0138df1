-- ===== src/Store/Base/Transactions.antt =====
-- Transactions whose bodies start with `fenced`, and those whose bodies raise at once.
use selfhost_models.Prelude.{◌≡◌, ◌≢◌, eqb_iff, ℕ, eqb, inl, inr, Bool-cases}
use selfhost_models.Action.{Error, err, scheduler, ◌>>=◌}
use selfhost_models.Tables.{Controller}
use selfhost_models.Store.Base.{World, Env, Method, finish, tx, fenced, state}

module _ {A : Type 0} (env : Env) (body : Method A) (w : World) where
  -- A body that raises before it changes anything makes a transaction that does so too.
  pub tx-err : (e : Error) → body w ≡ (err e, w) → tx env body w ≡ (err e, w)
  unfolding tx finish
  tx-err e h = rw h

module _ {A : Type 0} (epoch : ℕ) (k : Controller → Method A) (w : World) where
  -- Behind `fenced`, nothing runs for a controller that has been replaced.
  pub fenced-stale :
      w.controller.epoch ≢ epoch
      → (fenced epoch >>= k) w ≡ (err (scheduler "stale_controller" 409), w)
  unfolding fenced state ◌>>=◌
  fenced-stale h = elim (Bool-cases (eqb w.controller.epoch epoch)) [
    | inl e ↦ absurd (h ((eqb_iff _ _).0 e))
    | inr e ↦ rw e
  ]

  pub fenced_now : w.controller.epoch ≡ epoch → (fenced epoch >>= k) w ≡ k w.controller w
  unfolding fenced state ◌>>=◌
  fenced_now h = rw ((eqb_iff _ _).1 h)
