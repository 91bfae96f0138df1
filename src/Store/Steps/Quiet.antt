-- ===== src/Store/Steps/Quiet.antt =====
-- The steps that no rule looks at: the storage of artifacts, and their place in a method.
use selfhost_models.Prelude.{ℕ, ◌≡◌, ◌∙◌, refl, subst, String, Bool, false, Option, List}
use selfhost_models.Action.{Result, ok, err, modify, continue, ◌>>=◌}
use selfhost_models.Action.Keeps.{
  IsPreorder, KeepsAt, KeepsAt-bind, KeepsAt-then, KeepsAt-pure, KeepsAt-modify, KeepsAt-when,
  KeepsAt-raise_if, KeepsAt-bind-gets, KeepsAt-bind-raise_if,
}
use selfhost_models.Store.Base.{World, Env, Method, execute}
use selfhost_models.Store.Artifacts.{budget, write_artifact, store_artifact, put, upload}
use selfhost_models.Store.Steps.Rules.{Rules, on, core}
use selfhost_models.Store.Steps.Parts.{tx-Keeps}

abbrev pub Quiet : World → World → Type 0
Quiet s t = core t ≡ core s

Quiet-order : IsPreorder Quiet
Quiet-order = record { same = λ s. refl; step = λ s t u a b. b ∙ a }

pub Quiet-exec : (f : _) (s : World) → core (on s f) ≡ core s → KeepsAt Quiet (execute f) s
unfolding execute modify
Quiet-exec f s h = record { at = h }

pub budget-Quiet : (env : Env) (n : ℕ) (s : World) → KeepsAt Quiet (budget env n) s
unfolding budget
budget-Quiet env n s = KeepsAt-bind-gets Quiet-order _ _ s (KeepsAt-raise_if Quiet-order _ _ s)

write_artifact-Quiet :
    (env : Env) (name : String) (b : List ℕ) (s : World)
    → KeepsAt Quiet (write_artifact env name b) s
unfolding write_artifact
write_artifact-Quiet env name b s =
    KeepsAt-bind-raise_if Quiet-order _ _ _ s λ h. KeepsAt-modify Quiet-order _ s refl

store_artifact-Quiet :
    (env : Env) (ref : String) (b : List ℕ) (m : String) (d : Option String) (r : Bool) (s : World)
    → KeepsAt Quiet (store_artifact env ref b m d r) s
unfolding store_artifact
store_artifact-Quiet env ref b m d r s =
    KeepsAt-then Quiet-order _ _ s (KeepsAt-when Quiet-order _ _ s λ h. budget-Quiet env _ s) λ u t.
      KeepsAt-then Quiet-order _ _ t (write_artifact-Quiet env ref b t) λ v z. Quiet-exec _ z refl

pub put-Quiet :
    (env : Env) (b : List ℕ) (m : String) (d : Option String) (r : Bool) (s : World)
    → KeepsAt Quiet (put env b m d r) s
unfolding put
put-Quiet env b m d r s = KeepsAt-bind-gets Quiet-order _ _ s (
    KeepsAt-then Quiet-order _ _ s
      (KeepsAt-when Quiet-order _ _ s λ h. store_artifact-Quiet env _ b m d r s)
      λ u t. KeepsAt-pure Quiet-order _ t)

module _ {A : Type 0} {env : Env} {R : World → World → Type 0} (p : Rules env R) where
  pub Quiet-Keeps : (m : Method A) (s : World) → KeepsAt Quiet m s → KeepsAt R m s
  Quiet-Keeps m s h = record { at = p.quiet s _ h.at }

module _ {A B : Type 0} {env : Env} {R : World → World → Type 0} (p : Rules env R) where
  -- After a quiet action the rest finds what the rules look at as it was.
  pub Quiet-then :
      (m : Method A) (k : A → Method B) (s : World)
      → KeepsAt Quiet m s
      → ((a : A) (t : World) → core t ≡ core s → KeepsAt R (k a) t)
      → KeepsAt R (m >>= k) s
  Quiet-then m k s q h =
      KeepsAt-bind p.order m k s (record { at = p.quiet s _ q.at })
        λ a t e. h a t (subst (λ (x : Result A × World). core x.1 ≡ core s) e q.at)

module _ {A B C : Type 0} {R : World → World → Type 0} where
  pub KeepsAt-assoc :
      (m : Method A) (f : A → Method B) (k : B → Method C) (s : World)
      → KeepsAt R (m >>= λ a. f a >>= k) s
      → KeepsAt R ((m >>= f) >>= k) s
  unfolding ◌>>=◌
  KeepsAt-assoc m f k s h = record { at = go (m s).0 (m s).1 h.at }
    where
      go :
          (r : Result A) (t : World)
          → R s (continue r (λ a. f a >>= k) t).1
          → R s (continue (continue r f t).0 k (continue r f t).1).1
      go (ok a) t x = x
      go (err y) t x = x

module _ {env : Env} {R : World → World → Type 0} (p : Rules env R) where
  pub upload-Keeps :
      (b : List ℕ) (m : String) (d : Option String) (s : World) → KeepsAt R (upload env b m d) s
  unfolding upload
  upload-Keeps b m d s = KeepsAt-bind-raise_if p.order _ _ _ s λ h.
      KeepsAt-bind-raise_if p.order _ _ _ s λ k.
        KeepsAt-then p.order _ _ s
          (tx-Keeps p _ s (Quiet-Keeps p _ s (put-Quiet env b m d false s)))
          λ r t. KeepsAt-pure p.order _ t
