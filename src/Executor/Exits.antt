-- ===== src/Executor/Exits.antt =====
-- What an unload and a retire need to return: engine_exited and operation of the class Executor of
-- selfhost_models/executor.py.
use selfhost_models.Prelude.{
  sym, ◌≡◌, refl, ◌∙◌, String, Bool, true, false, not, Option, none, some, arith, eq_iff, is, subst,
}
use selfhost_models.Action.{Error, raise, ok, raise_if, ◌>>=◌}
use selfhost_models.Schema.Deployment.{Deployment}
use selfhost_models.Protocol.{
  Command, CommandKind, prepare, load, warmup, execute, unload, retire, release,
}
use selfhost_models.Journal.{Env, Journal, Engine, Method, tx}
use selfhost_models.Journal.Engines.{engine, exit_proof}
use selfhost_models.Executor.{Runtime, Outcome, engine_or, needed}
use selfhost_models.Executor.Operations.{on_engine, owns, with_engine, operation_kind, operation}
use selfhost_models.Executor.Gone.{IsGone, retire-IsGone, unload-IsGone}

-- kind in ("unload", "retire")
pub data IsEnding : CommandKind → Type 0 where
  ending_unload : IsEnding unload
  ending_retire : IsEnding retire

-- The engine that a command names by its handle and its deployment is known to be gone.
pub record IsEnded (env : Env) (rt : Runtime) (s : Journal) (c : Command) : Type 0 where
  pub deployment : Deployment
  pub handle : String
  pub deployment_is : c.deployment ≡ some deployment
  pub handle_is : is c.handle handle ≡ true
  pub gone_is : IsGone rt s handle (env.deployment_id deployment)

on_engine-IsGone :
    (env : Env) (rt : Runtime) (c : Command) (k : CommandKind) (dep : Deployment) (e : Engine)
    (s : Journal) (out : Outcome)
    → IsEnding k
    → (k ≡ unload → s.engine ≡ some e)
    → (on_engine env rt c k dep e s).0 ≡ ok out
    → IsGone rt s e.handle e.deployment
unfolding on_engine
on_engine-IsGone env rt c unload dep e s out f g h = unload-IsGone env rt e s out (g refl) h
on_engine-IsGone env rt c retire dep e s out f g h = retire-IsGone env rt e s out h
on_engine-IsGone env rt c prepare dep e s out f g h = elim f [ ]
on_engine-IsGone env rt c load dep e s out f g h = elim f [ ]
on_engine-IsGone env rt c warmup dep e s out f g h = elim f [ ]
on_engine-IsGone env rt c execute dep e s out f g h = elim f [ ]
on_engine-IsGone env rt c release dep e s out f g h = elim f [ ]

owned-IsEnded :
    (env : Env) (rt : Runtime) (s : Journal) (c : Command) (dep : Deployment) (e : Engine)
    → c.deployment ≡ some dep
    → not (owns env c dep e) ≡ false
    → IsGone rt s e.handle e.deployment
    → IsEnded env rt s c
owned-IsEnded env rt s c dep e d x g = record {
  deployment = dep;
  handle = e.handle;
  deployment_is = d;
  handle_is = ground arith;
  gone_is =
      subst (IsGone rt s e.handle) ((eq_iff e.deployment (env.deployment_id dep)).0 (ground arith))
        g;
}

needed-ok :
    {A B : Type 0} (o : Option A) (k : A → Method B) (s : Journal) (b : B)
    → ((needed o >>= k) s).0 ≡ ok b
    → (a : A) × (o ≡ some a) × ((k a s).0 ≡ ok b)
unfolding needed ◌>>=◌
needed-ok none k s b h = absurd (ground arith)
needed-ok (some a) k s b h = (a, refl, h)

test-ok :
    {B : Type 0} (c : Bool) (e : Error) (k : Unit {0} → Method B) (s : Journal) (b : B)
    → ((raise_if c e >>= k) s).0 ≡ ok b
    → (c ≡ false) × ((k tt s).0 ≡ ok b)
unfolding ◌>>=◌
test-ok true e k s b h = absurd (ground arith)
test-ok false e k s b h = (refl, h)

with_engine-IsEnded :
    (env : Env) (rt : Runtime) (c : Command) (o : Option Engine) (s : Journal) (out : Outcome)
    → IsEnding c.kind
    → (c.kind ≡ unload → s.engine ≡ o)
    → (with_engine env rt c o s).0 ≡ ok out
    → IsEnded env rt s c
unfolding with_engine raise
with_engine-IsEnded env rt c none s out f r h = absurd (ground arith)
with_engine-IsEnded env rt c (some e) s out f r h =
    let (dep, d, g) = needed-ok c.deployment _ s out h in
    let (x, q) = test-ok _ _ _ s out g in
    owned-IsEnded env rt s c dep e d x (on_engine-IsGone env rt c c.kind dep e s out f r q)

target-IsEnded :
    (env : Env) (rt : Runtime) (c : Command) (n : String) (o : Option Engine) (s : Journal)
    (out : Outcome)
    → IsEnding c.kind
    → (c.kind ≡ unload → ⊥)
    → ((exit_proof n >>= λ p. with_engine env rt c (engine_or p o)) s).0 ≡ ok out
    → IsEnded env rt s c
unfolding exit_proof tx ◌>>=◌
target-IsEnded env rt c n o s out f r h =
    with_engine-IsEnded env rt c _ s out f (λ e. absurd (r e)) h

retire_not_unload : retire ≡ unload → ⊥
retire_not_unload e = cc

kind-IsEnded :
    (env : Env) (rt : Runtime) (c : Command) (k : CommandKind) (o : Option Engine) (s : Journal)
    (out : Outcome)
    → IsEnding k
    → c.kind ≡ k
    → s.engine ≡ o
    → IsEnding c.kind
    → (operation_kind env rt c k o s).0 ≡ ok out
    → IsEnded env rt s c
unfolding operation_kind
kind-IsEnded env rt c unload o s out g e w f h = with_engine-IsEnded env rt c o s out f (λ _. w) h
kind-IsEnded env rt c retire o s out g e w f h =
    let (n, k, q) = needed-ok c.handle _ s out h in
    target-IsEnded env rt c n o s out f (λ u. retire_not_unload (sym e ∙ u)) q
kind-IsEnded env rt c prepare o s out g e w f h = elim g [ ]
kind-IsEnded env rt c load o s out g e w f h = elim g [ ]
kind-IsEnded env rt c warmup o s out g e w f h = elim g [ ]
kind-IsEnded env rt c execute o s out g e w f h = elim g [ ]
kind-IsEnded env rt c release o s out g e w f h = elim g [ ]

-- An unload or a retire that returns does so with proof that the engine of the command's handle and
-- deployment, which the journal held as its current engine or as a recorded exit when it began, is
-- gone: its exit was recorded with the container that exited, or the runtime found that container,
-- none other being recorded, and that it has exited.
pub operation-IsEnded :
    (env : Env) (rt : Runtime) (c : Command) (s : Journal) (out : Outcome)
    → IsEnding c.kind
    → (operation env rt c s).0 ≡ ok out
    → IsEnded env rt s c
unfolding operation engine tx ◌>>=◌
operation-IsEnded env rt c s out f h = kind-IsEnded env rt c c.kind s.engine s out f refl refl f h
