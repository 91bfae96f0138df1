-- ===== src/Executor/Gone.antt =====
-- What engine_exited, and the branches for unload and retire of operation, of the class Executor of
-- selfhost_models/executor.py find before they return.
use selfhost_models.Prelude.{
  List, ◌≡◌, refl, ap, ◌∙◌, String, Bool, true, false, ◌||◌, not, Option, none, some, ◌⊎◌, inl, inr,
  arith, ◌==◌, eq_iff, subst, Bool-cases,
}
use selfhost_models.Action.{ok, scheduler, pure, continue, raise_if, ◌>>=◌}
use selfhost_models.Action.Laws.{Result-cases}
use selfhost_models.Sql.{first}
use selfhost_models.Sql.Laws.{first-holds}
use selfhost_models.Sql.Members.{In, first-In}
use selfhost_models.Journal.{Env, Journal, Engine, Exit, unloading, tx}
use selfhost_models.Journal.Engines.{engine, exit_proof, set_engine, exit_value, put_engine}
use selfhost_models.Executor.{
  Runtime, Outcome, gone, engine_or, record_exit, moved, is_proof, ask_exit, confirm_exit,
  engine_exited,
}
use selfhost_models.Executor.Operations.{operation_unload, operation_retire}

-- An engine's exit is known: it is recorded with the container that exited, or the runtime found
-- that container, which is the engine's, and that it has exited.
abbrev pub Known : Runtime → Engine → Type 0
Known rt e =
    (is_proof e ≡ true)
    ⊎ ((id : String) × (rt.inspect e ≡ ok id) × (moved e id ≡ false) × (rt.has_exited e ≡ ok true))

-- The journal has recorded the engine's exit under its handle.
abbrev pub HasExit : Journal → String → Engine → Type 0
HasExit s handle e = (x : Exit) × In x s.engine_exits × (x.handle ≡ handle) × (x.value ≡ e)

-- The journal holds the engine: as a recorded exit, or as the current engine, whose phase an unload
-- has changed first.
abbrev pub Held : Journal → String → Engine → Type 0
Held s handle e =
    HasExit s handle e
    ⊎ ((current : Engine) × (s.engine ≡ some current)
        × ((e ≡ current) ⊎ (e ≡ record current { phase = unloading })))

-- An engine that the journal holds has that handle and deployment, and its exit is known.
pub record IsGone (rt : Runtime) (s : Journal) (handle deployment : String) : Type 0 where
  pub found : Engine
  pub held : Held s handle found
  pub handle_is : found.handle ≡ handle
  pub deployment_is : found.deployment ≡ deployment
  pub known : Known rt found

exit_value_lem :
    (h : String) (x : Option Exit) (xs : List Exit) (e : Engine)
    → first (λ (y : Exit). y.handle == h) xs ≡ x
    → exit_value x ≡ some e
    → (y : Exit) × In y xs × (y.handle ≡ h) × (y.value ≡ e)
exit_value_lem h none xs e f q = absurd (ground arith)
exit_value_lem h (some y) xs e f q =
    (y, first-In _ y xs f, (eq_iff y.handle h).0 (first-holds _ xs f), ground arith)

-- Where engine_exited takes the engine from.
held_lem :
    (s : Journal) (h : String) (e : Engine) (p o : Option Engine)
    → exit_value (first (λ (x : Exit). x.handle == h) s.engine_exits) ≡ p
    → s.engine ≡ o
    → engine_or p o ≡ some e
    → Held s h e
held_lem s h e none o f g q = inr (e, g ∙ q, inl refl)
held_lem s h e (some x) o f g q = inl (exit_value_lem h _ s.engine_exits e refl (f ∙ q))

ask_exit-Known :
    (env : Env) (rt : Runtime) (e : Engine) (b : Bool) (s : Journal)
    → is_proof e ≡ b
    → (ask_exit env rt e b s).0 ≡ ok true
    → Known rt e
unfolding ask_exit record_exit ◌>>=◌
ask_exit-Known env rt e true s p h = inl p
ask_exit-Known env rt e false s p h = elim (Result-cases (rt.inspect e)) [
  | inl (x, k) ↦ absurd (ground (arith, rw k at h))
  | inr (id, k) ↦ elim (Bool-cases (moved e id)) [
    | inl m ↦ absurd (ground (arith, rw (k, m) at h))
    | inr m ↦ elim (Result-cases (rt.has_exited e)) [
      | inl (x, q) ↦ absurd (ground (arith, rw (k, m, q) at h))
      | inr (b, q) ↦ elim (Bool-cases b) [
        | inl t ↦ inr (id, k, m, q ∙ ap ok t)
        | inr f ↦ absurd (ground (arith, rw (k, m, q, f) at h))
      ]
    ]
  ]
]

confirm_exit-IsGone :
    (env : Env) (rt : Runtime) (handle deployment : String) (o : Option Engine) (s : Journal)
    → ((e : Engine) → o ≡ some e → Held s handle e)
    → (confirm_exit env rt handle deployment o s).0 ≡ ok true
    → IsGone rt s handle deployment
unfolding confirm_exit ◌>>=◌
confirm_exit-IsGone env rt handle deployment none s k h = absurd (ground arith)
confirm_exit-IsGone env rt handle deployment (some e) s k h =
    elim (Bool-cases (not (e.handle == handle) || not (e.deployment == deployment))) [
      | inl x ↦ absurd (ground (arith, rw x at h))
      | inr x ↦ record {
        found = e;
        held = k e refl;
        handle_is = (eq_iff e.handle handle).0 (ground arith);
        deployment_is = (eq_iff e.deployment deployment).0 (ground arith);
        known = ask_exit-Known env rt e (is_proof e) s refl (rw x at h);
      }
    ]

engine_exited-IsGone :
    (env : Env) (rt : Runtime) (handle deployment : String) (s : Journal)
    → (engine_exited env rt handle deployment s).0 ≡ ok true
    → IsGone rt s handle deployment
unfolding engine_exited engine exit_proof tx ◌>>=◌
engine_exited-IsGone env rt handle deployment s h =
    confirm_exit-IsGone env rt handle deployment _ _ (λ e q. held_lem s handle e _ _ refl refl q) h

-- What is known of an exit after the phase was set to unloading is known of the engine before.
unloading-IsGone :
    (rt : Runtime) (s t : Journal) (e : Engine) (handle deployment : String)
    → s.engine ≡ some e
    → t.engine ≡ some (record e { phase = unloading })
    → t.engine_exits ≡ s.engine_exits
    → IsGone rt t handle deployment
    → IsGone rt s handle deployment
unloading-IsGone rt s t e handle deployment h k x g = record {
  found = g.found;
  held = moved_back g.held;
  handle_is = g.handle_is;
  deployment_is = g.deployment_is;
  known = g.known;
}
  where
    moved_back : Held t handle g.found → Held s handle g.found
    moved_back (inl (y, i, n, v)) = inl (y, subst (In y) x i, n, v)
    moved_back (inr (c, q, inl v)) = inr (e, h, inr (ground (arith, k, q, v)))
    moved_back (inr (c, q, inr v)) = inr (e, h, inr (ground (arith, k, q, v)))

set_unloading :
    (env : Env) (e : Engine) (s : Journal)
    → ((set_engine env (some (record e { phase = unloading })) s).1.engine
        ≡ some (record e { phase = unloading }))
      × ((set_engine env (some (record e { phase = unloading })) s).1.engine_exits ≡ s.engine_exits)
unfolding set_engine tx put_engine ◌>>=◌
set_unloading env e s = (refl, refl)

-- What an unload and a retire of an engine return, they return with proof.
pub retire-IsGone :
    (env : Env) (rt : Runtime) (e : Engine) (s : Journal) (out : Outcome)
    → (operation_retire env rt e s).0 ≡ ok out
    → IsGone rt s e.handle e.deployment
unfolding operation_retire ◌>>=◌
retire-IsGone env rt e s out h =
    elim (Result-cases (engine_exited env rt e.handle e.deployment s).0) [
      | inl (x, k) ↦ absurd (ground (arith, rw k at h))
      | inr (b, k) ↦ elim (Bool-cases b) [
        | inl t ↦ engine_exited-IsGone env rt e.handle e.deployment s (k ∙ ap ok t)
        | inr f ↦ absurd (ground (arith, rw (k, f) at h))
      ]
    ]

pub unload-IsGone :
    (env : Env) (rt : Runtime) (e : Engine) (s : Journal) (out : Outcome)
    → s.engine ≡ some e
    → (operation_unload env rt e s).0 ≡ ok out
    → IsGone rt s e.handle e.deployment
unfolding operation_unload ◌>>=◌
unload-IsGone env rt e s out f h =
    elim (Result-cases (set_engine env (some (record e { phase = unloading })) s).0) [
      | inl (x, k) ↦ absurd (ground (arith, rw k at h))
      | inr (u, k) ↦ elim (Result-cases (rt.unload_engine (record e { phase = unloading }))) [
        | inl (x, q) ↦ absurd (ground (arith, rw (k, q) at h))
        | inr (v, q) ↦
            let (a, b) = set_unloading env e s in
            unloading-IsGone rt s _ e e.handle e.deployment f a b (exited_after _ (rw (k, q) at h))
      ]
    ]
  where
    exited_after :
        (t : Journal)
        → (continue
            (engine_exited env rt e.handle e.deployment t).0
            (λ b. raise_if (not b) (scheduler "engine_exit_unconfirmed" 503) >>= λ _.
              pure (gone e.handle))
            (engine_exited env rt e.handle e.deployment t).1).0
          ≡ ok out
        → IsGone rt t e.handle e.deployment
    exited_after t g = elim (Result-cases (engine_exited env rt e.handle e.deployment t).0) [
      | inl (x, k) ↦ absurd (ground (arith, rw k at g))
      | inr (b, k) ↦ elim (Bool-cases b) [
        | inl z ↦ engine_exited-IsGone env rt e.handle e.deployment t (k ∙ ap ok z)
        | inr f ↦ absurd (ground (arith, rw (k, f) at g))
      ]
    ]
