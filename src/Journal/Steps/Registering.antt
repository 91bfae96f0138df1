-- ===== src/Journal/Steps/Registering.antt =====
-- The rules of Moves for the calls on the other tables than that of commands: recover, fence, register_asset,
-- register, set_engine and cancel of the class Journal of selfhost_models/executor.py.
use selfhost_models.Prelude.{
  ℕ, ◌≤◌, ◌≡◌, refl, String, Bool, true, false, ◌||◌, Option, none, some, arith,
}
use selfhost_models.Sql.Laws.{All-map}
use selfhost_models.Action.{Action, modify}
use selfhost_models.Action.Keeps.{
  IsPreorder, KeepsAt, KeepsAt-pure, KeepsAt-raise, KeepsAt-lift, KeepsAt-gets, KeepsAt-modify,
  KeepsAt-raise_if, KeepsAt-when, KeepsAt-bind, KeepsAt-then, KeepsAt-bind-gets,
  KeepsAt-bind-raise_if,
}
use selfhost_models.Schema.Deployment.{Deployment}
use selfhost_models.Protocol.Manifest.{Manifest}
use selfhost_models.Journal.{
  Env, Journal, Engine, CommandRow, CommandState, accepted, executing, terminal, collected,
  is_accepted, is_executing, is_terminal, is_collected,
}
use selfhost_models.Journal.Engines.{
  doubt_commands, doubt_engine, recover, fence, add_asset, register_asset, checked_asset, asset,
  add_deployment, register, put_engine, put_exit, keep_exit, set_engine,
}
use selfhost_models.Journal.Commands.{add_cancellation, cancel}
use selfhost_models.Journal.Steps.Rules.{
  rank, Later, Later-open, Shape, IsSound, Moved, Moves, Moves-IsPreorder, row_id,
}
use selfhost_models.Journal.Steps.Parts.{
  tx-Moves, quiet-Moves, update-Moves, update_one-Moves, insert-Moves,
}

pub ruleset journal_rules = (
  Moves-IsPreorder, tx-Moves, KeepsAt-pure, KeepsAt-raise, KeepsAt-lift, KeepsAt-gets,
  KeepsAt-raise_if, KeepsAt-when, KeepsAt-bind-gets, KeepsAt-bind-raise_if, KeepsAt-then,
)

pub started : (c : CommandState) → (is_accepted c || is_executing c) ≡ true → rank c ≤ 1
started accepted e = omega arith
started executing e = omega arith
started CommandState.unknown e = absurd (ground arith)
started terminal e = absurd (ground arith)
started collected e = absurd (ground arith)

pub uncollected : (c : CommandState) → rank c ≤ 3 → is_collected c ≡ false
uncollected accepted e = refl
uncollected executing e = refl
uncollected CommandState.unknown e = refl
uncollected terminal e = refl
uncollected collected e = absurd (omega (arith, e))

pub unended : (c : CommandState) → is_terminal c ≡ false → is_collected c ≡ false → rank c ≤ 2
unended accepted e h = omega arith
unended executing e h = omega arith
unended CommandState.unknown e h = omega arith
unended terminal e h = absurd (ground arith)
unended collected e h = absurd (ground arith)

-- A row keeps its shape in a state before the end.
pub open-Shape :
    (env : Env) (x : CommandRow) (c : CommandState)
    → rank x.state ≤ 3
    → is_terminal c ≡ false
    → Shape env x
    → Shape env (record x { state = c })
open-Shape env x c r e h = record {
  whole_until = λ _. h.whole_until (uncollected x.state r);
  sealed = λ k. absurd (ground (arith, e, k));
}

module _ (env : Env) where
  abbrev Keeps : {A : Type 0} → Action Journal A → Journal → Type 0
  Keeps m s = KeepsAt (Moves env) m s

  o : IsPreorder (Moves env)
  o = Moves-IsPreorder env

  -- A statement that neither changes the commands nor lowers the fence.
  quiet :
      (f : Journal → Journal) (s : Journal)
      → (f s).commands ≡ s.commands
      → s.fence ≤ (f s).fence
      → Keeps (modify f) s
  quiet f s e h = KeepsAt-modify o f s (quiet-Moves env s (f s) e h)

  -- A statement on another table.
  pub quiet-Keeps :
      (f : Journal → Journal) (s : Journal)
      → (f s).commands ≡ s.commands
      → (f s).fence ≡ s.fence
      → Keeps (modify f) s
  quiet-Keeps f s e h = quiet f s e (omega (arith, h))

  doubt_commands-Moves : (s : Journal) → Moves env s (doubt_commands s)
  unfolding doubt_commands
  doubt_commands-Moves s =
      update-Moves env _ (λ r. record r { state = CommandState.unknown }) s (doubt_commands s) refl
        refl (λ x. refl)
        (λ h.
          All-map (Shape env) _ s.commands
            (λ x _ e.
              let k = started x.state e in
              Later-open x _ refl refl (omega (arith, k)) (omega (arith, k)) refl refl)
            h.shaped)
        (λ h.
          All-map (Shape env) _ s.commands
            (λ x k e.
              let r = started x.state e in
              open-Shape env x CommandState.unknown (omega (arith, r)) refl k)
            h.shaped)

  doubt_engine-Keeps : (e : Option Engine) (s : Journal) → Keeps (doubt_engine e) s
  unfolding doubt_engine
  doubt_engine-Keeps none s = KeepsAt-pure o tt s
  doubt_engine-Keeps (some e) s =
      KeepsAt-bind-gets o _ _ s (KeepsAt-when o _ _ s (λ _. quiet _ s refl (omega arith)))

  pub recover-Keeps : (s : Journal) → Keeps recover s
  unfolding recover
  recover-Keeps s = tx-Moves env _ s (
      KeepsAt-then o _ _ s (KeepsAt-modify o _ s (doubt_commands-Moves s))
        (λ _ t. KeepsAt-bind-gets o _ _ t (doubt_engine-Keeps _ t)))

  pub fence-Keeps : (a e : String) (n : ℕ) (s : Journal) → Keeps (fence env a e n) s
  unfolding fence
  fence-Keeps a e n s = KeepsAt-bind-raise_if o _ _ _ s (λ _. tx-Moves env _ s (
      KeepsAt-bind-gets o _ _ s
        (KeepsAt-bind-raise_if o _ _ _ s (λ h. quiet _ s refl (ground (arith, h))))))

  pub register_asset-Keeps :
      (path : String) (m : Option Manifest) (s : Journal) → Keeps (register_asset env path m) s
  unfolding register_asset add_asset
  register_asset-Keeps path m s = search (journal_rules, quiet-Keeps) depth 20

  checked_asset-Keeps :
      (ref : String) (v : Bool) (r : _) (s : Journal) → Keeps (checked_asset env ref v r) s
  unfolding checked_asset
  checked_asset-Keeps ref v none s = search journal_rules
  checked_asset-Keeps ref v (some a) s = search journal_rules depth 20

  asset-Keeps : (ref : String) (v : Bool) (s : Journal) → Keeps (asset env ref v) s
  unfolding asset
  asset-Keeps ref v s = search (journal_rules, checked_asset-Keeps) depth 20

  pub register-Keeps : (d : Deployment) (s : Journal) → Keeps (register env d) s
  unfolding register add_deployment
  register-Keeps d s = search (journal_rules, asset-Keeps, quiet-Keeps) depth 20

  keep_exit-Keeps : (e : Engine) (s : Journal) → Keeps (keep_exit env e) s
  unfolding keep_exit put_exit
  keep_exit-Keeps e s = search (journal_rules, quiet-Keeps) depth 20

  pub set_engine-Keeps : (e : Option Engine) (s : Journal) → Keeps (set_engine env e) s
  unfolding set_engine put_engine
  set_engine-Keeps none s = search (journal_rules, quiet-Keeps) depth 20
  set_engine-Keeps (some e) s = search (journal_rules, keep_exit-Keeps, quiet-Keeps) depth 20

  pub cancel-Keeps : (cid a e : String) (n : ℕ) (s : Journal) → Keeps (cancel env cid a e n) s
  unfolding cancel add_cancellation
  cancel-Keeps cid a e n s = search (journal_rules, quiet-Keeps) depth 20
