-- ===== src/Journal/Steps/Collecting.antt =====
-- The rules of Moves for the calls that let a command go: ack and collect of the class Journal of
-- selfhost_models/executor.py.
use selfhost_models.Prelude.{ℕ, refl, String, Bool, List, [], ◌∷◌, arith}
use selfhost_models.Sql.Laws.{All-map}
use selfhost_models.Action.{Action, modify}
use selfhost_models.Action.Keeps.{
  IsPreorder, KeepsAt, KeepsAt-pure, KeepsAt-modify, KeepsAt-then, KeepsAt-bind-gets,
  KeepsAt-bind-raise_if,
}
use selfhost_models.Journal.{Env, Journal, CommandRow}
use selfhost_models.Journal.Custody.{
  Compact, acked_row, ack, drop_outputs, collected_row, collect_command, collect_one, collect_each,
  collect,
}
use selfhost_models.Journal.Steps.Rules.{Later, Shape, Moves, Moves-IsPreorder}
use selfhost_models.Journal.Steps.Parts.{tx-Moves, update-Moves}
use selfhost_models.Journal.Steps.Registering.{journal_rules, quiet-Keeps}
use selfhost_models.Journal.Steps.Running.{steady, at_most_4}

module _ (env : Env) where
  abbrev Keeps : {A : Type 0} → Action Journal A → Journal → Type 0
  Keeps m s = KeepsAt (Moves env) m s

  o : IsPreorder (Moves env)
  o = Moves-IsPreorder env

  acked-Later : (now : ℕ) (release : Bool) (x : CommandRow) → Later x (acked_row now release x)
  unfolding acked_row
  acked-Later now release x = steady x _ refl refl refl refl refl (λ e. refl) (λ e. rw e refl)

  acked-Shape :
      (now : ℕ) (release : Bool) (x : CommandRow)
      → Shape env x
      → Shape env (acked_row now release x)
  unfolding acked_row
  acked-Shape now release x h = record { whole_until = h.whole_until; sealed = h.sealed }

  pub ack-Keeps :
      (now : ℕ) (cid expected : String) (release : Bool) (s : Journal)
      → Keeps (ack now cid expected release) s
  unfolding ack
  ack-Keeps now cid expected release s = tx-Moves env _ s (
      KeepsAt-bind-gets o _ _ s (
        KeepsAt-bind-raise_if o _ _ _ s (λ _. KeepsAt-modify o _ s (
          update-Moves env _ (acked_row now release) s _ refl refl
            (λ x. (acked-Later now release x).id)
            (λ h. All-map (Shape env) _ s.commands (λ x _ _. acked-Later now release x) h.shaped)
            (λ h.
              All-map (Shape env) _ s.commands (λ x k _. acked-Shape now release x k) h.shaped)))))

  collected-Later : (now : ℕ) (k : Compact) (x : CommandRow) → Later x (collected_row now k x)
  unfolding collected_row
  collected-Later now k x = record {
    id = refl;
    hash = refl;
    forth = at_most_4 x.state;
    digest = λ h. refl;
    receipt = λ h e. absurd (omega (arith, e));
    acknowledged = λ h. h;
    released = λ h. h;
  }

  collected-Shape : (now : ℕ) (k : Compact) (x : CommandRow) → Shape env (collected_row now k x)
  unfolding collected_row
  collected-Shape now k x = record {
    whole_until = λ e. absurd (ground (arith, e));
    sealed = λ e. absurd (ground (arith, e));
  }

  collect_command-Keeps :
      (now : ℕ) (cid : String) (k : Compact) (s : Journal)
      → Keeps (modify (collect_command now cid k)) s
  unfolding collect_command
  collect_command-Keeps now cid k s = KeepsAt-modify o _ s (
      update-Moves env _ (collected_row now k) s _ refl refl (λ x. (collected-Later now k x).id)
        (λ h. All-map (Shape env) _ s.commands (λ x _ _. collected-Later now k x) h.shaped)
        (λ h. All-map (Shape env) _ s.commands (λ x _ _. collected-Shape now k x) h.shaped))

  collect_one-Keeps : (now : ℕ) (cid : String) (s : Journal) → Keeps (collect_one env now cid) s
  unfolding collect_one drop_outputs
  collect_one-Keeps now cid s = search (journal_rules, quiet-Keeps, collect_command-Keeps) depth 20

  collect_each-Keeps :
      (now : ℕ) (cids : List String) (s : Journal) → Keeps (collect_each env now cids) s
  unfolding collect_each
  collect_each-Keeps now [] s = KeepsAt-pure o tt s
  collect_each-Keeps now (cid ∷ cids) s =
      KeepsAt-then o _ _ s (collect_one-Keeps now cid s) (λ _ t. collect_each-Keeps now cids t)

  pub collect-Keeps : (now value : ℕ) (s : Journal) → Keeps (collect env now value) s
  unfolding collect
  collect-Keeps now value s = search (journal_rules, collect_each-Keeps) depth 25
