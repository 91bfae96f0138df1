-- ===== src/Journal/Steps/Histories.antt =====
-- The relation Moves along the calls of the class Journal of selfhost_models/executor.py, and along
-- histories of them.
use selfhost_models.Prelude.{
  ℕ, ◌≡◌, refl, sym, ap, ◌∙◌, subst, Bool, true, false, Option, none, some, length, arith, ◌==◌,
  leb,
}
use selfhost_models.Sql.Laws.{none-exists}
use selfhost_models.Action.{Action, pure, modify, ◌>>=◌}
use selfhost_models.Action.Keeps.{
  IsPreorder, KeepsAt, KeepsAt-pure, KeepsAt-modify, KeepsAt-bind, KeepsAt-then, KeepsAt-bind-gets,
  KeepsAt-bind-raise_if,
}
use selfhost_models.Schema.Deployment.{Deployment}
use selfhost_models.Protocol.{Command, Grant, is_execute}
use selfhost_models.Journal.{Env, Journal, CommandRow, CommandState, terminal, find_command}
use selfhost_models.Journal.Commands.{
  is_full, admit, admit_kind, new_row, add_command, accept_new, accept,
}
use selfhost_models.Journal.Steps.{
  Step, Reach, here, next, recover_step, fence_step, register_asset_step, register_step,
  set_engine_step, accept_step, executing_step, cancel_step, frame_step, finish_step, doubt_step,
  ack_step, collect_step,
}
use selfhost_models.Journal.Steps.Rules.{IsSound, Moved, Moves, Moves-IsPreorder}
use selfhost_models.Journal.Steps.Parts.{tx-Moves, insert-Moves}
use selfhost_models.Journal.Steps.Registering.{journal_rules}
use selfhost_models.Journal.Steps.Registering.{
  recover-Keeps, fence-Keeps, register_asset-Keeps, register-Keeps, set_engine-Keeps, cancel-Keeps,
}
use selfhost_models.Journal.Steps.Collecting.{ack-Keeps, collect-Keeps}
use selfhost_models.Journal.Steps.Running.{new-Shape, executing-Keeps, frame-Keeps, finish-Keeps}

module _ (env : Env) where
  unchanged-Keeps :
      {A B : Type 0} (m : Action Journal A) (k : A → Action Journal B) (s : Journal)
      → (m s).1 ≡ s
      → ((a : A) → KeepsAt (Moves env) (k a) s)
      → KeepsAt (Moves env) (m >>= k) s
  unchanged-Keeps m k s e h =
      KeepsAt-bind (Moves-IsPreorder env) m k s
        (record { at = subst (Moves env s) (sym e) ((Moves-IsPreorder env).same s) })
        (λ a t q. subst (KeepsAt (Moves env) (k a)) (sym e ∙ ap (λ v. v.1) q) (h a))

  abbrev Keeps : {A : Type 0} → Action Journal A → Journal → Type 0
  Keeps m s = KeepsAt (Moves env) m s

  o : IsPreorder (Moves env)
  o = Moves-IsPreorder env

  -- Admission changes nothing.
  admit-same :
      (c : Command) (d : Option Deployment) (g : Option Grant) (s : Journal)
      → (admit env c d g s).1 ≡ s
  unfolding admit ◌>>=◌
  admit-same c (some d) (some g) s = ground arith
  admit-same c (some d) none s = refl
  admit-same c none g s = refl

  pub admit_kind-same : (c : Command) (b : Bool) (s : Journal) → (admit_kind env c b s).1 ≡ s
  unfolding admit_kind pure
  admit_kind-same c true s = admit-same c c.deployment c.grant s
  admit_kind-same c false s = refl

  full-room :
      (c : Command) (s : Journal)
      → is_full env c s ≡ false
      → leb env.max_commands (length s.commands) ≡ false
  unfolding is_full
  full-room c s h = ground arith

  add_command-Keeps :
      (now : ℕ) (c : Command) (s : Journal)
      → find_command c.id s ≡ none
      → is_full env c s ≡ false
      → Keeps (modify (add_command (new_row env now c))) s
  unfolding add_command find_command new_row
  add_command-Keeps now c s n h = KeepsAt-modify o _ s (
      insert-Moves env (new_row env now c) s _ (none-exists (λ r. r.id == c.id) s.commands n)
        (full-room c s h) refl refl (new-Shape env now c))

  accept_new-Keeps :
      (now : ℕ) (c : Command) (r : Option CommandRow) (s : Journal)
      → find_command c.id s ≡ r
      → Keeps (accept_new env now c r) s
  unfolding accept_new
  accept_new-Keeps now c (some r) s e = search journal_rules depth 20
  accept_new-Keeps now c none s e = KeepsAt-bind-gets o _ _ s (
      KeepsAt-bind-raise_if o _ _ _ s (λ _. KeepsAt-bind-gets o _ _ s (
        KeepsAt-bind-raise_if o _ _ _ s (λ _. KeepsAt-bind-gets o _ _ s (
          KeepsAt-bind-raise_if o _ _ _ s (λ h.
            unchanged-Keeps (admit_kind env c (is_execute c.kind)) _ s (admit_kind-same c _ s) (λ _.
              KeepsAt-then o _ _ s (add_command-Keeps now c s e h)
                (λ _ t. KeepsAt-pure o true t))))))))

  accept-Keeps : (now : ℕ) (c : Command) (s : Journal) → Keeps (accept env now c) s
  unfolding accept
  accept-Keeps now c s = tx-Moves env _ s (
      KeepsAt-bind-raise_if o _ _ _ s
        (λ _. KeepsAt-bind-gets o _ _ s (accept_new-Keeps now c _ s refl)))

  pub Step-Moves : {s t : Journal} → Step env s t → Moves env s t
  Step-Moves recover_step = (recover-Keeps env _).at
  Step-Moves (fence_step a e n) = (fence-Keeps env a e n _).at
  Step-Moves (register_asset_step p m) = (register_asset-Keeps env p m _).at
  Step-Moves (register_step d) = (register-Keeps env d _).at
  Step-Moves (set_engine_step e) = (set_engine-Keeps env e _).at
  Step-Moves (accept_step now c) = (accept-Keeps now c _).at
  Step-Moves (executing_step cid) = (executing-Keeps env cid _).at
  Step-Moves (cancel_step cid a e n) = (cancel-Keeps env cid a e n _).at
  Step-Moves (frame_step cid v) = (frame-Keeps env cid v _).at
  Step-Moves (finish_step now c r e) = (finish-Keeps env now c r e terminal _ (omega arith)).at
  Step-Moves (doubt_step now c r e) =
      (finish-Keeps env now c r e CommandState.unknown _ (omega arith)).at
  Step-Moves (ack_step now cid x r) = (ack-Keeps env now cid x r _).at
  Step-Moves (collect_step now v) = (collect-Keeps env now v _).at

  -- Along every history the fence does not go down, the commands keep one row each, no more than the journal
  -- may hold, and each row moves only forth: when the table was sound at the start.
  pub Reach-Moved : {s t : Journal} → Reach env s t → IsSound env s.commands → Moved env s t
  Reach-Moved here h = o.same _ h
  Reach-Moved (next r x) h = o.step _ _ _ (Reach-Moved r) (Step-Moves x) h
