-- ===== src/Journal/Steps/Running.antt =====
-- The rules of Moves for the calls that change a command: accept, executing, frame, finish, ack and
-- collect of the class Journal of selfhost_models/executor.py.
use selfhost_models.Prelude.{
  ℕ, ◌+◌, ◌≤◌, ◌≡◌, refl, String, Bool, true, false, Option, none, some, arith,
}
use selfhost_models.Sql.Laws.{All-map}
use selfhost_models.Action.{Action, Result, ok, err, modify, lift, ◌>>=◌}
use selfhost_models.Action.Keeps.{
  IsPreorder, KeepsAt, KeepsAt-pure, KeepsAt-modify, KeepsAt-then, KeepsAt-bind-gets,
  KeepsAt-bind-raise_if,
}
use selfhost_models.Protocol.{Command}
use selfhost_models.Journal.{
  Env, Journal, CommandRow, CommandState, Receipt, accepted, executing, terminal, collected,
  find_command, is_accepted, is_terminal, is_collected, whole_command,
}
use selfhost_models.Journal.Commands.{
  new_row, set_state, begin, executing_accepted, executing_row, try_executing, add_frame, frame_row,
  frame, end_command, finish_open, finish_row, finish, receipt_of,
}
use selfhost_models.Journal.Steps.Rules.{rank, Later, Later-open, Shape, Moves, Moves-IsPreorder}
use selfhost_models.Journal.Steps.Parts.{tx-Moves, update-Moves, update_one-Moves}
use selfhost_models.Journal.Steps.Registering.{journal_rules, uncollected, unended, open-Shape}

pub at_most_4 : (c : CommandState) → rank c ≤ 4
at_most_4 accepted = omega arith
at_most_4 executing = omega arith
at_most_4 CommandState.unknown = omega arith
at_most_4 terminal = omega arith
at_most_4 collected = omega arith

-- A row whose state, digest and receipt stay.
pub steady :
    (x y : CommandRow)
    → y.id ≡ x.id
    → y.hash ≡ x.hash
    → y.state ≡ x.state
    → y.receipt_digest ≡ x.receipt_digest
    → y.receipt ≡ x.receipt
    → (x.acknowledged ≡ true → y.acknowledged ≡ true)
    → (x.outputs_released ≡ true → y.outputs_released ≡ true)
    → Later x y
steady x y i h e d r k l = record {
  id = i;
  hash = h;
  forth = rw e (omega arith);
  digest = λ _. d;
  receipt = λ _ _. r;
  acknowledged = k;
  released = l;
}

pub new-Shape : (env : Env) (now : ℕ) (c : Command) → Shape env (new_row env now c)
unfolding new_row
new-Shape env now c = record {
  whole_until = λ _. (c, refl);
  sealed = λ e. absurd (ground (arith, e));
}

sealed-Shape :
    (env : Env) (x : CommandRow) (y : Receipt) (at : Option ℕ) (c : CommandState)
    → rank x.state ≤ 2
    → Shape env x
    → Shape env (record x {
      state = c;
      receipt = some y;
      receipt_digest = some (env.receipt_hash y);
      terminal_at = at;
    })
sealed-Shape env x y at c r h = record {
  whole_until = λ _. h.whole_until (uncollected x.state (omega (arith, r)));
  sealed = λ _. (y, refl, refl);
}

accepted_rank : (c : CommandState) → is_accepted c ≡ true → rank c ≡ 0
accepted_rank accepted e = refl
accepted_rank executing e = absurd (ground arith)
accepted_rank CommandState.unknown e = absurd (ground arith)
accepted_rank terminal e = absurd (ground arith)
accepted_rank collected e = absurd (ground arith)

early : (c : CommandState) → rank c ≤ 2 → is_terminal c ≡ false
early accepted e = refl
early executing e = refl
early CommandState.unknown e = refl
early terminal e = absurd (omega (arith, e))
early collected e = refl

module _ (env : Env) where
  lift-Keeps :
      {A B : Type 0} (x : Result A) (k : A → Action Journal B) (s : Journal)
      → ((a : A) → KeepsAt (Moves env) (k a) s)
      → KeepsAt (Moves env) (lift x >>= k) s
  unfolding ◌>>=◌
  lift-Keeps (ok a) k s h = record { at = (h a).at }
  lift-Keeps (err e) k s h = record { at = (Moves-IsPreorder env).same s }

  abbrev Keeps : {A : Type 0} → Action Journal A → Journal → Type 0
  Keeps m s = KeepsAt (Moves env) m s

  o : IsPreorder (Moves env)
  o = Moves-IsPreorder env

  set_state-Keeps :
      (cid : String) (to : CommandState) (r : CommandRow) (s : Journal)
      → find_command cid s ≡ some r
      → is_accepted r.state ≡ true
      → rank to ≤ 2
      → Keeps (modify (set_state cid to)) s
  unfolding set_state
  set_state-Keeps cid to r s e a b = KeepsAt-modify o _ s (
      update_one-Moves env cid r (λ x. record x { state = to }) s _ e refl refl (λ x. refl)
        (Later-open r _ refl refl (omega (arith, accepted_rank r.state a))
          (omega (arith, accepted_rank r.state a)) refl refl)
        (open-Shape env r to (omega (arith, accepted_rank r.state a)) (early to b)))

  begin-Keeps :
      (cid : String) (b : Bool) (r : CommandRow) (s : Journal)
      → find_command cid s ≡ some r
      → is_accepted r.state ≡ true
      → Keeps (begin cid b) s
  unfolding begin
  begin-Keeps cid true r s e a =
      KeepsAt-then o _ _ s (set_state-Keeps cid executing r s e a (omega arith))
        (λ _ t. KeepsAt-pure o true t)
  begin-Keeps cid false r s e a =
      KeepsAt-then o _ _ s (set_state-Keeps cid CommandState.unknown r s e a (omega arith))
        (λ _ t. KeepsAt-pure o false t)

  executing_accepted-Keeps :
      (cid : String) (r : CommandRow) (b : Bool) (s : Journal)
      → find_command cid s ≡ some r
      → is_accepted r.state ≡ b
      → Keeps (executing_accepted cid r b) s
  unfolding executing_accepted
  executing_accepted-Keeps cid r false s e a = KeepsAt-pure o false s
  executing_accepted-Keeps cid r true s e a =
      lift-Keeps (whole_command r.command) _ s
        (λ c. KeepsAt-bind-gets o _ _ s (begin-Keeps cid _ r s e a))

  executing_row-Keeps :
      (cid : String) (r : Option CommandRow) (s : Journal)
      → find_command cid s ≡ r
      → Keeps (executing_row cid r) s
  unfolding executing_row
  executing_row-Keeps cid none s e = KeepsAt-pure o false s
  executing_row-Keeps cid (some r) s e =
      executing_accepted-Keeps cid r (is_accepted r.state) s e refl

  pub executing-Keeps : (cid : String) (s : Journal) → Keeps (try_executing cid) s
  unfolding try_executing
  executing-Keeps cid s =
      tx-Moves env _ s (KeepsAt-bind-gets o _ _ s (executing_row-Keeps cid _ s refl))

  add_frame-Keeps :
      (cid value : String) (n : ℕ) (s : Journal) → Keeps (modify (add_frame cid value n)) s
  unfolding add_frame
  add_frame-Keeps cid value n s = KeepsAt-modify o _ s (
      update-Moves env _ (λ r. record r { bytes = r.bytes + n }) s _ refl refl (λ x. refl)
        (λ h.
          All-map (Shape env) _ s.commands
            (λ x _ _. steady x _ refl refl refl refl refl (λ e. e) (λ e. e)) h.shaped)
        (λ h.
          All-map (Shape env) _ s.commands
            (λ x k _. record { whole_until = k.whole_until; sealed = k.sealed }) h.shaped))

  frame_row-Keeps :
      (cid value : String) (r : Option CommandRow) (s : Journal)
      → Keeps (frame_row env cid value r) s
  unfolding frame_row
  frame_row-Keeps cid value none s = search journal_rules
  frame_row-Keeps cid value (some r) s = search (journal_rules, add_frame-Keeps) depth 20

  pub frame-Keeps : (cid value : String) (s : Journal) → Keeps (frame env cid value) s
  unfolding frame
  frame-Keeps cid value s = search (journal_rules, frame_row-Keeps) depth 20

  end_command-Moves :
      (now : ℕ) (x : Receipt) (to : CommandState) (r : CommandRow) (s : Journal)
      → find_command x.command s ≡ some r
      → rank r.state ≤ 2
      → 2 ≤ rank to
      → Moves env s (end_command env now x to s)
  unfolding end_command
  end_command-Moves now x to r s e a b =
      update_one-Moves env x.command r _ s _ e refl refl (λ x. refl)
        (Later-open r _ refl refl a (omega (arith, a, b)) refl refl) (sealed-Shape env r x _ to a)

  finish_open-Keeps :
      (now : ℕ) (x : Receipt) (to : CommandState) (r : CommandRow) (b : Bool) (s : Journal)
      → find_command x.command s ≡ some r
      → is_collected r.state ≡ false
      → is_terminal r.state ≡ b
      → 2 ≤ rank to
      → Keeps (finish_open env now x to r b) s
  unfolding finish_open
  finish_open-Keeps now x to r true s e c t h = search journal_rules depth 20
  finish_open-Keeps now x to r false s e c t h =
      KeepsAt-then o _ _ s
        (KeepsAt-modify o _ s (end_command-Moves now x to r s e (unended r.state t c) h))
        (λ _ u. KeepsAt-pure o x u)

  finish_row-Keeps :
      (now : ℕ) (x : Receipt) (to : CommandState) (r : Option CommandRow) (s : Journal)
      → find_command x.command s ≡ r
      → 2 ≤ rank to
      → Keeps (finish_row env now x to r) s
  unfolding finish_row
  finish_row-Keeps now x to none s e h = search journal_rules
  finish_row-Keeps now x to (some r) s e h =
      KeepsAt-bind-raise_if o _ _ _ s
        (λ c. finish_open-Keeps now x to r (is_terminal r.state) s e c refl h)

  pub finish-Keeps :
      (now : ℕ) (c : Command) (result : String) (error : Option String) (to : CommandState)
      (s : Journal)
      → 2 ≤ rank to
      → Keeps (finish env now c result error to) s
  unfolding finish receipt_of
  finish-Keeps now c result error to s h =
      KeepsAt-bind-raise_if o _ _ _ s
        (λ _. tx-Moves env _ s (KeepsAt-bind-gets o _ _ s (finish_row-Keeps now _ to _ s refl h)))
