-- ===== src/Store/Steps/Finishing.antt =====
-- terminal, the import of an executor's receipt, recovery and publish hold a relation that has
-- the rules.
use selfhost_models.Prelude.{ℕ, ◌≡◌, refl, String, Bool, Option, none, some, List, ◌∷◌, []}
use selfhost_models.Action.{
  Error, Result, ok, err, scheduler, integrity, injected, os_error, type_error, value_error,
}
use selfhost_models.Action.Keeps.{
  KeepsAt, KeepsAt-then, KeepsAt-bind-gets, KeepsAt-bind-raise_if, KeepsAt-pure, KeepsAt-modify,
  KeepsAt-raise,
}
use selfhost_models.Tables.{Binding, Attempt, Kind, Grant}
use selfhost_models.Store.Base.{World, Env, Receipt, event, pin}
use selfhost_models.Store.Grants.{execution_grant, execution_binding}
use selfhost_models.Store.Artifacts.{put}
use selfhost_models.Store.Receipts.{
  check_attempt, find_receipt, add_receipt, settle_receipt, save_receipt, accept_receipt, finished,
  readable, mark_available, publish_result, import_saved, note_failure, recover_saved,
  storage_failure, after_publish, publish, publish_file, record_result, terminal, recover_one,
  recover_all, publish_all, recover_receipts, import_by_kind, import_receipt,
  import_executor_receipt,
}
use selfhost_models.Store.Steps.Rules.{Rules}
use selfhost_models.Store.Steps.Parts.{step_rules, quiet-last, exec-bind, quiet-bind, fault-bind}
use selfhost_models.Store.Steps.Quiet.{Quiet-Keeps, put-Quiet}
use selfhost_models.Store.Steps.Leasing.{execution_receipt-Keeps, or_stale-Keeps}

module _ {env : Env} {R : World → World → Type 0} (p : Rules env R) where
  check_attempt-Keeps : (a : String) (s : World) → KeepsAt R (check_attempt a) s
  unfolding check_attempt
  check_attempt-Keeps a s = search step_rules depth 20

  settle_receipt-Keeps :
      (r : Receipt) (o : Option Receipt) (s : World)
      → find_receipt r.attempt s ≡ o
      → KeepsAt R (settle_receipt env r o) s
  unfolding settle_receipt
  settle_receipt-Keeps r (some x) s e = search step_rules depth 20
  settle_receipt-Keeps r none s e = fault-bind p _ _ s (
      KeepsAt-bind-raise_if p.order _ _ _ s λ writes.
        KeepsAt-then p.order _ _ s
          (KeepsAt-modify p.order (add_receipt r) s (p.add_receipt_rule s r e))
          λ u t. KeepsAt-pure p.order r t)

  save_receipt-Keeps : (r : Receipt) (s : World) → KeepsAt R (save_receipt env r) s
  unfolding save_receipt
  save_receipt-Keeps r s = KeepsAt-then p.order _ _ s (check_attempt-Keeps _ s) λ u t.
      KeepsAt-bind-gets p.order _ _ t (
        KeepsAt-then p.order _ _ t (settle_receipt-Keeps r _ t refl)
          λ x v. search step_rules depth 20)

  accept_receipt-Keeps :
      (a : Attempt) (r : Receipt) (s : World) → KeepsAt R (accept_receipt env a r) s
  unfolding accept_receipt event
  accept_receipt-Keeps a r s = search (step_rules, p.record_terminal_rule) depth 20

  pub record_result-Keeps :
      (n : ℕ) (a r : String) (e : Option String) (s : World)
      → KeepsAt R (record_result env n a r e) s
  unfolding record_result
  record_result-Keeps n a r e s =
      search
        (
          step_rules, KeepsAt-then, or_stale-Keeps, save_receipt-Keeps, accept_receipt-Keeps,
          execution_receipt-Keeps,
        )
        depth 20

  finished-Keeps : (o : Option Attempt) (s : World) → KeepsAt R (finished o) s
  unfolding finished
  finished-Keeps none s = search step_rules
  finished-Keeps (some a) s = search step_rules

  readable-Keeps : (o : Option Receipt) (s : World) → KeepsAt R (readable o) s
  unfolding readable
  readable-Keeps none s = search step_rules
  readable-Keeps (some a) s = search step_rules

  publish_put-Keeps :
      (b : List ℕ) (m : String) (d : Option String) (r : Bool) (s : World)
      → KeepsAt R (put env b m d r) s
  publish_put-Keeps b m d r s = Quiet-Keeps p _ s (put-Quiet env b m d r s)

  publish_file-Keeps : (n : String) (b : Attempt) (s : World) → KeepsAt R (publish_file env n b) s
  unfolding publish_file event pin
  publish_file-Keeps n b s = KeepsAt-then p.order _ _ s (check_attempt-Keeps n s) λ u v.
      KeepsAt-bind-gets p.order _ _ v (
        KeepsAt-then p.order _ _ v (readable-Keeps _ v) λ r w. fault-bind p _ _ w (
          KeepsAt-then p.order _ _ w (publish_put-Keeps _ _ _ _ w) λ ref x. fault-bind p _ _ x (
            quiet-bind p (pin b.job ref) _ x refl (
              exec-bind p (mark_available ref _ b.job) _ _ (p.mark_available_rule _ _ _ _)
                (quiet-last p _ _ refl)))))

  pub publish_result-Keeps : (n : ℕ) (a : String) (s : World) → KeepsAt R (publish_result env n a) s
  unfolding publish_result
  publish_result-Keeps n a s =
      search (step_rules, KeepsAt-then, finished-Keeps, publish_file-Keeps) depth 20

  pub note_failure-Keeps : (n : ℕ) (a : String) (s : World) → KeepsAt R (note_failure env n a) s
  unfolding note_failure
  note_failure-Keeps n a s = search (step_rules, KeepsAt-then, p.mark_storage_failed_rule) depth 20

  storage_failure-Keeps :
      (n : ℕ) (a : String) (e : Error) (s : World) → KeepsAt R (storage_failure env n a e) s
  unfolding storage_failure
  storage_failure-Keeps n a e s = search (step_rules, KeepsAt-then, note_failure-Keeps)

  after_publish-Keeps :
      (n : ℕ) (a : String) (r : Result Unit) (s : World) → KeepsAt R (after_publish env n a r) s
  unfolding after_publish
  after_publish-Keeps n a (ok u) s = KeepsAt-pure p.order u s
  after_publish-Keeps n a (err os_error) s = storage_failure-Keeps n a os_error s
  after_publish-Keeps n a (err integrity) s = storage_failure-Keeps n a integrity s
  after_publish-Keeps n a (err (scheduler c x)) s = KeepsAt-raise p.order _ s
  after_publish-Keeps n a (err (injected c)) s = KeepsAt-raise p.order _ s
  after_publish-Keeps n a (err type_error) s = KeepsAt-raise p.order _ s
  after_publish-Keeps n a (err (value_error c)) s = KeepsAt-raise p.order _ s

  pub publish-Keeps : (n : ℕ) (a : String) (s : World) → KeepsAt R (publish env n a) s
  unfolding publish
  publish-Keeps n a s = record {
    at =
        p.order.step s (publish_result env n a s).1 _ (publish_result-Keeps n a s).at
          (after_publish-Keeps n a (publish_result env n a s).0 (publish_result env n a s).1).at;
  }

  pub terminal-Keeps :
      (n : ℕ) (a r : String) (e : Option String) (s : World) → KeepsAt R (terminal env n a r e) s
  unfolding terminal
  terminal-Keeps n a r e s =
      search (step_rules, KeepsAt-then, record_result-Keeps, publish-Keeps) depth 20

  recover_one-Keeps :
      (a : Attempt) (o : Option Receipt) (s : World) → KeepsAt R (recover_one env a o) s
  unfolding recover_one
  recover_one-Keeps a none s = search step_rules
  recover_one-Keeps a (some r) s =
      search (step_rules, KeepsAt-then, accept_receipt-Keeps, execution_receipt-Keeps) depth 20

  recover_all-Keeps : (as' : List Attempt) (s : World) → KeepsAt R (recover_all env as') s
  unfolding recover_all
  recover_all-Keeps [] s = search step_rules
  recover_all-Keeps (a ∷ rest) s = KeepsAt-then p.order _ _ s (check_attempt-Keeps _ s) λ u t.
      KeepsAt-bind-gets p.order _ _ t
        (KeepsAt-then p.order _ _ t (recover_one-Keeps a _ t) λ v w. recover_all-Keeps rest w)

  publish_all-Keeps : (n : ℕ) (as' : List Attempt) (s : World) → KeepsAt R (publish_all env n as') s
  unfolding publish_all
  publish_all-Keeps n [] s = search step_rules
  publish_all-Keeps n (a ∷ rest) s = KeepsAt-then p.order _ _ s (check_attempt-Keeps _ s) λ u t.
      KeepsAt-bind-gets p.order _ _ t (
        KeepsAt-then p.order _ _ t (search (step_rules, publish-Keeps))
          λ v w. publish_all-Keeps n rest w)

  pub recover_saved-Keeps : (n : ℕ) (s : World) → KeepsAt R (recover_saved env n) s
  unfolding recover_saved
  recover_saved-Keeps n s = search (step_rules, KeepsAt-then, recover_all-Keeps) depth 20

  pub recover_receipts-Keeps : (n : ℕ) (s : World) → KeepsAt R (recover_receipts env n) s
  unfolding recover_receipts
  recover_receipts-Keeps n s =
      search (step_rules, KeepsAt-then, recover_saved-Keeps, publish_all-Keeps)

  import_by_kind-Keeps :
      (a r : String) (e : Option String) (g : Grant) (k : Kind) (s : World)
      → KeepsAt R (import_by_kind env a r e g k) s
  unfolding import_by_kind
  import_by_kind-Keeps a r e g Kind.job s =
      search (step_rules, KeepsAt-then, save_receipt-Keeps, accept_receipt-Keeps) depth 20
  import_by_kind-Keeps a r e g Kind.legacy s = search (step_rules, p.release_granted_rule) depth 20

  import_saved-Keeps :
      (a r : String) (e : Option String) (g : Grant) (o : Option Grant) (b : Option Binding)
      (s : World)
      → KeepsAt R (import_saved env a r e g o b) s
  unfolding import_saved
  import_saved-Keeps a r e g o b s =
      search (step_rules, KeepsAt-then, import_by_kind-Keeps, execution_receipt-Keeps) depth 20

  pub import_receipt-Keeps :
      (n : ℕ) (a r : String) (e : Option String) (g : Grant) (s : World)
      → KeepsAt R (import_receipt env n a r e g) s
  unfolding import_receipt execution_grant execution_binding
  import_receipt-Keeps n a r e g s = search (step_rules, KeepsAt-then, import_saved-Keeps) depth 20

  pub import_executor_receipt-Keeps :
      (n : ℕ) (a r : String) (e : Option String) (g : Grant) (s : World)
      → KeepsAt R (import_executor_receipt env n a r e g) s
  unfolding import_executor_receipt
  import_executor_receipt-Keeps n a r e g s =
      search (step_rules, KeepsAt-then, import_receipt-Keeps, publish-Keeps) depth 20
