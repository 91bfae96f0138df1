-- ===== src/Batch/Attempts.antt =====
-- What demo, cancel and demo_confirm of the class BatchStore of selfhost_models/batch.py keep of the
-- jobs.
use selfhost_models.Prelude.{
  if◌then◌else◌, ℕ, ◌≤◌, ◌≡◌, refl, String, Bool, true, false, ◌||◌, not, Option, none, some, List,
  arith, eqb,
}
use selfhost_models.Action.{◌>>=◌}
use selfhost_models.Action.Keeps.{
  IsPreorder, KeepsAt, KeepsAt-pure, KeepsAt-modify, KeepsAt-bind-raise_if, KeepsAt-then,
}
use selfhost_models.Batch.{
  Env, Batches, Job, JobRow, WorkState, Scenario, Outcome, Method, find_job, or_not_found, job_row,
  with_event, save_job, is_prepared, is_over, is_available, attempt, demo_intent, demo_settle,
  settle_unknown, cancel, cancel_open, demo_confirm,
}
use selfhost_models.Batch.{
  is_unknown, is_unconfirmed, is_fixture, demo_success, demo_cancel, demo_unknown,
  confirm_succeeded, confirm_canceled, confirm_failed, canceled, ResultState, settled_results,
  canceled_job, confirmed, intended, settled,
}
use selfhost_models.Batch.Steps.{
  Onward, Moves, Moves-IsPreorder, last_100-bound, tx-Keeps, put_job-Moves,
}

abbrev Keeps : {A : Type 0} → Method A → Batches → Type 0
Keeps m s = KeepsAt Moves m s

o : IsPreorder Moves
o = Moves-IsPreorder

-- What a new version of a job may change beside its events.
pub record IsNext (x j : Job) : Type 0 where
  pub onward : Onward x j
  pub attempts : x.attempt_count ≤ 1 → j.attempt_count ≤ 1
  pub unattempted :
      (is_prepared x.work_state ≡ true → x.attempt_count ≡ 0)
      → is_prepared j.work_state ≡ true
      → j.attempt_count ≡ 0

-- A job that is not over goes on, no longer prepared, under its one attempt.
IsNext-open :
    (x j : Job)
    → j.id ≡ x.id
    → j.attempt_count ≡ x.attempt_count
    → is_over x.work_state ≡ false
    → is_prepared j.work_state ≡ false
    → (is_available x.result_state ≡ true → is_available j.result_state ≡ true)
    → j.results ≡ x.results
    → j.result_provenance ≡ x.result_provenance
    → IsNext x j
IsNext-open x j i a w p v r q = record {
  onward = record {
    id = i;
    attempts = omega (arith, a);
    over = λ e. absurd (ground (arith, w, e));
    published = λ e. (v e, r, q);
  };
  attempts = λ h. omega (arith, h, a);
  unattempted = λ _ e. absurd (ground (arith, p, e));
}

unknown-open : (w : WorkState) → is_unknown w ≡ true → is_over w ≡ false
unknown-open w e = ground arith

unknown-begun : (w : WorkState) → is_unknown w ≡ true → is_prepared w ≡ false
unknown-begun w e = ground arith

unconfirmed-open : (w : WorkState) → is_unconfirmed w ≡ true → is_over w ≡ false
unconfirmed-open w e = ground arith

settled_results-kept :
    (r : ResultState) → is_available r ≡ true → is_available (settled_results r) ≡ true
settled_results-kept r e = ground arith

canceled_begun : (w : WorkState) → is_prepared (if is_prepared w then canceled else w) ≡ false
canceled_begun w = ground arith

prepared-open : (w : WorkState) → is_over w ≡ true → is_prepared w ≡ true → ⊥
prepared-open w e h = ground arith

or_right : (a b : Bool) → (a || b) ≡ false → b ≡ false
or_right a b h = ground arith

second_not : (a b : Bool) → (not a || not b) ≡ false → b ≡ true
second_not a b h = ground arith

module _ (env : Env) where
  pub save_job-Keeps :
      (kind id : String) (r : JobRow) (j : Job) (s : Batches)
      → find_job id s ≡ some r
      → IsNext r.document j
      → Keeps (save_job env kind j) s
  unfolding save_job with_event
  save_job-Keeps kind id r j s e n =
      KeepsAt-then o _ _ s
        (KeepsAt-modify o _ s (
          put_job-Moves id r _ s e n.onward.id
            (λ h. record {
              attempts = n.attempts h.attempts;
              unattempted = n.unattempted h.unattempted;
              bounded = last_100-bound _;
            })
            (record {
              id = n.onward.id;
              attempts = n.onward.attempts;
              over = n.onward.over;
              published = n.onward.published;
            })))
        (λ _ t. KeepsAt-pure o _ t)

  found-Keeps :
      {B : Type 0} (f : Option JobRow) (k : JobRow → Method B) (s : Batches)
      → ((r : JobRow) → f ≡ some r → Keeps (k r) s)
      → Keeps (or_not_found f >>= k) s
  unfolding or_not_found ◌>>=◌
  found-Keeps none k s h = record { at = o.same s }
  found-Keeps (some r) k s h = record { at = (h r refl).at }

  pub job_row-Keeps :
      {B : Type 0} (id : String) (k : JobRow → Method B) (s : Batches)
      → ((r : JobRow) → find_job id s ≡ some r → Keeps (k r) s)
      → Keeps (job_row id >>= k) s
  unfolding job_row ◌>>=◌
  job_row-Keeps id k s h = record { at = (found-Keeps (find_job id s) k s h).at }

  intended-IsNext :
      (b : List ℕ) (x : Job)
      → (not (is_prepared x.work_state) || not (eqb x.attempt_count 0)) ≡ false
      → IsNext x (intended env b x)
  unfolding intended
  intended-IsNext b x h = record {
    onward = record {
      id = refl;
      attempts = ground (arith, h);
      over = λ e. absurd (prepared-open x.work_state e (ground (arith, h)));
      published = λ e. (e, refl, refl);
    };
    attempts = λ _. omega arith;
    unattempted = λ _ e. absurd (ground (arith, e));
  }

  pub demo_intent-Keeps : (id : String) (s : Batches) → Keeps (demo_intent env id) s
  unfolding demo_intent attempt
  demo_intent-Keeps id s = tx-Keeps _ s (
      job_row-Keeps id _ s (λ r e. KeepsAt-bind-raise_if o _ _ _ s (λ h.
        KeepsAt-then o _ _ s
          (save_job-Keeps "demo_intent" id r _ s e (intended-IsNext r.archive r.document h))
          (λ _ t. KeepsAt-pure o r t))))

  settled-IsNext :
      (c : Scenario) (x : Job) → is_unknown x.work_state ≡ true → IsNext x (settled c x)
  unfolding settled
  settled-IsNext demo_success x h =
      IsNext-open x _ refl refl (unknown-open x.work_state h) refl
        (settled_results-kept x.result_state) refl refl
  settled-IsNext demo_cancel x h =
      IsNext-open x _ refl refl (unknown-open x.work_state h) refl (λ e. e) refl refl
  settled-IsNext demo_unknown x h =
      IsNext-open x x refl refl (unknown-open x.work_state h) (unknown-begun x.work_state h)
        (λ e. e) refl refl

  settle-Keeps :
      (id : String) (c : Scenario) (r : JobRow) (b : Bool) (s : Batches)
      → find_job id s ≡ some r
      → is_unknown r.document.work_state ≡ b
      → Keeps (settle_unknown env c r.document b) s
  unfolding settle_unknown
  settle-Keeps id c r false s e h = KeepsAt-pure o _ s
  settle-Keeps id c r true s e h = save_job-Keeps _ id r _ s e (settled-IsNext c r.document h)

  pub demo_settle-Keeps :
      (id : String) (c : Scenario) (s : Batches) → Keeps (demo_settle env id c) s
  unfolding demo_settle
  demo_settle-Keeps id c s =
      tx-Keeps _ s (job_row-Keeps id _ s (λ r e. settle-Keeps id c r _ s e refl))

  canceled-IsNext : (x : Job) → is_over x.work_state ≡ false → IsNext x (canceled_job x)
  unfolding canceled_job
  canceled-IsNext x h = IsNext-open x _ refl refl h (canceled_begun x.work_state) (λ e. e) refl refl

  cancel_open-Keeps :
      (id : String) (r : JobRow) (b : Bool) (s : Batches)
      → find_job id s ≡ some r
      → (r.document.cancel_requested || is_over r.document.work_state) ≡ b
      → Keeps (cancel_open env r.document b) s
  unfolding cancel_open
  cancel_open-Keeps id r true s e h = KeepsAt-pure o _ s
  cancel_open-Keeps id r false s e h =
      save_job-Keeps _ id r _ s e
        (canceled-IsNext r.document (or_right r.document.cancel_requested _ h))

  pub cancel-Keeps : (id : String) (s : Batches) → Keeps (cancel env id) s
  unfolding cancel
  cancel-Keeps id s = tx-Keeps _ s (job_row-Keeps id _ s (λ r e. cancel_open-Keeps id r _ s e refl))

  confirmed-IsNext :
      (c : Outcome) (x : Job) → is_unconfirmed x.work_state ≡ true → IsNext x (confirmed c x)
  unfolding confirmed
  confirmed-IsNext confirm_succeeded x h =
      IsNext-open x _ refl refl (unconfirmed-open x.work_state h) refl
        (settled_results-kept x.result_state) refl refl
  confirmed-IsNext confirm_canceled x h =
      IsNext-open x _ refl refl (unconfirmed-open x.work_state h) refl (λ e. e) refl refl
  confirmed-IsNext confirm_failed x h =
      IsNext-open x _ refl refl (unconfirmed-open x.work_state h) refl (λ e. e) refl refl

  pub demo_confirm-Keeps :
      (id : String) (c : Outcome) (s : Batches) → Keeps (demo_confirm env id c) s
  unfolding demo_confirm
  demo_confirm-Keeps id c s = tx-Keeps _ s (
      job_row-Keeps id _ s (λ r e. KeepsAt-bind-raise_if o _ _ _ s (λ h.
        save_job-Keeps _ id r _ s e
          (confirmed-IsNext c r.document (second_not (is_fixture r.document.mode) _ h)))))
