-- ===== src/Store/Steps/Submitting.antt =====
-- submit holds a relation that has the rules. The room for one more job that its checks find is
-- still there when the row is inserted.
use selfhost_models.Prelude.{
  ℕ, ◌≡◌, refl, sym, subst, String, Bool, true, false, Option, none, some, List, ◌∷◌, [], leb,
  length, leb-ltb,
}
use selfhost_models.Sql.{count}
use selfhost_models.Action.{◌>>=◌}
use selfhost_models.Action.Keeps.{
  KeepsAt, KeepsAt-then, KeepsAt-bind-gets, KeepsAt-bind-raise_if, KeepsAt-pure,
}
use selfhost_models.Schema.Deployment.{Deployment}
use selfhost_models.Schema.Job.{SubmitJob, Input, chat_input, audio_input}
use selfhost_models.Tables.{Job, is_queued}
use selfhost_models.Store.Base.{World, Env, Method, event}
use selfhost_models.Store.Submission.{
  check_admission, check_input, check_submission, insert_pin, pin_audio, add_job,
  insert_dependencies, insert_job, accept_job, submit_keyed, submit,
}
use selfhost_models.Store.Steps.Rules.{Rules, Core, core}
use selfhost_models.Store.Steps.Parts.{step_rules, exec-bind, deployment-bind}
use selfhost_models.Store.Steps.Quiet.{Quiet-then, KeepsAt-assoc, budget-Quiet, put-Quiet}

abbrev Room : Env → Core → Type 0
Room env c =
    (leb env.config.retained_jobs (length c.jobs) ≡ false)
    × (leb env.config.queue_capacity (count (λ (j : Job). is_queued j.state) c.jobs) ≡ false)

module _ {env : Env} {R : World → World → Type 0} (p : Rules env R) where
  check_admission-Keeps : (s : World) → KeepsAt R check_admission s
  unfolding check_admission
  check_admission-Keeps s = search step_rules depth 20

  check_input-Keeps :
      (d : Deployment) (b : Bool) (i : Input) (s : World) → KeepsAt R (check_input d b i) s
  unfolding check_input
  check_input-Keeps d true (chat_input c) s = search step_rules depth 20
  check_input-Keeps d true (audio_input a) s = search step_rules depth 20
  check_input-Keeps d false (chat_input c) s = search step_rules depth 20
  check_input-Keeps d false (audio_input a) s = search step_rules depth 20

  module _ {B : Type 0} where
    checked-bind :
        (spec : SubmitJob) (d : Deployment) (k : Unit {0} → Method B) (s : World)
        → ((t : World) → Room env (core t) → KeepsAt R (k tt) t)
        → KeepsAt R (check_submission env spec d >>= k) s
    unfolding check_submission
    checked-bind spec d k s h = KeepsAt-assoc _ _ k s (
        KeepsAt-bind-gets p.order _ _ s (
          KeepsAt-assoc _ _ k s (
            KeepsAt-bind-raise_if p.order _ _ _ s λ a. KeepsAt-assoc _ _ k s (
              KeepsAt-bind-raise_if p.order _ _ _ s λ b. KeepsAt-assoc _ _ k s (
                KeepsAt-then p.order _ _ s (check_input-Keeps d _ _ s) λ u t.
                  KeepsAt-assoc _ _ k t (
                    KeepsAt-bind-gets p.order _ _ t (
                      KeepsAt-assoc _ _ k t (
                        KeepsAt-bind-raise_if p.order _ _ _ t λ c. KeepsAt-assoc _ _ k t (
                          KeepsAt-bind-gets p.order _ _ t (
                            KeepsAt-assoc _ _ k t (
                              KeepsAt-bind-raise_if p.order _ _ _ t λ full. KeepsAt-assoc _ _ k t (
                                KeepsAt-bind-gets p.order _ _ t (
                                  KeepsAt-bind-raise_if p.order _ _ _ t
                                    λ waiting. h t (full, waiting))))))))))))))

    insert_job-bind :
        (j : Job) (k : Job → Method B) (s : World)
        → Room env (core s)
        → ((a : Job) (t : World) → KeepsAt R (k a) t)
        → KeepsAt R (insert_job j >>= k) s
    unfolding insert_job
    insert_job-bind j k s r h = KeepsAt-assoc _ _ k s (
        KeepsAt-bind-gets p.order _ _ s (
          KeepsAt-assoc _ _ k s (
            KeepsAt-bind-raise_if p.order _ _ _ s λ fresh. KeepsAt-assoc _ _ k s (
              KeepsAt-bind-gets p.order _ _ s (
                KeepsAt-assoc _ _ k s (
                  exec-bind p (add_job _) _ s
                    (p.add_job_rule s _ refl fresh (leb-ltb _ _ r.0) (leb-ltb _ _ r.1))
                    (KeepsAt-then p.order _ _ _ (KeepsAt-pure p.order _ _) λ a t. h a t)))))))

  insert_pin-Keeps : (o r : String) (s : World) → KeepsAt R (insert_pin o r) s
  unfolding insert_pin
  insert_pin-Keeps o r s = search step_rules depth 20

  pin_audio-Keeps : (o : String) (i : Input) (s : World) → KeepsAt R (pin_audio o i) s
  unfolding pin_audio
  pin_audio-Keeps o (chat_input c) s = search step_rules
  pin_audio-Keeps o (audio_input a) s = insert_pin-Keeps o _ s

  insert_dependencies-Keeps :
      (j : String) (ps : List String) (s : World) → KeepsAt R (insert_dependencies j ps) s
  unfolding insert_dependencies
  insert_dependencies-Keeps j [] s = search step_rules
  insert_dependencies-Keeps j (x ∷ xs) s = KeepsAt-bind-gets p.order _ _ s (
      KeepsAt-bind-raise_if p.order _ _ _ s
        λ fresh. exec-bind p _ _ s (p.add_dependency_rule s j x) (insert_dependencies-Keeps j xs _))

  module _ (spec : SubmitJob) (key : String) (content : List ℕ) (hash uuid : String) where
    accept_job-Keeps : (s : World) → KeepsAt R (accept_job env spec key content hash uuid) s
    unfolding accept_job event
    accept_job-Keeps s = KeepsAt-then p.order _ _ s (check_admission-Keeps s) λ u t.
        deployment-bind p _ _ t λ d h. checked-bind spec _ _ t λ v r.
          Quiet-then p _ _ v (budget-Quiet env _ v) λ a w e.
            Quiet-then p _ _ w (put-Quiet env _ _ _ _ w) λ ref x f.
              insert_job-bind _ _ x (subst (Room env) (sym f) (subst (Room env) (sym e) r)) λ j y.
                KeepsAt-then p.order _ _ y (insert_pin-Keeps _ _ y) λ b z.
                  search (step_rules, KeepsAt-then, pin_audio-Keeps, insert_dependencies-Keeps)
                    depth 20

    submit_keyed-Keeps :
        (o : Option Job) (s : World) → KeepsAt R (submit_keyed env spec key content hash uuid o) s
    unfolding submit_keyed
    submit_keyed-Keeps none s = accept_job-Keeps s
    submit_keyed-Keeps (some j) s = search step_rules depth 20

  pub submit-Keeps :
      (spec : SubmitJob) (key uuid : String) (s : World) → KeepsAt R (submit env spec key uuid) s
  unfolding submit
  submit-Keeps spec key uuid s = search (step_rules, submit_keyed-Keeps) depth 20
