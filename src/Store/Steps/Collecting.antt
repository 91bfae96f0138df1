-- ===== src/Store/Steps/Collecting.antt =====
-- collect and sweep hold a relation that has the rules.
use selfhost_models.Prelude.{
  ◌≡◌, ◌∙◌, refl, Bool, true, false, not, List, ◌∷◌, [], if◌then◌else◌, ◌&&◌, ◌==◌,
}
use selfhost_models.Sql.{exists}
use selfhost_models.Action.Keeps.{
  KeepsAt, KeepsAt-then, KeepsAt-bind-gets, KeepsAt-bind-raise_if, KeepsAt-modify,
}
use selfhost_models.Tables.{Job, Artifact, Garbage}
use selfhost_models.Store.Base.{World, Env, ArtifactFile}
use selfhost_models.Store.Collection.{
  discard, remove_job, remove_jobs, remove_artifacts, discard_orphans, is_old, unlink, sweep_rows,
  sweep, collect_rows, collect,
}
use selfhost_models.Store.Steps.Rules.{Rules, on, core}
use selfhost_models.Store.Steps.Parts.{step_rules}

pub remove_artifacts-core :
    (as' : List Artifact) (s : World) → core (on s (remove_artifacts as')) ≡ core s
unfolding remove_artifacts discard
remove_artifacts-core [] s = refl
remove_artifacts-core (a ∷ as') s = remove_artifacts-core as' (on s (remove_artifacts (a ∷ [])))

pub discard_orphans-core :
    (env : Env) (fs : List ArtifactFile) (s : World) → core (on s (discard_orphans env fs)) ≡ core s
unfolding discard_orphans discard
discard_orphans-core env [] s = refl
discard_orphans-core env (f ∷ fs) s =
    discard_orphans-core env fs (on s (discard_orphans env (f ∷ [])))
    ∙ one (is_old env f.mtime && not (exists (λ (a : Artifact). a.ref == f.name) s.artifacts))
  where
    one : (b : Bool) → core (on s (λ d. if b then discard "artifact" f.name d else d)) ≡ core s
    one true = refl
    one false = refl

module _ {env : Env} {R : World → World → Type 0} (p : Rules env R) where
  remove_jobs-holds : (js : List Job) (s : World) → R s (on s (remove_jobs js))
  unfolding remove_jobs
  remove_jobs-holds [] s = p.order.same s
  remove_jobs-holds (j ∷ js) s =
      p.order.step s (on s (remove_job j)) _ (p.remove_job_rule s j)
        (remove_jobs-holds js (on s (remove_job j)))

  remove_artifacts-holds : (as' : List Artifact) (s : World) → R s (on s (remove_artifacts as'))
  remove_artifacts-holds as' s = p.quiet s _ (remove_artifacts-core as' s)

  discard_orphans-holds : (fs : List ArtifactFile) (s : World) → R s (on s (discard_orphans env fs))
  discard_orphans-holds fs s = p.quiet s _ (discard_orphans-core env fs s)

  pub collect_rows-Keeps : (s : World) → KeepsAt R (collect_rows env) s
  unfolding collect_rows
  collect_rows-Keeps s =
      search (step_rules, remove_jobs-holds, remove_artifacts-holds, discard_orphans-holds) depth 20

  sweep_rows-Keeps : (gs : List Garbage) (s : World) → KeepsAt R (sweep_rows gs) s
  unfolding sweep_rows
  sweep_rows-Keeps [] s = search step_rules
  sweep_rows-Keeps (g ∷ gs) s = KeepsAt-bind-gets p.order _ _ s (
      KeepsAt-bind-gets p.order _ _ s (
        KeepsAt-bind-gets p.order _ _ s (
          KeepsAt-bind-raise_if p.order _ _ _ s λ a. KeepsAt-bind-raise_if p.order _ _ _ s λ b.
            KeepsAt-then p.order _ _ s (KeepsAt-modify p.order (unlink g) s (p.unlink_rule s g))
              λ u t. KeepsAt-then p.order _ _ t (search step_rules) λ v w. sweep_rows-Keeps gs w)))

  pub sweep-Keeps : (s : World) → KeepsAt R (sweep env) s
  unfolding sweep
  sweep-Keeps s = search (step_rules, sweep_rows-Keeps) depth 20

  pub collect-Keeps : (s : World) → KeepsAt R (collect env) s
  unfolding collect
  collect-Keeps s = search (step_rules, KeepsAt-then, collect_rows-Keeps, sweep-Keeps) depth 20
