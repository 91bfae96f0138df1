-- ===== src/Store/Collection/Retention.antt =====
-- Which jobs a collection keeps.
use selfhost_models.Prelude.{ℕ, ◌+◌, ◌≤◌, String, none, some, ◌⊎◌, ◌≡◌, false, [], ◌∷◌, ◌==◌}
use selfhost_models.Store.Grants.{released}
use selfhost_models.Sql.{select, first}
use selfhost_models.Sql.Members.{In}
use selfhost_models.Sql.Pairs.{Pairs}
use selfhost_models.Tables.{
  Job, JobState, queued, dispatching, running, draining, pending, storage_failed, Dependency,
  GrantRow, Retained,
}
use selfhost_models.Store.Base.{World, Env}
use selfhost_models.Store.Collection.{is_collectable, is_stale, remove_jobs, remove_artifacts}
use selfhost_models.Store.Steps.Rules.{on}

abbrev pub job_id : Job → String
job_id j = j.id

module _ (env : Env) (s : World) where
  removed : World
  removed = on s (remove_jobs (select (is_collectable env s) s.jobs))

  swept : World
  unfolding removed
  swept = on removed (remove_artifacts (select (is_stale env removed.db) removed.artifacts))

-- Why a job is kept: it has not ended, or not so long ago as the retention period; it is still
-- under way, or its result is still to be stored; a job depends on it; or the receipt of its
-- attempt's grant is missing or not acknowledged, or the executor's row of it is not released.
pub data IsKept (env : Env) (w : World) (j : Job) : Type 0 where
  not_ended : j.ended ≡ none → IsKept env w j
  recent :
      (t : ℕ) → j.ended ≡ some t → env.clock ≤ t + env.config.retention_seconds → IsKept env w j
  under_way :
      In j.state (queued ∷ dispatching ∷ running ∷ draining ∷ JobState.unknown ∷ [])
      → IsKept env w j
  unsettled : In j.result_state (pending ∷ storage_failed ∷ []) → IsKept env w j
  needed : (e : Dependency) → In e w.dependencies → e.parent ≡ j.id → IsKept env w j
  no_receipt :
      (a : String) (g : GrantRow)
      → j.attempt ≡ some a
      → (a == "") ≡ false
      → first (λ (x : GrantRow). x.attempt == a) w.grants ≡ some g
      → (g.receipt ≡ none) ⊎ (g.acked ≡ false)
      → IsKept env w j
  unreleased :
      (a : String) (g : GrantRow) (r : Retained)
      → j.attempt ≡ some a
      → (a == "") ≡ false
      → first (λ (x : GrantRow). x.attempt == a) w.grants ≡ some g
      → first (λ (x : Retained). x.id == a) w.retained ≡ some r
      → r.released ≡ false
      → IsKept env w j
