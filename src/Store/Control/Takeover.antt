-- ===== src/Store/Control/Takeover.antt =====
-- What a new controller finds after acquire_controller.
use selfhost_models.Prelude.{
  ◌≤◌, ℕ, ◌+◌, ◌≡◌, refl, true, false, ◌&&◌, not, none, some, List, [], ◌∷◌, arith, String,
  Bool-cases, inl, inr, ◌⊎◌, is_some,
}
use selfhost_models.Sql.{update}
use selfhost_models.Sql.Laws.{All}
use selfhost_models.Action.{ok, err, scheduler, ◌>>=◌}
use selfhost_models.Tables.{
  Job, JobState, Lease, LeaseState, Phase, is_inflight, is_loading, is_unknown, unloaded,
}
use selfhost_models.Store.Base.{World, Env, execute, tx, finish, state, event}
use selfhost_models.Store.Fencing.{Call, run_call, run_call-stale}
use selfhost_models.Store.Control.{
  acquire_controller, take_over, lose_inflight, preparation_interrupted, has_leases, unload, block,
  fail_queued, unpin_model,
}

-- No job is in flight and no lease is believed in.
pub record IsDoubted (w : World) : Type 0 where
  pub jobs : All (λ (j : Job). is_inflight j.state ≡ false) w.jobs
  pub leases : All (λ (l : Lease). is_unknown l.state ≡ true) w.leases

module _ (error : String) where
  inflight-lose :
      (js : List Job)
      → All
          (λ (j : Job). is_inflight j.state ≡ false)
          (update
            (λ j. is_inflight j.state)
            (λ j. record j { state = JobState.unknown; error = some error })
            js)
  unfolding update
  inflight-lose [] = tt
  inflight-lose (j ∷ js) = (ground arith, inflight-lose js)

unknown-update :
    (ls : List Lease)
    → All
        (λ (l : Lease). is_unknown l.state ≡ true)
        (update (λ l. true) (λ l. record l { state = LeaseState.unknown }) ls)
unfolding update
unknown-update [] = tt
unknown-update (l ∷ ls) = (refl, unknown-update ls)

-- acquire_controller, when its commit does not fail, returns the next epoch, which is then the
-- current one; no job is left in flight and every lease is unknown; the engine counts as unloaded
-- or as unknown, whatever phase the earlier controller had recorded.
pub acquire_controller-IsDoubted :
    (env : Env) (w : World)
    → env.fault "before_commit" ≡ none
    → ((acquire_controller env w).0 ≡ ok (w.controller.epoch + 1))
      × ((acquire_controller env w).1.controller.epoch ≡ w.controller.epoch + 1)
      × IsDoubted (acquire_controller env w).1
      × (((acquire_controller env w).1.controller.phase ≡ unloaded)
          ⊎ ((acquire_controller env w).1.controller.phase ≡ Phase.unknown))
unfolding acquire_controller tx finish state preparation_interrupted take_over lose_inflight unload
    block fail_queued unpin_model execute event ◌>>=◌
acquire_controller-IsDoubted env w h =
    elim (Bool-cases (
      is_loading w.controller.phase && (not (is_some w.controller.handle) && not (has_leases w)))) [
        | inl e ↦
            rw (e, h)
              (refl, refl, record { jobs = inflight-lose _ _; leases = unknown-update _ }, inl refl)
        | inr e ↦
            rw (e, h)
              (
                refl,
                refl,
                record { jobs = inflight-lose _ _; leases = unknown-update _ },
                ground arith,
              )
      ]

-- After a takeover whose commit does not fail, each of the fifteen transactions that a Call names,
-- made with the epoch of an earlier controller, raises stale_controller and changes nothing.
pub acquire_controller-fences :
    (env later : Env) (w : World) (c : Call) (epoch : ℕ)
    → env.fault "before_commit" ≡ none
    → epoch ≤ w.controller.epoch
    → run_call later epoch c (acquire_controller env w).1
      ≡ (err (scheduler "stale_controller" 409), (acquire_controller env w).1)
acquire_controller-fences env later w c epoch h le =
    run_call-stale later epoch c (acquire_controller env w).1
      (λ e. omega (arith, (acquire_controller-IsDoubted env w h).1))
