-- ===== src/Store/Invariant/Table.antt =====
-- The table of jobs in every history.
use selfhost_models.Prelude.{
  ℕ, ◌+◌, ◌≤◌, ◌<◌, ◌≡◌, refl, sym, subst, ap, Bool, true, false, ◌||◌, List, [], ◌∷◌, ltb, length,
  arith, inl, inr, ◌==◌, if◌then◌else◌,
}
use selfhost_models.Sql.Laws.{
  All, All-insert, All-delete, All-map, All-not, length-insert, length-delete,
}
use selfhost_models.Sql.Rows.{Rows, Rows-update, Rows-refl, Rows-All}
use selfhost_models.Sql.Pairs.{
  Pairs, Pairs-insert, Pairs-delete, Pairs-map, Pairs-Rows, length-Rows,
}
use selfhost_models.Tables.{Db, Job, is_queued, is_active}
use selfhost_models.Sql.{update, delete, exists}
use selfhost_models.Schema.Deployment.{Config}
use selfhost_models.Store.Base.{World, Env}
use selfhost_models.Store.Control.{fail_queued, lose_inflight, take_over, clear_leases}
use selfhost_models.Store.Budget.{spend_load, add_window, close_window}
use selfhost_models.Store.Queue.{cancel_update, refresh_queue, cancel_queued}
use selfhost_models.Store.Queue.Refresh.{refresh_queue-IsRefresh, Refreshed}
use selfhost_models.Store.Dispatch.{
  fail_job, spend_generation, add_attempt, add_lease, start_job, move_attempt, doubt_leases,
  release_lease, detach_lease, doubt_orphaned,
}
use selfhost_models.Store.Submission.{add_job, add_dependency}
use selfhost_models.Store.Receipts.{
  add_receipt, record_terminal, mark_available, mark_storage_failed, release_granted,
}
use selfhost_models.Store.Steps.{Reach}
use selfhost_models.Store.Steps.Rules.{Rules, Core, core, on}
use selfhost_models.Store.Steps.Histories.{Reach-holds}
use selfhost_models.Store.Invariant.Frames.{Kept, core-refresh, core-remove, core-unlink}

-- The earlier row has the lower number, and the two differ in id and in idempotency key.
abbrev pub Apart : Job → Job → Type 0
Apart x y = (x.seq < y.seq) × ((x.id == y.id) ≡ false) × ((x.idem == y.idem) ≡ false)

-- The table is in the order of its numbers, which have been given out, no two jobs share an id or
-- an idempotency key, and there are no more of them than may be retained.
pub record JobTable (config : Config) (jobs : List Job) (seq : ℕ) : Type 0 where
  pub apart : Pairs Apart jobs
  pub numbered : All (λ j. j.seq ≤ seq) jobs
  pub kept : length jobs ≤ config.retained_jobs

abbrev pub IsTable : Config → Core → Type 0
IsTable config c = JobTable config c.jobs c.job_seq

-- A row that was changed keeps its number, id and key.
abbrev SameKey : Job → Job → Type 0
SameKey x y = (y.seq ≡ x.seq) × (y.id ≡ x.id) × (y.idem ≡ x.idem)

same-Apart : (x x' y y' : Job) → SameKey x x' → SameKey y y' → Apart x y → Apart x' y'
same-Apart x x' y y' a b h = (
  subst (λ n. n < y'.seq) (sym a.0) (subst (λ n. x.seq < n) (sym b.0) h.0),
  subst (λ n. (n == y'.id) ≡ false) (sym a.1) (subst (λ n. (x.id == n) ≡ false) (sym b.1) h.1),
  subst (λ n. (n == y'.idem) ≡ false) (sym a.2) (subst (λ n. (x.idem == n) ≡ false) (sym b.2) h.2),
)

Rows-IsTable :
    {config : Config} {seq : ℕ} (xs ys : List Job)
    → Rows SameKey xs ys
    → JobTable config xs seq
    → JobTable config ys seq
Rows-IsTable {config} {seq} xs ys r h = record {
  apart = Pairs-Rows Apart SameKey xs ys same-Apart r h.apart;
  numbered =
      Rows-All SameKey (λ (j : Job). j.seq ≤ seq) xs ys
        (λ x y q k. subst (λ n. n ≤ seq) (sym q.0) k) r h.numbered;
  kept = subst (λ n. n ≤ config.retained_jobs) (sym (length-Rows SameKey xs ys r)) h.kept;
}

Refreshed-key : (now : ℕ) (d : Db) (j k : Job) → Refreshed now d j k → SameKey j k
Refreshed-key now d j k (inl e) =
    (ap (λ (x : Job). x.seq) e, ap (λ (x : Job). x.id) e, ap (λ (x : Job). x.idem) e)
Refreshed-key now d j k (inr (q, inl (t, e))) =
    (ap (λ (x : Job). x.seq) e, ap (λ (x : Job). x.id) e, ap (λ (x : Job). x.idem) e)
Refreshed-key now d j k (inr (q, inr (t, e))) =
    (ap (λ (x : Job). x.seq) e, ap (λ (x : Job). x.id) e, ap (λ (x : Job). x.idem) e)

Rows-key : (now : ℕ) (d : Db) (xs ys : List Job) → Rows (Refreshed now d) xs ys → Rows SameKey xs ys
Rows-key now d [] [] r = tt
Rows-key now d [] (y ∷ ys) r = r
Rows-key now d (x ∷ xs) [] r = r
Rows-key now d (x ∷ xs) (y ∷ ys) r = (Refreshed-key now d x y r.0, Rows-key now d xs ys r.1)

refresh-IsTable :
    (config : Config) (now : ℕ) (s : World)
    → IsTable config (core s)
    → JobTable config (refresh_queue now s.db).jobs s.job_seq
refresh-IsTable config now s h =
    Rows-IsTable s.jobs (refresh_queue now s.db).jobs
      (Rows-key now _ _ _ (refresh_queue-IsRefresh now s.db).rows) h

cancel-IsTable :
    (env : Env) (s : World) (j : Job)
    → IsTable env.config (core s)
    → IsTable env.config (core (on s (cancel_update env j)))
unfolding cancel_update
cancel-IsTable env s j h = Rows-IsTable s.jobs _ (go (is_queued j.state) (is_active j.state)) h
  where
    go :
        (a b : Bool)
        → Rows SameKey s.jobs (
            if a
            then update (λ x. x.id == j.id) (cancel_queued env) s.jobs
            else if b
            then update (λ x. x.id == j.id) (λ x. record x { cancel_requested = true }) s.jobs
            else s.jobs)
    go true b =
        Rows-update SameKey _ _ s.jobs (λ x e. (refl, refl, refl)) (λ x e. (refl, refl, refl))
    go false true =
        Rows-update SameKey _ _ s.jobs (λ x e. (refl, refl, refl)) (λ x e. (refl, refl, refl))
    go false false = Rows-refl SameKey (λ x. (refl, refl, refl)) s.jobs

new-Apart :
    (j : Job) (n : ℕ) (xs : List Job)
    → j.seq ≡ n + 1
    → All (λ (x : Job). x.seq ≤ n) xs
    → All (λ (x : Job). (x.id == j.id || x.idem == j.idem) ≡ false) xs
    → All (λ x. Apart x j) xs
new-Apart j n [] q a b = tt
new-Apart j n (x ∷ xs) q a b =
    ((omega (arith, a.0, q), ground (arith, b.0), ground (arith, b.0)), new-Apart j n xs q a.1 b.1)

add-IsTable :
    (config : Config) (s : World) (j : Job)
    → j.seq ≡ s.job_seq + 1
    → exists (λ (x : Job). x.id == j.id || x.idem == j.idem) s.jobs ≡ false
    → ltb (length s.jobs) config.retained_jobs ≡ true
    → IsTable config (core s)
    → IsTable config (core (on s (add_job j)))
unfolding add_job
add-IsTable config s j q e r h = record {
  apart =
      Pairs-insert Apart j s.jobs (new-Apart j s.job_seq s.jobs q h.numbered (All-not _ s.jobs e))
        h.apart;
  numbered =
      All-insert (λ (x : Job). x.seq ≤ j.seq) j s.jobs (omega arith)
        (All-map _ _ s.jobs (λ x k. omega (arith, k, q)) h.numbered);
  kept = ground (arith, length-insert j s.jobs);
}

delete-IsTable :
    (config : Config) (j : Job) (s : World)
    → IsTable config (core s)
    → JobTable config (delete (λ (x : Job). x.id == j.id) s.jobs) s.job_seq
delete-IsTable config j s h = record {
  apart = Pairs-delete Apart _ s.jobs h.apart;
  numbered = All-delete _ _ s.jobs h.numbered;
  kept = omega (arith, length-delete (λ (x : Job). x.id == j.id) s.jobs, h.kept);
}

IsTable-rules : (env : Env) → Rules env (Kept (IsTable env.config))
unfolding fail_queued lose_inflight take_over clear_leases spend_load spend_generation add_window
    close_window cancel_update fail_job add_attempt add_lease start_job move_attempt doubt_leases
    release_lease detach_lease doubt_orphaned release_granted add_job add_dependency add_receipt
    record_terminal mark_available mark_storage_failed
IsTable-rules env = record {
  order = record { same = λ s h. h; step = λ s t u f g h. g (f h) };
  rollback = λ s t f h. h;
  quiet = λ s t e h. subst (IsTable env.config) (sym e) h;
  fail_queued_rule = λ s e p h.
      Rows-IsTable _ _
        (Rows-update SameKey _ _ s.jobs (λ j e. (refl, refl, refl)) (λ j e. (refl, refl, refl))) h;
  lose_inflight_rule = λ s e h.
      Rows-IsTable _ _
        (Rows-update SameKey _ _ s.jobs (λ j e. (refl, refl, refl)) (λ j e. (refl, refl, refl))) h;
  take_over_rule = λ s n p h.
      Rows-IsTable _ _
        (Rows-update SameKey _ _ s.jobs (λ j e. (refl, refl, refl)) (λ j e. (refl, refl, refl))) h;
  clear_leases_rule = λ s h. h;
  spend_load_rule = λ s n a b w h. h;
  spend_generation_rule = λ s b w h. h;
  add_window_rule = λ s name l g t h. h;
  close_window_rule = λ s name h. h;
  refresh_queue_rule = λ s h.
      subst (IsTable env.config) (sym (core-refresh env.clock s))
        (refresh-IsTable env.config env.clock s h);
  cancel_rule = λ s j h. cancel-IsTable env s j h;
  fail_job_rule = λ s e j h.
      Rows-IsTable _ _
        (Rows-update SameKey _ _ s.jobs (λ j e. (refl, refl, refl)) (λ j e. (refl, refl, refl))) h;
  add_attempt_rule = λ s a e h. h;
  add_lease_rule = λ s l r e i c h. h;
  start_job_rule = λ s a j h.
      Rows-IsTable _ _
        (Rows-update SameKey _ _ s.jobs (λ j e. (refl, refl, refl)) (λ j e. (refl, refl, refl))) h;
  move_attempt_rule = λ s a to e h.
      Rows-IsTable _ _
        (Rows-update SameKey _ _ s.jobs (λ j e. (refl, refl, refl)) (λ j e. (refl, refl, refl))) h;
  doubt_leases_rule = λ s p w h. h;
  release_lease_rule = λ s r e o h. h;
  detach_lease_rule = λ s r o h. h;
  doubt_orphaned_rule = λ s o h. h;
  release_granted_rule = λ s a g h. h;
  add_job_rule = λ s j q e r c h. add-IsTable env.config s j q e r h;
  add_dependency_rule = λ s j p h. h;
  add_receipt_rule = λ s r e h. h;
  record_terminal_rule = λ s a j r h.
      Rows-IsTable _ _
        (Rows-update SameKey _ _ s.jobs (λ j e. (refl, refl, refl)) (λ j e. (refl, refl, refl))) h;
  mark_available_rule = λ s r j n h.
      Rows-IsTable _ _
        (Rows-update SameKey _ _ s.jobs (λ j e. (refl, refl, refl)) (λ j e. (refl, refl, refl))) h;
  mark_storage_failed_rule = λ s a h.
      Rows-IsTable _ _
        (Rows-update SameKey _ _ s.jobs (λ j e. (refl, refl, refl)) (λ j e. (refl, refl, refl))) h;
  remove_job_rule =
      λ s j h. subst (IsTable env.config) (sym (core-remove j s)) (delete-IsTable env.config j s h);
  unlink_rule = λ s g h. subst (IsTable env.config) (sym (core-unlink g s)) h;
}

-- In every history of calls, in any order and with any failures in between, the jobs stay in the
-- order of their numbers, no two of them get one number, one id or one idempotency key, and there
-- are never more than the configured number to retain, when this was so at the start.
pub jobs-IsTable :
    (config : Config) (s t : World)
    → IsTable config (core s)
    → Reach config s t
    → IsTable config (core t)
jobs-IsTable config s t h r =
    Reach-holds (record { same = λ s h. h; step = λ s t u f g h. g (f h) })
      (λ env e. subst (λ c. Rules env (Kept (IsTable c))) e (IsTable-rules env)) r h

-- What the choice of a job asks of the table.
pub table-IsSorted :
    (config : Config) (jobs : List Job) (seq : ℕ)
    → JobTable config jobs seq
    → Pairs (λ (x y : Job). x.seq < y.seq) jobs
table-IsSorted config jobs seq h = Pairs-map Apart _ jobs (λ x y k. k.0) h.apart
