-- ===== src/Store/Invariant/Rooms.antt =====
-- Leases and attempts in every history.
use selfhost_models.Prelude.{
  ℕ, ◌≤◌, ◌≡◌, refl, sym, subst, Bool, false, ◌||◌, List, leb, length, arith, ◌==◌,
}
use selfhost_models.Sql.Laws.{All, All-not, All-map, length-insert, length-delete}
use selfhost_models.Sql.Rows.{Rows, Rows-update}
use selfhost_models.Sql.Members.{In, In-All}
use selfhost_models.Sql.Pairs.{Pairs, Pairs-insert, Pairs-delete, Pairs-Rows, length-Rows}
use selfhost_models.Tables.{Lease, Attempt, Registered}
use selfhost_models.Sql.{delete, exists}
use selfhost_models.Schema.Deployment.{Config}
use selfhost_models.Store.Base.{World, Env}
use selfhost_models.Store.Control.{fail_queued, lose_inflight, take_over, clear_leases}
use selfhost_models.Store.Budget.{spend_load, add_window, close_window}
use selfhost_models.Store.Queue.{cancel_update}
use selfhost_models.Store.Dispatch.{
  fail_job, spend_generation, add_attempt, add_lease, start_job, move_attempt, doubt_leases,
  release_lease, detach_lease, doubt_orphaned,
}
use selfhost_models.Store.Submission.{add_job, add_dependency}
use selfhost_models.Store.Receipts.{
  add_receipt, record_terminal, mark_available, mark_storage_failed, release_granted,
}
use selfhost_models.Store.Steps.{Reach}
use selfhost_models.Store.Steps.Rules.{Rules, Core, core, on}
use selfhost_models.Store.Steps.Histories.{Reach-holds}
use selfhost_models.Store.Invariant.Frames.{Kept, core-refresh, core-remove, core-unlink}

-- Two attempts differ in id and in job.
abbrev pub Distinct : Attempt → Attempt → Type 0
Distinct x y = ((x.id == y.id) ≡ false) × ((x.job == y.job) ≡ false)

abbrev pub OtherId : Lease → Lease → Type 0
OtherId x y = (x.id == y.id) ≡ false

pub record LeaseTable (room : ℕ) (leases : List Lease) : Type 0 where
  pub others : Pairs OtherId leases
  pub few : length leases ≤ room

-- No deployment has more room than `room`, no more leases are held, each under an id of its own,
-- and no job has two attempts.
pub record Roomy (room : ℕ) (deployments : List Registered) (leases : List Lease)
    (attempts : List Attempt) : Type 0 where
  pub small : All (λ r. r.spec.load.capacity ≤ room) deployments
  pub leased : LeaseTable room leases
  pub single : Pairs Distinct attempts

abbrev pub IsRoomy : ℕ → Core → Type 0
IsRoomy room c = Roomy room c.deployments c.leases c.attempts

abbrev SameLease : Lease → Lease → Type 0
SameLease x y = y.id ≡ x.id

abbrev SameAttempt : Attempt → Attempt → Type 0
SameAttempt x y = (y.id ≡ x.id) × (y.job ≡ x.job)

same_lease : (x x' y y' : Lease) → SameLease x x' → SameLease y y' → OtherId x y → OtherId x' y'
same_lease x x' y y' a b h =
    subst (λ n. (n == y'.id) ≡ false) (sym a) (subst (λ n. (x.id == n) ≡ false) (sym b) h)

same_attempt :
    (x x' y y' : Attempt) → SameAttempt x x' → SameAttempt y y' → Distinct x y → Distinct x' y'
same_attempt x x' y y' a b h = (
  subst (λ n. (n == y'.id) ≡ false) (sym a.0) (subst (λ n. (x.id == n) ≡ false) (sym b.0) h.0),
  subst (λ n. (n == y'.job) ≡ false) (sym a.1) (subst (λ n. (x.job == n) ≡ false) (sym b.1) h.1),
)

Rows-leased :
    {room : ℕ} (xs ys : List Lease) → Rows SameLease xs ys → LeaseTable room xs → LeaseTable room ys
Rows-leased {room} xs ys r h = record {
  others = Pairs-Rows OtherId SameLease xs ys same_lease r h.others;
  few = subst (λ n. n ≤ room) (sym (length-Rows SameLease xs ys r)) h.few;
}

delete-leased :
    {room : ℕ} (p : Lease → Bool) (xs : List Lease)
    → LeaseTable room xs
    → LeaseTable room (delete p xs)
delete-leased p xs h = record {
  others = Pairs-delete OtherId p xs h.others;
  few = omega (arith, length-delete p xs, h.few);
}

add_attempt-IsRoomy :
    (room : ℕ) (s : World) (a : Attempt)
    → exists (λ (x : Attempt). x.id == a.id || x.job == a.job) s.attempts ≡ false
    → IsRoomy room (core s)
    → IsRoomy room (core (on s (add_attempt a)))
unfolding add_attempt
add_attempt-IsRoomy room s a e h = record {
  small = h.small;
  leased = h.leased;
  single =
      Pairs-insert Distinct a s.attempts
        (All-map _ _ s.attempts (λ x k. (ground (arith, k), ground (arith, k)))
          (All-not _ s.attempts e))
        h.single;
}

add_lease-IsRoomy :
    (room : ℕ) (s : World) (l : Lease) (r : Registered)
    → exists (λ (x : Lease). x.id == l.id) s.leases ≡ false
    → In r s.deployments
    → leb r.spec.load.capacity (length s.leases) ≡ false
    → IsRoomy room (core s)
    → IsRoomy room (core (on s (add_lease l)))
unfolding add_lease
add_lease-IsRoomy room s l r e i c h = record {
  small = h.small;
  leased = record {
    others = Pairs-insert OtherId l s.leases (All-not _ s.leases e) h.leased.others;
    few = ground (
      arith,
      length-insert l s.leases,
      In-All (λ (x : Registered). x.spec.load.capacity ≤ room) r s.deployments i h.small,
    );
  };
  single = h.single;
}

room_rules : (env : Env) (room : ℕ) → Rules env (Kept (IsRoomy room))
unfolding fail_queued lose_inflight take_over clear_leases spend_load spend_generation add_window
    close_window cancel_update fail_job add_attempt add_lease start_job move_attempt doubt_leases
    release_lease detach_lease doubt_orphaned release_granted add_job add_dependency add_receipt
    record_terminal mark_available mark_storage_failed
room_rules env room = record {
  order = record { same = λ s h. h; step = λ s t u f g h. g (f h) };
  rollback = λ s t f h. h;
  quiet = λ s t e h. subst (IsRoomy room) (sym e) h;
  fail_queued_rule = λ s e p h. h;
  lose_inflight_rule = λ s e h. h;
  take_over_rule = λ s n p h. record {
    small = h.small;
    leased =
        Rows-leased s.leases _ (Rows-update SameLease _ _ s.leases (λ l e. refl) (λ l e. refl))
          h.leased;
    single = h.single;
  };
  clear_leases_rule = λ s h. record {
    small = h.small;
    leased = record { others = tt; few = omega arith };
    single = h.single;
  };
  spend_load_rule = λ s n a b w h. h;
  spend_generation_rule = λ s b w h. h;
  add_window_rule = λ s name l g t h. h;
  close_window_rule = λ s name h. h;
  refresh_queue_rule = λ s h. subst (IsRoomy room) (sym (core-refresh env.clock s)) h;
  cancel_rule = λ s j h. h;
  fail_job_rule = λ s e j h. h;
  add_attempt_rule = λ s a e h. add_attempt-IsRoomy room s a e h;
  add_lease_rule = λ s l r e i c h. add_lease-IsRoomy room s l r e i c h;
  start_job_rule = λ s a j h. h;
  move_attempt_rule = λ s a to e h. h;
  doubt_leases_rule = λ s p w h. record {
    small = h.small;
    leased =
        Rows-leased s.leases _ (Rows-update SameLease _ _ s.leases (λ l e. refl) (λ l e. refl))
          h.leased;
    single = h.single;
  };
  release_lease_rule = λ s r e o h. record {
    small = h.small;
    leased = delete-leased _ s.leases h.leased;
    single = h.single;
  };
  detach_lease_rule = λ s r o h. record {
    small = h.small;
    leased =
        Rows-leased s.leases _ (Rows-update SameLease _ _ s.leases (λ l e. refl) (λ l e. refl))
          h.leased;
    single = h.single;
  };
  doubt_orphaned_rule = λ s o h. record {
    small = h.small;
    leased =
        Rows-leased s.leases _ (Rows-update SameLease _ _ s.leases (λ l e. refl) (λ l e. refl))
          h.leased;
    single = h.single;
  };
  release_granted_rule = λ s a g h. record {
    small = h.small;
    leased = delete-leased _ s.leases h.leased;
    single = h.single;
  };
  add_job_rule = λ s j q e r c h. h;
  add_dependency_rule = λ s j p h. h;
  add_receipt_rule = λ s r e h. h;
  record_terminal_rule = λ s a j r h. record {
    small = h.small;
    leased = delete-leased _ s.leases h.leased;
    single =
        Pairs-Rows Distinct SameAttempt s.attempts _ same_attempt
          (Rows-update SameAttempt _ _ s.attempts (λ x e. (refl, refl)) (λ x e. (refl, refl)))
          h.single;
  };
  mark_available_rule = λ s r j n h. h;
  mark_storage_failed_rule = λ s a h. h;
  remove_job_rule = λ s j h. subst (IsRoomy room) (sym (core-remove j s)) (record {
    small = h.small;
    leased = h.leased;
    single = Pairs-delete Distinct _ s.attempts h.single;
  });
  unlink_rule = λ s g h. subst (IsRoomy room) (sym (core-unlink g s)) h;
}

-- In every history of calls, in any order and with any failures in between, no more leases are
-- held than the roomiest registered deployment has room for, no two leases share an id, and no two
-- of the stored attempts share an id or a job, when this was so at the start.
pub leases-IsRoomy :
    (config : Config) (room : ℕ) (s t : World)
    → IsRoomy room (core s)
    → Reach config s t
    → IsRoomy room (core t)
leases-IsRoomy config room s t h r =
    Reach-holds (record { same = λ s h. h; step = λ s t u f g h. g (f h) })
      (λ env e. room_rules env room) r h
