-- ===== src/Store/Receipts.antt =====
-- The end of a computation: terminal, import_executor_receipt, _accept_receipt, recover_receipts,
-- publish and result of selfhost_models/scheduler_store.py.
use selfhost_models.Prelude.{
  ℕ, String, Bool, true, false, ◌&&◌, ◌||◌, not, Option, none, some, List, [], ◌∷◌, length, is,
  is_some, same, truthy, coalesce, ltb, eqb, ◌==◌, if◌then◌else◌,
}
use selfhost_models.Sql.{select, first, exists, update, delete, insert}
use selfhost_models.Action.{
  Error, Result, ok, err, scheduler, integrity, os_error, type_error, pure, raise, gets, row,
  raise_if, modify, when, ◌>>=◌, ◌>>◌,
}
use selfhost_models.Schema.Text.{hex_ref}
use selfhost_models.Tables.{
  Db, Job, JobState, Attempt, Lease, Kind, Grant, Owner, controller_epoch, api_process, pending,
  available, storage_failed, succeeded, failed, canceled, is_available, is_job, text, state_text,
  Binding,
}
use selfhost_models.Store.Base.{
  World, Env, Method, Receipt, execute, fault, tx, event, fenced, pin, receipt_bytes,
}
use selfhost_models.Store.Queue.{require_job}
use selfhost_models.Store.Grants.{execution_binding, execution_grant, execution_receipt}
use selfhost_models.Store.Dispatch.{or_stale}
use selfhost_models.Store.Artifacts.{put, artifact}

-- self.receipt_path(attempt)
unfoldable pub check_attempt : String → Method Unit
check_attempt attempt = raise_if (not (hex_ref "" 32 attempt)) (scheduler "invalid_attempt" 400)

unfoldable pub find_receipt : String → World → Option Receipt
find_receipt attempt w = first (λ r. r.attempt == attempt) w.receipt_files

-- durable_write of a receipt that is not there
unfoldable pub add_receipt : Receipt → World → World
add_receipt r w = record w { receipt_files = insert r w.receipt_files }

-- The receipt that counts: the one on disk, which must agree, or the new one, which is written.
unfoldable pub settle_receipt : Env → Receipt → Option Receipt → Method Receipt
settle_receipt env receipt (some old) = do
  raise_if (not (old.result == receipt.result) || not (same old.error receipt.error))
      (scheduler "receipt_conflict" 409)
  pure old
settle_receipt env receipt none = do
  fault env "receipt_write"
  raise_if (env.io_fails receipt.attempt) os_error
  modify (add_receipt receipt)
  pure receipt

unfoldable pub save_receipt : Env → Receipt → Method Receipt
save_receipt env receipt = do
  check_attempt receipt.attempt
  old ← gets (find_receipt receipt.attempt)
  r ← settle_receipt env receipt old
  fault env "after_receipt"
  pure r

-- The state that a finished job takes.
unfoldable pub outcome : Job → Receipt → JobState
outcome j r =
    if j.cancel_requested
    then canceled
    else if truthy r.error || is j.error "execution_timeout"
    then failed
    else succeeded

-- The UPDATEs and the DELETE of _accept_receipt.
unfoldable pub record_terminal : Attempt → Job → Receipt → Db → Db
record_terminal a j r d = record d {
  attempts =
      update (λ x. x.id == a.id) (λ x. record x { terminal = some r.terminal_at; error = r.error })
        d.attempts;
  jobs =
      update (λ x. x.id == a.job)
        (λ x. record x {
          state = outcome j r;
          result_state = pending;
          ended = some r.terminal_at;
          error = coalesce r.error x.error;
        })
        d.jobs;
  leases = delete (λ l. l.id == a.id) d.leases;
}

-- self._accept_receipt(c, a, receipt)
unfoldable pub accept_receipt : Env → Attempt → Receipt → Method Unit
accept_receipt env a r = do
  raise_if
      (not (r.job == a.job)
        || (not (r.worker_epoch == a.worker_epoch)
            || (not (eqb r.owner a.owner) || not (r.attempt == a.id))))
      (scheduler "receipt_identity_mismatch" 409)
  found ← gets (λ w. first (λ (x : Job). x.id == a.job) w.jobs)
  j ← row found
  if is_available j.result_state || is_some a.terminal then pure tt else do
    execute (record_terminal a j r)
    execute (
        event env "compute_terminal" (some a.job)
          (("attempt", text a.id) ∷ ("state", text (state_text (outcome j r))) ∷ []))

-- UPDATE jobs SET result_state='available',result_ref=?,reservation=? WHERE id=?
unfoldable pub mark_available : String → ℕ → String → Db → Db
mark_available ref size jid d = record d {
  jobs =
      update (λ x. x.id == jid)
        (λ x. record x { result_state = available; result_ref = some ref; reservation = size })
        d.jobs;
}

-- UPDATE jobs SET result_state='storage_failed' WHERE attempt=? AND result_state!='available'
unfoldable pub mark_storage_failed : String → Db → Db
mark_storage_failed attempt d = record d {
  jobs =
      update (λ x. is x.attempt attempt && not (is_available x.result_state))
        (λ x. record x { result_state = storage_failed }) d.jobs;
}

unfoldable pub finished : Option Attempt → Method Attempt
finished none = raise (scheduler "compute_not_terminal" 409)
finished (some a) =
    if is_some a.terminal then pure a else raise (scheduler "compute_not_terminal" 409)

unfoldable pub readable : Option Receipt → Method Receipt
readable none = raise os_error
readable (some r) = pure r

-- What `publish` does for a job whose result is not available yet.
unfoldable pub publish_file : Env → String → Attempt → Method Unit
publish_file env attempt a = do
  check_attempt attempt
  file ← gets (find_receipt attempt)
  r ← readable file
  fault env "publish"
  ref ← put env (env.encode r.result) "application/json" none true
  fault env "publish_commit"
  execute (pin a.job ref)
  execute (mark_available ref (receipt_bytes env r) a.job)
  execute (event env "result_available" (some a.job) [])

-- The transaction of `publish`.
unfoldable pub publish_result : Env → ℕ → String → Method Unit
publish_result env epoch attempt = tx env do
  fenced epoch
  found ← gets (λ w. first (λ (a : Attempt). a.id == attempt) w.attempts)
  a ← finished found
  mine ← gets (λ w. first (λ (x : Job). x.id == a.job) w.jobs)
  j ← row mine
  if is_available j.result_state then pure tt else publish_file env attempt a

-- The transaction of `publish` for a result that could not be stored.
unfoldable pub note_failure : Env → ℕ → String → Method Unit
note_failure env epoch attempt = tx env do fenced epoch; execute (mark_storage_failed attempt)

-- except (OSError, sqlite3.Error): note it, and raise
unfoldable pub storage_failure : Env → ℕ → String → Error → Method Unit
storage_failure env epoch attempt e = do note_failure env epoch attempt; raise e

unfoldable pub after_publish : Env → ℕ → String → Result Unit → Method Unit
after_publish env epoch attempt (ok u) = pure u
after_publish env epoch attempt (err os_error) = storage_failure env epoch attempt os_error
after_publish env epoch attempt (err integrity) = storage_failure env epoch attempt integrity
after_publish env epoch attempt (err e) = raise e

unfoldable pub publish : Env → ℕ → String → Method Unit
publish env epoch attempt w =
    let (r, w') = publish_result env epoch attempt w in after_publish env epoch attempt r w'

-- the receipt of an attempt that ends now
abbrev pub receipt_of : Env → Attempt → String → Option String → Receipt
receipt_of env a result error = record {
  attempt = a.id;
  job = a.job;
  worker_epoch = a.worker_epoch;
  owner = a.owner;
  result = result;
  error = error;
  terminal_at = env.clock;
}

-- The transaction of `terminal`.
unfoldable pub record_result : Env → ℕ → String → String → Option String → Method Unit
record_result env epoch attempt result error = tx env do
  fenced epoch
  found ← gets (λ w. first (λ (a : Attempt). a.id == attempt && eqb a.owner epoch) w.attempts)
  a ← or_stale found
  r ← save_receipt env (receipt_of env a result error)
  accept_receipt env a r
  execution_receipt env attempt result error

unfoldable pub terminal : Env → ℕ → String → String → Option String → Method Unit
terminal env epoch attempt result error = do
  raise_if (ltb env.config.result_bytes (length (env.encode result)))
      (scheduler "result_too_large" 400)
  record_result env epoch attempt result error
  publish env epoch attempt

-- The rows of attempts whose job has no available result.
unfoldable pub unpublished : World → List Attempt
unpublished w =
    select (λ a. exists (λ (j : Job). j.id == a.job && not (is_available j.result_state)) w.jobs)
      w.attempts

unfoldable pub recover_one : Env → Attempt → Option Receipt → Method Unit
recover_one env a none = pure tt
recover_one env a (some r) = do accept_receipt env a r; execution_receipt env a.id r.result r.error

unfoldable pub recover_all : Env → List Attempt → Method Unit
recover_all env [] = pure tt
recover_all env (a ∷ rest) = do
  check_attempt a.id
  file ← gets (find_receipt a.id)
  recover_one env a file
  recover_all env rest

unfoldable pub publish_all : Env → ℕ → List Attempt → Method Unit
publish_all env epoch [] = pure tt
publish_all env epoch (a ∷ rest) = do
  check_attempt a.id
  file ← gets (find_receipt a.id)
  when (is_some file) (publish env epoch a.id)
  publish_all env epoch rest

-- The transaction of recover_receipts; the attempts are its result.
unfoldable pub recover_saved : Env → ℕ → Method (List Attempt)
recover_saved env epoch =
    tx env do fenced epoch; rows ← gets unpublished; recover_all env rows; pure rows

unfoldable pub recover_receipts : Env → ℕ → Method Unit
recover_receipts env epoch = do waiting ← recover_saved env epoch; publish_all env epoch waiting

unfoldable pub or_unavailable : Bool → Option String → Method String
or_unavailable false ref = raise (scheduler "result_not_available" 409)
or_unavailable true none = raise type_error
or_unavailable true (some ref) = pure ref

unfoldable pub result : Env → String → Method (List ℕ)
result env jid = do
  j ← require_job jid
  ref ← or_unavailable (is_available j.result_state) j.result_ref
  (bytes, media) ← artifact env ref
  pure bytes

abbrev pub is_owner : Owner → ℕ → Bool
is_owner (controller_epoch n) m = eqb n m
is_owner (api_process s) m = false

abbrev pub owner_is : Owner → String → Bool
owner_is (controller_epoch n) s = false
owner_is (api_process t) s = t == s

unfoldable pub job_mismatch : Grant → Option Attempt → Option Job → Bool
job_mismatch g none j = true
job_mismatch g (some a) none = true
job_mismatch g (some a) (some j) =
    not (is_owner g.owner a.owner)
    || (not (is g.deployment a.deployment)
        || (not (is g.worker_epoch a.worker_epoch)
            || (not (eqb g.started a.started)
                || (not (eqb g.fence a.owner) || not (eqb g.execution_limit j.execution_limit)))))

unfoldable pub lease_mismatch : Grant → Option Lease → Bool
lease_mismatch g none = false
lease_mismatch g (some l) =
    is_job l.kind
    || (not (owner_is g.owner l.owner)
        || (not (is g.deployment l.deployment) || not (is g.worker_epoch l.worker_epoch)))

-- DELETE FROM leases WHERE id=? AND kind='legacy' AND owner=? AND worker_epoch=?
unfoldable pub release_granted : String → Grant → Db → Db
release_granted attempt g d = record d {
  leases =
      delete
        (λ l.
          l.id == attempt
          && (not (is_job l.kind)
              && (owner_is g.owner l.owner && is g.worker_epoch l.worker_epoch)))
        d.leases;
}

-- the branch of import_executor_receipt for the kind of its grant
unfoldable pub import_by_kind : Env → String → String → Option String → Grant → Kind → Method Unit
import_by_kind env attempt result error g Kind.job = do
  found ← gets (λ w. first (λ (a : Attempt). a.id == attempt) w.attempts)
  mine ← gets (λ w. first (λ (j : Job). is j.attempt attempt) w.jobs)
  raise_if (job_mismatch g found mine) (scheduler "execution_grant_mismatch" 409)
  a ← row found
  r ← save_receipt env (receipt_of env a result error)
  accept_receipt env a r
import_by_kind env attempt result error g Kind.legacy = do
  lease ← gets (λ w. first (λ (l : Lease). l.id == attempt) w.leases)
  raise_if (lease_mismatch g lease) (scheduler "execution_grant_mismatch" 409)
  fault env "receipt_write"
  execute (release_granted attempt g)

-- What differs before the binding's row is read, and, where there is one, after it.
unfoldable pub grant_mismatch : Env → String → Grant → Option Grant → Option Binding → Bool
grant_mismatch env attempt grant none b = true
grant_mismatch env attempt grant (some g) none =
    not (env.canonical_grant g == env.canonical_grant grant) || not (g.attempt == attempt)
grant_mismatch env attempt grant (some g) (some b) =
    not (env.canonical_grant g == env.canonical_grant grant)
    || (not (g.attempt == attempt)
        || (not (g.authority == b.control_id) || not (g.executor == b.executor_id)))

-- What stands in the transaction behind the reads of the grant and of the binding.
unfoldable pub import_saved :
    Env → String → String → Option String → Grant → Option Grant → Option Binding → Method Grant
import_saved env attempt result error grant saved b = do
  raise_if (grant_mismatch env attempt grant saved b) (scheduler "execution_grant_mismatch" 409)
  bound ← row b
  g ← row saved
  import_by_kind env attempt result error g g.kind
  execution_receipt env attempt result error
  pure g

-- The transaction of import_executor_receipt; the grant that was saved is its result.
unfoldable pub import_receipt : Env → ℕ → String → String → Option String → Grant → Method Grant
import_receipt env epoch attempt result error grant = tx env do
  fenced epoch
  saved ← execution_grant attempt
  b ← execution_binding
  import_saved env attempt result error grant saved b

unfoldable pub import_executor_receipt :
    Env → ℕ → String → String → Option String → Grant → Method Unit
import_executor_receipt env epoch attempt result error grant = do
  raise_if (ltb env.config.result_bytes (length (env.encode result)))
      (scheduler "result_too_large" 400)
  saved ← import_receipt env epoch attempt result error grant
  when (is_job saved.kind) (publish env epoch attempt)
