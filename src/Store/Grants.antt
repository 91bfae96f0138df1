-- ===== src/Store/Grants.antt =====
-- Execution grants and the binding to an executor: execution_binding, execution_grant,
-- execution_pending, execution_ack, _execution_grant and _execution_receipt of
-- selfhost_models/scheduler_store.py, reserve_execution_grant and can_collect_attempt of
-- execution_retention.py.
use selfhost_models.Prelude.{
  ℕ, ◌+◌, ◌*◌, String, Bool, true, false, ◌&&◌, ◌||◌, not, Option, none, some, List, map, length,
  is_some, leb, ltb, ◌==◌, if◌then◌else◌,
}
use selfhost_models.Sql.{select, first, exists, update, insert, total}
use selfhost_models.Action.{scheduler, integrity, pure, gets, raise_if, ◌>>=◌, ◌>>◌}
use selfhost_models.Tables.{Binding, Grant, GrantRow, Owner, Kind, RetentionLimits, Retained}
use selfhost_models.Store.Base.{World, Env, Method, execute, tx, state}

unfoldable pub execution_binding : Method (Option Binding)
execution_binding = gets (λ w. w.binding)

unfoldable pub find_grant : String → World → Option GrantRow
find_grant attempt w = first (λ g. g.attempt == attempt) w.grants

abbrev pub envelope_of : Option GrantRow → Option Grant
envelope_of none = none
envelope_of (some g) = some g.envelope

unfoldable pub execution_grant : String → Method (Option Grant)
execution_grant attempt = gets (λ w. envelope_of (find_grant attempt w))

unfoldable pub execution_pending : Method (List Grant)
execution_pending =
    gets (λ w. map (λ (g : GrantRow). g.envelope) (select (λ g. not g.acked) w.grants))

abbrev pub has_receipt : Option GrantRow → Bool
has_receipt none = false
has_receipt (some g) = is_some g.receipt

unfoldable pub execution_ack : Env → String → Method Unit
execution_ack env attempt = tx env do
  found ← gets (find_grant attempt)
  raise_if (not (has_receipt found)) (scheduler "execution_receipt_not_saved" 409)
  execute (λ d. record d {
    grants = update (λ g. g.attempt == attempt) (λ g. record g { acked = true }) d.grants;
  })

-- the bytes that the retained commands take and reserve, and 8192 for each grant
unfoldable pub retained_bytes : World → ℕ
retained_bytes w =
    total (λ r. r.command_bytes + r.receipt_bytes + r.grant_bytes + 1024 + r.reservation) w.retained
    + length w.grants * 8192

abbrev pub max_commands : Option RetentionLimits → ℕ
max_commands none = 10000
max_commands (some l) = l.max_commands

abbrev pub storage_full : Option RetentionLimits → ℕ → Bool
storage_full none used = false
storage_full (some l) used = ltb l.storage_bytes (used + 8192)

unfoldable pub reserve_execution_grant : Env → Grant → Method Unit
reserve_execution_grant env grant = do
  raise_if (ltb 6144 (length (env.encode (env.canonical_grant grant))))
      (scheduler "control_grant_metadata_too_large" 503)
  full ← gets (λ w. leb (max_commands w.limits) (length w.grants))
  raise_if full (scheduler "control_grant_metadata_full" 503)
  crowded ← gets (λ w. storage_full w.limits (retained_bytes w))
  raise_if crowded (scheduler "control_grant_storage_full" 503)

unfoldable pub make_grant :
    Env → Option Binding → String → Owner → Kind → ℕ → ℕ → Method (Option Grant)
make_grant env none attempt owner kind started execution_limit = pure none
make_grant env (some b) attempt owner kind started execution_limit = do
  s ← state
  let grant : Grant = record {
    authority = b.control_id;
    executor = b.executor_id;
    fence = s.epoch;
    handle = s.handle;
    deployment = s.deployment;
    worker_epoch = s.worker_epoch;
    attempt = attempt;
    owner = owner;
    kind = kind;
    started = started;
    execution_limit = execution_limit;
  }
  reserve_execution_grant env grant
  taken ← gets (λ w. exists (λ g. g.attempt == attempt) w.grants)
  raise_if taken integrity
  execute (λ d. record d {
    grants =
        insert (record { attempt = attempt; envelope = grant; receipt = none; acked = false })
          d.grants;
  })
  pure (some grant)

-- self._execution_grant(c, attempt, owner, kind, started, execution_limit)
unfoldable pub add_grant : Env → String → Owner → Kind → ℕ → ℕ → Method (Option Grant)
add_grant env attempt owner kind started execution_limit = do
  b ← execution_binding
  make_grant env b attempt owner kind started execution_limit

abbrev pub conflicts : String → Option String → Bool
conflicts marker none = false
conflicts marker (some m) = not (m == marker)

unfoldable pub mark_receipt : Option GrantRow → String → String → Method Unit
mark_receipt none attempt marker = pure tt
mark_receipt (some g) attempt marker = do
  raise_if (conflicts marker g.receipt) (scheduler "receipt_conflict" 409)
  execute (λ d. record d {
    grants = update (λ x. x.attempt == attempt) (λ x. record x { receipt = some marker }) d.grants;
  })

-- self._execution_receipt(c, attempt, result, error)
unfoldable pub execution_receipt : Env → String → String → Option String → Method Unit
execution_receipt env attempt result error = do
  found ← gets (find_grant attempt)
  mark_receipt found attempt (env.receipt_marker result error)

unfoldable pub released : Option Retained → Bool
released none = false
released (some r) = r.acked && r.released

unfoldable pub collectable : Option GrantRow → Option RetentionLimits → Option Retained → Bool
collectable none limits r = true
collectable (some g) limits r =
    if not (is_some g.receipt) || not g.acked
    then false
    else if not (is_some limits)
    then false
    else released r

-- can_collect_attempt(c, attempt). The table execution_retention is made with its limits.
unfoldable pub can_collect_attempt : String → World → Bool
can_collect_attempt attempt w =
    collectable (find_grant attempt w) w.limits (first (λ r. r.id == attempt) w.retained)
