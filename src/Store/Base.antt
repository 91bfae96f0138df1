-- ===== src/Store/Base.antt =====
-- The store's state, its transactions and what its methods share: tx, event, state, fenced and
-- deployment of selfhost_models/scheduler_store.py.
pub mod Transactions
use selfhost_models.Prelude.{
  ℕ, ◌+◌, String, Bool, true, false, not, Option, none, some, List, [], ◌∷◌, length, leb, eqb, max,
  ◌==◌, if◌then◌else◌,
}
use selfhost_models.Sql.{first, delete, insert, insert_or_ignore}
use selfhost_models.Action.{
  Error, Result, Action, ok, err, scheduler, pure, raise, gets, modify, raise_if, ◌>>=◌, ◌>>◌,
}
use selfhost_models.Schema.Deployment.{Deployment, Config}
use selfhost_models.Schema.Job.{SubmitJob}
use selfhost_models.Tables.{Db, Controller, Registered, Detail, Event, Grant, Pin}

-- The receipt of a finished attempt. A JSON result is its canonical text, and two results are
-- equal when their texts are.
pub record Receipt : Type 0 where
  pub attempt : String
  pub job : String
  pub worker_epoch : String
  pub owner : ℕ
  pub result : String
  pub error : Option String
  pub terminal_at : ℕ

-- a file of the directory artifacts/, with its bytes
pub record ArtifactFile : Type 0 where
  pub name : String
  pub content : List ℕ
  pub mtime : ℕ

-- The database and the files. A receipt's file is named by its attempt.
pub record World : Type 0 where
  pub db : Db
  pub open db use *
  pub artifact_files : List ArtifactFile
  pub receipt_files : List Receipt

-- What a call of a method is given from outside: the clock's value while it runs, the test hook
-- `fault` (what it raises at a point, if anything), the writes that the disk refuses, the configuration, and
-- the functions of hashlib and json.
pub record Env : Type 0 where
  pub clock : ℕ
  pub fault : String → Option Error
  pub io_fails : String → Bool
  pub config : Config
  pub sha256 : List ℕ → String
  pub encode : String → List ℕ
  pub canonical_job : SubmitJob → String
  pub deployment_digest : Deployment → String
  pub canonical_receipt : Receipt → String
  pub canonical_grant : Grant → String
  pub receipt_marker : String → Option String → String
  pub str : ℕ → String

abbrev pub Method : Type 0 → Type 0
Method A = Action World A

-- A statement on the database.
unfoldable pub execute : (Db → Db) → Method Unit
execute f = modify (λ w. record w { db = f w.db })

-- self.fault(point)
unfoldable pub fault : Env → String → Method Unit
fault env point = elim (env.fault point) [ none ↦ pure tt | some e ↦ raise e ]

-- The end of a transaction that began in `before`. A rollback leaves the files as they are.
unfoldable pub finish : {A : Type 0} → Env → World → Result A → World → Result A × World
finish env before (err e) after = (err e, record after { db = before.db })
finish env before (ok a) after = elim (env.fault "before_commit") [
  | none ↦ (ok a, after)
  | some e ↦ (err e, record after { db = before.db })
]

-- with self.tx() as c: ...
unfoldable pub tx : {A : Type 0} → Env → Method A → Method A
tx env body w = let (r, after) = body w in finish env w r after

-- SELECT COALESCE(MAX(seq), 0) FROM events
unfoldable pub max_seq : List Event → ℕ
max_seq [] = 0
max_seq (e ∷ es) = max e.seq (max_seq es)

-- self.event(c, kind, ref, **detail)
unfoldable pub event : Env → String → Option String → List (String × Detail) → Db → Db
event env kind ref detail d =
    let seq = d.event_seq + 1 in
    let es =
      insert (record { seq = seq; at = env.clock; kind = kind; ref = ref; detail = detail })
        d.events in
    record d { events = delete (λ e. leb (e.seq + 100000) (max_seq es)) es; event_seq = seq }

-- self.state(c)
unfoldable pub state : Method Controller
state = gets (λ w. w.controller)

-- self.fenced(c, epoch)
unfoldable pub fenced : ℕ → Method Controller
fenced epoch = do
  s ← state
  raise_if (not (eqb s.epoch epoch)) (scheduler "stale_controller" 409)
  pure s

unfoldable pub or_not_found : String → Option Registered → Method Deployment
or_not_found code none = raise (scheduler code 404)
or_not_found code (some r) = pure r.spec

-- self.deployment(ref, c). What is registered was validated before it was stored.
unfoldable pub deployment : String → Method Deployment
deployment ref = do
  found ← gets (λ w. first (λ r. r.id == ref) w.deployments)
  or_not_found "deployment_not_found" found

-- Deployment.id
abbrev pub deployment_id : Env → Deployment → String
deployment_id env d = env.deployment_digest d

-- INSERT OR IGNORE INTO pins VALUES(owner, ref)
unfoldable pub pin : String → String → Db → Db
pin owner ref d = record d {
  pins =
      insert_or_ignore (λ p. if p.owner == owner then p.ref == ref else false)
        (record { owner = owner; ref = ref }) d.pins;
}

-- the size of a receipt's file: len(canonical(receipt))
abbrev pub receipt_bytes : Env → Receipt → ℕ
receipt_bytes env r = length (env.encode (env.canonical_receipt r))
