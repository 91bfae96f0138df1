-- ===== src/Retention.antt =====
-- The controller's table of the commands that it sends: the class ControlRetention of
-- selfhost_models/execution_retention.py. It shares the store's database; what it needs of the
-- store are its grants and its binding.
pub mod Steps
pub mod Persisting
pub mod Histories
pub mod Collecting
use selfhost_models.Prelude.{
  ℕ, ◌+◌, ◌*◌, ◌-◌, String, Bool, true, false, ◌&&◌, ◌||◌, not, Option, none, some, List, [], ◌∷◌,
  length, map, is, is_some, coalesce, leb, ltb, eqb, ◌==◌, if◌then◌else◌,
}
use selfhost_models.Sql.{select, first, exists, update, insert, total, count}
use selfhost_models.Action.{
  Action, Result, ok, err, scheduler, pure, raise, gets, modify, raise_if, ◌>>=◌, ◌>>◌,
}
use selfhost_models.Tables.{Owner, Kind, is_job, RetentionLimits, api_process, controller_epoch}
use selfhost_models.Protocol.{Command, CommandKind, Grant, is_execute}
use selfhost_models.Journal.{Receipt}

-- execution_retention joined with execution_commands; the texts of a command and of a receipt are
-- their documents, and a cleared command is none
pub record Kept : Type 0 where
  pub id : String
  pub hash : String
  pub executor : String
  pub kind : CommandKind
  pub command : Option Command
  pub grant : Option Grant
  pub receipt : Option Receipt
  pub receipt_hash : Option String
  pub acked : Bool
  pub release_intent : Bool
  pub released : Bool
  pub collected : Bool
  pub created : ℕ
  pub reservation : ℕ
  pub released_at : Option ℕ

-- execution_grants(attempt, receipt)
pub record Marker : Type 0 where
  pub attempt : String
  pub receipt : Option String

pub record Outbox : Type 0 where
  pub limits : Option RetentionLimits
  pub rows : List Kept
  pub grants : List Marker

-- The functions of hashlib and json, and the executor that the store is bound to.
pub record Env : Type 0 where
  pub clock : ℕ
  pub encode : String → List ℕ
  pub canonical_command : Command → String
  pub canonical_grant : Grant → String
  pub canonical_receipt : Receipt → String
  pub content_hash : Command → String
  pub receipt_hash : Receipt → String
  pub binding : Option String

abbrev pub Method : Type 0 → Type 0
Method A = Action Outbox A

abbrev pub finish_tx : {A : Type 0} → Outbox → Result A × Outbox → Result A × Outbox
finish_tx before (ok a, after) = (ok a, after)
finish_tx before (err e, after) = (err e, before)

-- with self.store.tx() as c: ...
unfoldable pub tx : {A : Type 0} → Method A → Method A
tx body s = finish_tx s (body s)

unfoldable pub find_kept : String → Outbox → Option Kept
find_kept cid s = first (λ r. r.id == cid) s.rows

abbrev default_to : ℕ → Option ℕ → ℕ
default_to d none = d
default_to d (some n) = n

-- INSERT OR IGNORE INTO execution_retention_limits
abbrev pub limits_after : Option RetentionLimits → Option ℕ → Option ℕ → RetentionLimits
limits_after (some l) commands bytes = l
limits_after none commands bytes = record {
  max_commands = default_to 10000 commands;
  storage_bytes = default_to 268435456 bytes;
}

abbrev clashes : Option ℕ → ℕ → Bool
clashes none m = false
clashes (some n) m = not (eqb n m)

-- ControlRetention.__init__, without the upgrade of an older database
unfoldable pub open_retention : Option ℕ → Option ℕ → Method RetentionLimits
open_retention commands bytes = tx do
  l ← gets (λ s. limits_after s.limits commands bytes)
  modify (λ s. record s { limits = some l })
  raise_if (clashes commands l.max_commands || clashes bytes l.storage_bytes)
      (scheduler "control_retention_limits_immutable" 409)
  raise_if (ltb l.max_commands 1 || ltb l.storage_bytes 1)
      (scheduler "invalid_retention_limits" 400)
  pure l

abbrev size_of : Env → Option String → ℕ
size_of env none = 0
size_of env (some t) = length (env.encode t)

abbrev text_of : {A : Type 0} → (A → String) → Option A → Option String
text_of f none = none
text_of f (some a) = some (f a)

-- the bytes of a row's texts and the allowance for its columns
unfoldable pub row_bytes : Env → Kept → ℕ
row_bytes env r =
    size_of env (text_of env.canonical_command r.command)
    + size_of env (text_of env.canonical_receipt r.receipt)
    + size_of env (text_of env.canonical_grant r.grant)
    + 1024

-- _usage: logical_bytes and reserved_bytes
unfoldable pub logical_bytes : Env → Outbox → ℕ
logical_bytes env s = total (row_bytes env) s.rows + length s.grants * 8192

unfoldable pub reserved_bytes : Outbox → ℕ
reserved_bytes s = total (λ (r : Kept). r.reservation) s.rows

-- the bytes that a new command takes and reserves
unfoldable pub required_bytes : Env → Command → ℕ
required_bytes env c =
    length (env.encode (env.canonical_command c))
    + c.result_bytes
    + 8192
    + 1024
    + size_of env (text_of env.canonical_grant c.grant)

-- the row that _insert writes, with the command's own row
unfoldable pub kept_row : Env → Command → Kept
kept_row env c = record {
  id = c.id;
  hash = env.content_hash c;
  executor = c.executor;
  kind = c.kind;
  command = some c;
  grant = c.grant;
  receipt = none;
  receipt_hash = none;
  acked = false;
  release_intent = false;
  released = false;
  collected = false;
  created = env.clock;
  reservation = c.result_bytes + 8192;
  released_at = none;
}

unfoldable pub add_kept : Kept → Outbox → Outbox
add_kept r s = record s { rows = insert r s.rows }

unfoldable pub slots_full : RetentionLimits → Outbox → Bool
slots_full l s = leb l.max_commands (length s.rows)

-- required > remaining_bytes, where remaining_bytes is no less than 0
unfoldable pub bytes_full : Env → RetentionLimits → Command → Outbox → Bool
bytes_full env l c s =
    ltb (l.storage_bytes - (logical_bytes env s + reserved_bytes s)) (required_bytes env c)

unfoldable pub persist_new : Env → RetentionLimits → Command → Option Kept → Method Command
persist_new env l c (some old) = do
  raise_if (not (old.hash == env.content_hash c)) (scheduler "command_conflict" 409)
  raise_if (old.collected && is_execute c.kind) (scheduler "command_outputs_collected" 409)
  pure c
persist_new env l c none = do
  full ← gets (slots_full l)
  raise_if full (scheduler "control_command_metadata_full" 503)
  crowded ← gets (bytes_full env l c)
  raise_if crowded (scheduler "control_command_storage_full" 503)
  modify (add_kept (kept_row env c))
  pure c

unfoldable pub persist : Env → RetentionLimits → Command → Method Command
persist env l c = tx do old ← gets (find_kept c.id); persist_new env l c old

unfoldable pub row : String → Method (Option Kept)
row cid = tx (gets (find_kept cid))

-- row['receipt_hash'] and row['receipt_hash'] != rhash
abbrev pub conflicts : Option String → String → Bool
conflicts none h = false
conflicts (some x) h = not (x == h)

-- UPDATE execution_retention SET receipt=?,receipt_hash=?,reservation=0 WHERE id=?
unfoldable pub set_receipt : Env → String → Receipt → Outbox → Outbox
set_receipt env cid x s = record s {
  rows =
      update (λ r. r.id == cid)
        (λ r. record r {
          receipt = some x;
          receipt_hash = some (env.receipt_hash x);
          reservation = 0;
        })
        s.rows;
}

-- The end of save_receipt, by whether the command's outputs were collected.
unfoldable pub save_open : Env → String → Receipt → Kept → Bool → Method Unit
save_open env cid x r true = pure tt
save_open env cid x r false = do
  raise_if
      (not (is_some r.receipt) && ltb r.reservation (length (env.encode (env.canonical_receipt x))))
      (scheduler "control_receipt_storage_full" 503)
  modify (set_receipt env cid x)

unfoldable pub save_row : Env → String → Receipt → Option Kept → Method Unit
save_row env cid x none = raise (scheduler "command_not_saved" 409)
save_row env cid x (some r) = do
  raise_if (conflicts r.receipt_hash (env.receipt_hash x)) (scheduler "receipt_conflict" 409)
  save_open env cid x r r.collected

unfoldable pub save_receipt : Env → String → Receipt → Method Unit
save_receipt env cid x = tx do r ← gets (find_kept cid); save_row env cid x r

-- SELECT receipt FROM execution_grants WHERE attempt=?, then a test for a value
unfoldable pub has_marker : String → Outbox → Bool
has_marker cid s = elim (first (λ g. g.attempt == cid) s.grants) [
  | none ↦ false
  | some g ↦ is_some g.receipt
]

-- UPDATE execution_retention SET release_intent=1 WHERE id=?
unfoldable pub intend : String → Outbox → Outbox
intend cid s = record s {
  rows = update (λ r. r.id == cid) (λ r. record r { release_intent = true }) s.rows;
}

abbrev unsaved : Option Kept → Bool
unsaved none = true
unsaved (some r) = not (is_some r.receipt_hash)

abbrev has_grant : Option Kept → Bool
has_grant none = false
has_grant (some r) = is_some r.grant

-- ControlRetention.release
unfoldable pub release_outputs : String → Method Unit
release_outputs cid = tx do
  r ← gets (find_kept cid)
  raise_if (unsaved r) (scheduler "execution_receipt_not_saved" 409)
  marked ← gets (has_marker cid)
  raise_if (has_grant r && not marked) (scheduler "execution_receipt_not_saved" 409)
  modify (intend cid)

abbrev owned_by : Owner → String → Bool
owned_by (api_process o) p = o == p
owned_by (controller_epoch n) p = false

abbrev bound_elsewhere : Option String → String → Bool
bound_elsewhere none e = false
bound_elsewhere (some b) e = not (e == b)

abbrev is_abandoned : Option Grant → String → Bool
is_abandoned none owner = false
is_abandoned (some g) owner = not (is_job g.kind) && not (owned_by g.owner owner)

-- the rows that abandon_legacy releases
unfoldable pub abandons : Env → String → Kept → Bool
abandons env owner r =
    not r.released && (not (bound_elsewhere env.binding r.executor) && is_abandoned r.grant owner)

unfoldable pub abandon_legacy : Env → String → Method Unit
abandon_legacy env owner = tx (
    modify (λ s. record s {
      rows = update (abandons env owner) (λ r. record r { release_intent = true }) s.rows;
    }))

-- the columns that confirmed sets
unfoldable pub confirmed_row : ℕ → Bool → Kept → Kept
confirmed_row now released r = record r {
  acked = true;
  released = r.released || released;
  released_at = if released then coalesce r.released_at (some now) else r.released_at;
}

unfoldable pub confirmed : Env → String → Bool → Method Unit
confirmed env cid released = tx (
    modify (λ s. record s {
      rows = update (λ r. r.id == cid) (confirmed_row env.clock released) s.rows;
    }))

-- release_intent=1 AND released=0
abbrev pub awaits_release : Kept → Bool
awaits_release r = r.release_intent && not r.released

unfoldable pub release_grants : String → Method (List (Option Grant))
release_grants executor = tx (
    gets (λ s.
      map (λ (r : Kept). r.grant)
        (select
          (λ r.
            r.executor == executor
            && (awaits_release r && (is_some r.grant && not (is_some r.receipt_hash))))
          s.rows)))

unfoldable pub is_pending : String → Kept → Bool
is_pending executor r =
    r.executor == executor && (is_some r.receipt_hash && (not r.acked || awaits_release r))

unfoldable pub pending : String → Method (List Kept)
pending executor = tx (gets (λ s. select (is_pending executor) s.rows))

abbrev past : ℕ → ℕ → Option ℕ → Bool
past now seconds none = false
past now seconds (some t) = leb (t + seconds) now

-- the rows that collect clears
unfoldable pub is_collectable : ℕ → ℕ → Kept → Bool
is_collectable now seconds r =
    is_execute r.kind
    && (not r.collected
        && (r.acked
            && (r.release_intent
                && (r.released && (is_some r.receipt_hash && past now seconds r.released_at)))))

-- UPDATE execution_commands SET command='', and SET receipt=NULL,collected=1
unfoldable pub cleared_row : Kept → Kept
cleared_row r = record r { command = none; receipt = none; collected = true }

-- A retention that is no number, is not finite or is negative is not a number here.
unfoldable pub collect : Env → ℕ → Method ℕ
collect env seconds = tx do
  n ← gets (λ s. count (is_collectable env.clock seconds) s.rows)
  modify (λ s. record s { rows = update (is_collectable env.clock seconds) cleared_row s.rows })
  pure n
