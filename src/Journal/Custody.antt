-- ===== src/Journal/Custody.antt =====
-- What the controller reads of a command, acknowledges and lets go: status, ack, retention, compact,
-- usage and collect of the class Journal of selfhost_models/executor.py.
use selfhost_models.Prelude.{
  ℕ, ◌+◌, String, Bool, true, false, ◌&&◌, ◌||◌, not, Option, none, some, List, [], ◌∷◌, map,
  length, take, is, leb, ltb, ◌==◌, if◌then◌else◌, coalesce,
}
use selfhost_models.Sql.{select, update, delete, total}
use selfhost_models.Action.{
  Result, ok, err, scheduler, type_error, pure, raise, lift, gets, modify, raise_if, ◌>>=◌, ◌>>◌,
}
use selfhost_models.Protocol.{Command}
use selfhost_models.Journal.{
  Env, Journal, CommandRow, CommandState, Frame, Receipt, Identity, Summary, Document, whole,
  compacted, Method, tx, collected, find_command, is_terminal, is_collected,
}

-- a row of the frames as status shows it
pub record Page : Type 0 where
  pub seq : ℕ
  pub value : String

-- what status returns, beside the protocol's version and the executor's name
pub record Status : Type 0 where
  pub id : String
  pub hash : String
  pub state : CommandState
  pub receipt : Option Receipt
  pub acknowledged : Bool
  pub frames : List Page
  pub receipt_hash : Option String
  pub outputs_released : Bool
  pub terminal_summary : Option Summary

-- a row put before the first row with a greater number
unfoldable pub place : Frame → List Frame → List Frame
place f [] = f ∷ []
place f (g ∷ gs) = let rest = place f gs in if leb f.seq g.seq then f ∷ g ∷ gs else g ∷ rest

-- ORDER BY seq
unfoldable pub order_by_seq : List Frame → List Frame
order_by_seq [] = []
order_by_seq (f ∷ fs) = place f (order_by_seq fs)

-- SELECT seq,value FROM frames WHERE command=? AND seq>? ORDER BY seq LIMIT 32
unfoldable pub page : String → ℕ → Journal → List Page
page cid after s =
    map (λ (f : Frame). record { seq = f.seq; value = f.value })
      (take 32 (order_by_seq (select (λ f. f.command == cid && ltb after f.seq) s.frames)))

unfoldable pub status_row : String → ℕ → Option CommandRow → Method Status
status_row cid after none = raise (scheduler "command_not_found" 404)
status_row cid after (some r) = do
  frames ← gets (page cid after)
  pure (record {
    id = cid;
    hash = r.hash;
    state = r.state;
    receipt = r.receipt;
    acknowledged = r.acknowledged;
    frames = frames;
    receipt_hash = r.receipt_digest;
    outputs_released = r.outputs_released;
    terminal_summary = r.terminal_summary;
  })

unfoldable pub status : String → ℕ → Method Status
status cid after = tx do row ← gets (find_command cid); status_row cid after row

-- row['receipt_digest'] is None or row['receipt_digest'] != expected, and the tests before it
unfoldable pub ack_mismatch : String → Option CommandRow → Bool
ack_mismatch expected none = true
ack_mismatch expected (some r) =
    not (is_terminal r.state || is_collected r.state) || not (is r.receipt_digest expected)

-- the columns that ack sets
unfoldable pub acked_row : ℕ → Bool → CommandRow → CommandRow
acked_row now release r = record r {
  acknowledged = true;
  outputs_released = r.outputs_released || release;
  released_at = if release then coalesce r.released_at (some now) else r.released_at;
}

-- A flag that is no truth value is not a Bool here.
unfoldable pub ack : ℕ → String → String → Bool → Method Unit
ack now cid expected release = tx do
  row ← gets (find_command cid)
  raise_if (ack_mismatch expected row) (scheduler "receipt_ack_mismatch" 409)
  modify (λ s. record s { commands = update (λ r. r.id == cid) (acked_row now release) s.commands })

-- A value that is no number, is not finite or is negative is not a number here.
unfoldable pub retention : ℕ → Result ℕ
retention value = if leb value 31536000 then ok value else err (scheduler "invalid_retention" 400)

unfoldable pub identity_of : Env → Command → Identity
identity_of env c = record {
  authority = c.authority;
  executor = c.executor;
  fence = c.fence;
  id = c.id;
  kind = c.kind;
  handle = c.handle;
  grant = c.grant;
  deployment_id = elim c.deployment [ none ↦ none | some d ↦ some (env.deployment_id d) ];
}

unfoldable pub summary_of : Env → Receipt → Option ℕ → Summary
summary_of env x terminal_at = record {
  executor = x.executor;
  authority = x.authority;
  command = x.command;
  hash = x.hash;
  grant = x.grant;
  error = x.error;
  result_hash = env.result_hash x.result;
  terminal_at = terminal_at;
}

-- what compact returns: the texts and the reservation that is left
pub record Compact : Type 0 where
  pub identity : Identity
  pub summary : Summary
  pub reservation : ℕ

unfoldable pub compact_parts : Env → Document → Option Receipt → Option ℕ → Result Compact
compact_parts env (whole c) (some x) terminal_at =
    let i = identity_of env c in
    let y = summary_of env x terminal_at in
    ok (record {
      identity = i;
      summary = y;
      reservation =
          length (env.encode (env.canonical_identity i))
          + length (env.encode (env.canonical_summary y))
          + 1024;
    })
compact_parts env _ _ terminal_at = err type_error

unfoldable pub compact : Env → CommandRow → Result Compact
compact env r = compact_parts env r.command r.receipt r.terminal_at

-- state='terminal' AND acknowledged=1 AND outputs_released=1
abbrev pub is_releasable : CommandRow → Bool
is_releasable r = is_terminal r.state && (r.acknowledged && r.outputs_released)

-- time <= now - retention_seconds, where NULL compares with nothing
abbrev pub is_past : ℕ → ℕ → Option ℕ → Bool
is_past now retention none = false
is_past now retention (some t) = leb (t + retention) now

unfoldable pub is_due : ℕ → ℕ → CommandRow → Bool
is_due now retention r =
    is_releasable r && (is_past now retention r.terminal_at && is_past now retention r.released_at)

-- DELETE FROM frames WHERE command=?, and DELETE FROM cancellations WHERE id=?
unfoldable pub drop_outputs : String → Journal → Journal
drop_outputs cid s = record s {
  frames = delete (λ f. f.command == cid) s.frames;
  cancellations = delete (λ x. x == cid) s.cancellations;
}

unfoldable pub collected_row : ℕ → Compact → CommandRow → CommandRow
collected_row now k r = record r {
  state = collected;
  command = compacted k.identity;
  receipt = none;
  bytes = 0;
  reservation = k.reservation;
  terminal_summary = some k.summary;
  collected_at = some now;
}

-- UPDATE commands SET state='collected',... WHERE id=?
unfoldable pub collect_command : ℕ → String → Compact → Journal → Journal
collect_command now cid k s = record s {
  commands = update (λ r. r.id == cid) (collected_row now k) s.commands;
}

-- One round of the loop of collect: the candidate's row, read again.
unfoldable pub collect_one : Env → ℕ → String → Method Unit
collect_one env now cid = do
  row ← gets (find_command cid)
  r ← lift (found row)
  k ← lift (compact env r)
  modify (drop_outputs cid)
  modify (collect_command now cid k)
  where
    found : Option CommandRow → Result CommandRow
    found none = err type_error
    found (some r) = ok r

unfoldable pub collect_each : Env → ℕ → List String → Method Unit
collect_each env now [] = pure tt
collect_each env now (cid ∷ cids) = do collect_one env now cid; collect_each env now cids

-- what collect returns; the released bytes are the difference of two sums of reservations
pub record Collected : Type 0 where
  pub commands : ℕ
  pub reserved_before : ℕ
  pub reserved_after : ℕ
  pub retention_seconds : ℕ

abbrev pub reservations : Journal → ℕ
reservations s = total (λ (r : CommandRow). r.reservation) s.commands

unfoldable pub collect : Env → ℕ → ℕ → Method Collected
collect env now value = do
  seconds ← lift (retention value)
  tx do
    cids ← gets (λ s. map (λ (r : CommandRow). r.id) (select (is_due now seconds) s.commands))
    before ← gets reservations
    collect_each env now cids
    after ← gets reservations
    pure (record {
      commands = length cids;
      reserved_before = before;
      reserved_after = after;
      retention_seconds = seconds;
    })
