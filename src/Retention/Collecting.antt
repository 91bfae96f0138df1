-- ===== src/Retention/Collecting.antt =====
-- What the store reads of the controller's table of commands: reserve_execution_grant and
-- can_collect_attempt of selfhost_models/execution_retention.py against ControlRetention._usage and
-- the rows that ControlRetention keeps.
use selfhost_models.Prelude.{◌+◌, ◌≡◌, refl, ap, List, [], ◌∷◌, map, length, arith}
use selfhost_models.Sql.{total}
use selfhost_models.Sql.Sums.{total-plus}
use selfhost_models.Tables.{Retained}
use selfhost_models.Store.Base.{World}
use selfhost_models.Store.Grants.{retained_bytes}
use selfhost_models.Retention.{
  Kept, Outbox, Env, row_bytes, logical_bytes, reserved_bytes, size_of, text_of,
}

-- A row as the store's queries see it: the lengths of its texts and two flags.
abbrev pub view : Env → Kept → Retained
view env r = record {
  id = r.id;
  command_bytes = size_of env (text_of env.canonical_command r.command);
  receipt_bytes = size_of env (text_of env.canonical_receipt r.receipt);
  grant_bytes = size_of env (text_of env.canonical_grant r.grant);
  reservation = r.reservation;
  acked = r.acked;
  released = r.released;
}

viewed :
    (env : Env) (rs : List Kept)
    → total
        (λ (r : Retained). r.command_bytes + r.receipt_bytes + r.grant_bytes + 1024 + r.reservation)
        (map (view env) rs)
      ≡ total (λ r. row_bytes env r + r.reservation) rs
unfolding total row_bytes
viewed env [] = refl
viewed env (r ∷ rs) = ap (λ n. row_bytes env r + r.reservation + n) (viewed env rs)

-- The space that the store counts before it adds a grant is the space that the controller's table
-- reports as used and reserved, when both read the same rows and grants.
pub retained_bytes-usage :
    (env : Env) (s : Outbox) (w : World)
    → w.retained ≡ map (view env) s.rows
    → length w.grants ≡ length s.grants
    → retained_bytes w ≡ logical_bytes env s + reserved_bytes s
unfolding retained_bytes logical_bytes reserved_bytes
retained_bytes-usage env s w e g = omega (
  arith,
  g,
  ap
      (total (λ (r : Retained).
        r.command_bytes + r.receipt_bytes + r.grant_bytes + 1024 + r.reservation))
      e,
  viewed env s.rows,
  total-plus (row_bytes env) (λ (r : Kept). r.reservation) s.rows,
)
