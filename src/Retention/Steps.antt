-- ===== src/Retention/Steps.antt =====
-- The methods of the class ControlRetention of selfhost_models/execution_retention.py as steps, and
-- what they keep: the limits of the table and the custody of its rows.
use selfhost_models.Prelude.{
  ℕ, ◌+◌, ◌*◌, ◌≤◌, ◌≡◌, refl, String, Bool, true, some, length, arith, is_some,
}
use selfhost_models.Sql.{update, total}
use selfhost_models.Sql.Laws.{All, length-update}
use selfhost_models.Sql.Rows.{Rows-update}
use selfhost_models.Sql.Pairs.{Pairs, Pairs-Rows}
use selfhost_models.Sql.Prefix.{update-All, OtherKey, same_key}
use selfhost_models.Sql.Sums.{total-update}
use selfhost_models.Action.{Result, ok, err, modify}
use selfhost_models.Action.Keeps.{
  IsPreorder, KeepsAt, KeepsAt-pure, KeepsAt-raise, KeepsAt-gets, KeepsAt-modify, KeepsAt-bind-gets,
  KeepsAt-bind-raise_if, KeepsAt-then,
}
use selfhost_models.Tables.{RetentionLimits}
use selfhost_models.Protocol.{Command}
use selfhost_models.Journal.{Receipt}
use selfhost_models.Retention.{
  Kept, Outbox, Env, Method, finish_tx, tx, row_bytes, persist, save_receipt, release_outputs,
  abandon_legacy, confirmed, collect,
}

abbrev pub after : {A : Type 0} → Method A → Outbox → Outbox
after m s = (m s).1

abbrev pub at_time : Env → ℕ → Env
at_time env now = record env { clock = now }

-- A call with the limits `l` leads from `s` to `t`.
pub data Step (env : Env) (l : RetentionLimits) (s : Outbox) : Outbox → Type 0 where
  persist_step : (now : ℕ) (c : Command) → Step env l s (after (persist (at_time env now) l c) s)
  save_receipt_step : (cid : String) (x : Receipt) → Step env l s (after (save_receipt env cid x) s)
  release_step : (cid : String) → Step env l s (after (release_outputs cid) s)
  abandon_step : (owner : String) → Step env l s (after (abandon_legacy env owner) s)
  confirmed_step :
      (now : ℕ) (cid : String) (b : Bool)
      → Step env l s (after (confirmed (at_time env now) cid b) s)
  collect_step : (now seconds : ℕ) → Step env l s (after (collect (at_time env now) seconds) s)

pub data Reach (env : Env) (l : RetentionLimits) (s : Outbox) : Outbox → Type 0 where
  here : Reach env l s s
  next : {t u : Outbox} → Reach env l s t → Step env l t u → Reach env l s u

-- A row whose outputs were let go was acknowledged and released, on purpose, with its receipt's
-- digest kept; and a receipt has the digest that is recorded.
pub record RowOk (env : Env) (r : Kept) : Type 0 where
  pub digest : (x : Receipt) → r.receipt ≡ some x → r.receipt_hash ≡ some (env.receipt_hash x)
  pub custody :
      r.collected ≡ true
      → (r.acked ≡ true)
        × (r.released ≡ true)
        × (r.release_intent ≡ true)
        × (is_some r.receipt_hash ≡ true)

-- what a row takes and reserves
abbrev pub weight : Env → Kept → ℕ
weight env r = row_bytes env r + r.reservation

abbrev pub kept_id : Kept → String
kept_id r = r.id

-- The table keeps to its limits, and each row is as it should be.
pub record IsBounded (env : Env) (l : RetentionLimits) (s : Outbox) : Type 0 where
  pub ids : Pairs (OtherKey kept_id) s.rows
  pub few : length s.rows ≤ l.max_commands
  pub fits : total (weight env) s.rows + length s.grants * 8192 ≤ l.storage_bytes
  pub good : All (RowOk env) s.rows

abbrev pub Bounds : Env → RetentionLimits → Outbox → Outbox → Type 0
Bounds env l s t = IsBounded env l s → IsBounded env l t

-- Equal digests are digests of equal texts.
abbrev pub IsDigest : Env → Type 0
IsDigest env =
    (x y : Receipt)
    → env.receipt_hash x ≡ env.receipt_hash y
    → env.canonical_receipt x ≡ env.canonical_receipt y

module _ (env : Env) (l : RetentionLimits) where
  pub Bounds-IsPreorder : IsPreorder (Bounds env l)
  Bounds-IsPreorder = record { same = λ s h. h; step = λ s t u a b h. b (a h) }

  abbrev Keeps : {A : Type 0} → Method A → Outbox → Type 0
  Keeps m s = KeepsAt (Bounds env l) m s

  finish_tx-Bounds :
      {A : Type 0} (s t : Outbox) (r : Result A)
      → Bounds env l s t
      → Bounds env l s (finish_tx s (r, t)).1
  finish_tx-Bounds s t (ok a) h = h
  finish_tx-Bounds s t (err e) h = Bounds-IsPreorder.same s

  pub tx-Keeps : {A : Type 0} (m : Method A) (s : Outbox) → Keeps m s → Keeps (tx m) s
  unfolding tx
  tx-Keeps m s k = record { at = finish_tx-Bounds s (m s).1 (m s).0 k.at }

  -- An update of which no row grows.
  pub update-Bounds :
      (p : Kept → Bool) (f : Kept → Kept) (s : Outbox)
      → ((x : Kept) → (f x).id ≡ x.id)
      → (IsBounded env l s → All (λ x. p x ≡ true → weight env (f x) ≤ weight env x) s.rows)
      → (IsBounded env l s → All (λ x. p x ≡ true → RowOk env (f x)) s.rows)
      → Keeps (modify (λ v. record v { rows = update p f v.rows })) s
  update-Bounds p f s i w k = KeepsAt-modify Bounds-IsPreorder _ s (λ h. record {
    ids =
        Pairs-Rows (OtherKey kept_id) (λ x y. y.id ≡ x.id) s.rows (update p f s.rows)
          (same_key kept_id)
          (Rows-update (λ x y. y.id ≡ x.id) p f s.rows (λ x _. i x) (λ x _. refl)) h.ids;
    few = omega (arith, h.few, length-update p f s.rows);
    fits = omega (arith, h.fits, total-update (weight env) p f s.rows (w h));
    good = update-All (RowOk env) p f s.rows (k h) h.good;
  })

  pub intended-RowOk : (x : Kept) → RowOk env x → RowOk env (record x { release_intent = true })
  intended-RowOk x h = record {
    digest = h.digest;
    custody = λ e. let c = h.custody e in (c.0, c.1, refl, c.3);
  }

pub ruleset rules = (
  Bounds-IsPreorder, tx-Keeps, KeepsAt-pure, KeepsAt-raise, KeepsAt-gets, KeepsAt-bind-gets,
  KeepsAt-bind-raise_if, KeepsAt-then,
)
