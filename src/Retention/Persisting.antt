-- ===== src/Retention/Persisting.antt =====
-- What persist, release, abandon_legacy and confirmed of the class ControlRetention of
-- selfhost_models/execution_retention.py keep of the table.
use selfhost_models.Prelude.{
  ℕ, ◌+◌, ◌*◌, ◌-◌, ◌≤◌, ◌≡◌, refl, String, Bool, true, false, Option, none, some, length, arith,
  leb, ltb, ◌==◌,
}
use selfhost_models.Sql.{exists, update, total}
use selfhost_models.Sql.Laws.{All-map, All-not, All-insert, none-exists, length-insert}
use selfhost_models.Sql.Pairs.{Pairs-insert}
use selfhost_models.Sql.Prefix.{OtherKey}
use selfhost_models.Sql.Sums.{total-insert, total-plus}
use selfhost_models.Action.{modify}
use selfhost_models.Action.Keeps.{
  IsPreorder, KeepsAt, KeepsAt-pure, KeepsAt-modify, KeepsAt-bind-gets, KeepsAt-bind-raise_if,
  KeepsAt-then,
}
use selfhost_models.Tables.{RetentionLimits}
use selfhost_models.Protocol.{Command}
use selfhost_models.Retention.{
  Kept, Outbox, Env, Method, find_kept, row_bytes, logical_bytes, reserved_bytes, required_bytes,
  kept_row, add_kept, slots_full, bytes_full, persist_new, persist, intend, release_outputs,
  abandon_legacy, confirmed_row, confirmed,
}
use selfhost_models.Retention.Steps.{
  at_time, RowOk, weight, kept_id, Bounds, Bounds-IsPreorder, tx-Keeps, update-Bounds, rules,
  intended-RowOk,
}

-- The test of persist on the remaining bytes, as a sum.
fitting :
    (limit texts slots reserved texts_and_reserved bytes result grant : ℕ)
    → ltb (limit - (texts + slots + reserved)) (bytes + result + 8192 + 1024 + grant) ≡ false
    → texts_and_reserved ≡ texts + reserved
    → texts_and_reserved + slots + (bytes + 0 + grant + 1024 + (result + 8192)) ≤ limit
fitting limit texts slots reserved both bytes result grant h e = omega (
  arith,
  e,
  not_less (limit - (texts + slots + reserved)) (bytes + result + 8192 + 1024 + grant) h,
)
  where
    not_less : (a b : ℕ) → ltb a b ≡ false → b ≤ a
    not_less a b h = ground arith

module _ (env : Env) (l : RetentionLimits) where
  abbrev Keeps : {A : Type 0} → Method A → Outbox → Type 0
  Keeps m s = KeepsAt (Bounds env l) m s

  o : IsPreorder (Bounds env l)
  o = Bounds-IsPreorder env l

  -- A new row that fits.
  add_kept-Keeps :
      (r : Kept) (s : Outbox)
      → exists (λ x. x.id == r.id) s.rows ≡ false
      → leb l.max_commands (length s.rows) ≡ false
      → total (weight env) s.rows + length s.grants * 8192 + weight env r ≤ l.storage_bytes
      → RowOk env r
      → Keeps (modify (add_kept r)) s
  unfolding add_kept
  add_kept-Keeps r s n c f k = KeepsAt-modify o _ s (λ h. record {
    ids = Pairs-insert (OtherKey kept_id) r s.rows (All-not _ s.rows n) h.ids;
    few = ground (arith, length-insert r s.rows);
    fits = omega (arith, f, total-insert (weight env) r s.rows);
    good = All-insert (RowOk env) r s.rows k h.good;
  })

  -- What bytes_full tests, as one sum.
  room :
      (now : ℕ) (c : Command) (s : Outbox)
      → bytes_full (at_time env now) l c s ≡ false
      → total (weight env) s.rows
          + length s.grants * 8192
          + weight env (kept_row (at_time env now) c)
        ≤ l.storage_bytes
  unfolding bytes_full required_bytes logical_bytes reserved_bytes kept_row row_bytes
  room now c s h =
      fitting l.storage_bytes _ (length s.grants * 8192) _ _ _ c.result_bytes _ h
        (total-plus (row_bytes env) (λ (r : Kept). r.reservation) s.rows)

  new_row-RowOk : (now : ℕ) (c : Command) → RowOk env (kept_row (at_time env now) c)
  unfolding kept_row
  new_row-RowOk now c = record {
    digest = λ x e. absurd (ground arith);
    custody = λ e. absurd (ground arith);
  }

  persist_new-Keeps :
      (now : ℕ) (c : Command) (r : Option Kept) (s : Outbox)
      → find_kept c.id s ≡ r
      → Keeps (persist_new (at_time env now) l c r) s
  unfolding persist_new find_kept slots_full kept_row
  persist_new-Keeps now c (some r) s e = search rules depth 20
  persist_new-Keeps now c none s e = KeepsAt-bind-gets o _ _ s (
      KeepsAt-bind-raise_if o _ _ _ s (λ f. KeepsAt-bind-gets o _ _ s (
        KeepsAt-bind-raise_if o _ _ _ s (λ b.
          KeepsAt-then o _ _ s
            (add_kept-Keeps (kept_row (at_time env now) c) s (none-exists _ s.rows e) f
              (room now c s b) (new_row-RowOk now c))
            (λ _ t. KeepsAt-pure o c t)))))

  pub persist-Keeps : (now : ℕ) (c : Command) (s : Outbox) → Keeps (persist (at_time env now) l c) s
  unfolding persist
  persist-Keeps now c s =
      tx-Keeps env l _ s (KeepsAt-bind-gets o _ _ s (persist_new-Keeps now c _ s refl))

  -- An update of columns that the limits and the rows' shape do not depend on.
  columns-Keeps :
      (p : Kept → Bool) (f : Kept → Kept) (s : Outbox)
      → ((x : Kept) → (f x).id ≡ x.id)
      → ((x : Kept) → weight env (f x) ≡ weight env x)
      → ((x : Kept) → p x ≡ true → RowOk env x → RowOk env (f x))
      → Keeps (modify (λ v. record v { rows = update p f v.rows })) s
  columns-Keeps p f s i w k =
      update-Bounds env l p f s i
        (λ h. All-map (RowOk env) _ s.rows (λ x _ _. omega (arith, w x)) h.good)
        (λ h. All-map (RowOk env) _ s.rows (λ x q e. k x e q) h.good)

  intend-Keeps : (cid : String) (s : Outbox) → Keeps (modify (intend cid)) s
  unfolding intend row_bytes
  intend-Keeps cid s =
      columns-Keeps _ _ s (λ x. refl) (λ x. refl) (λ x _ k. intended-RowOk env l x k)

  pub release-Keeps : (cid : String) (s : Outbox) → Keeps (release_outputs cid) s
  unfolding release_outputs
  release-Keeps cid s = search (rules, intend-Keeps) depth 20

  pub abandon-Keeps : (owner : String) (s : Outbox) → Keeps (abandon_legacy env owner) s
  unfolding abandon_legacy row_bytes
  abandon-Keeps owner s =
      tx-Keeps env l _ s
        (columns-Keeps _ _ s (λ x. refl) (λ x. refl) (λ x _ k. intended-RowOk env l x k))

  confirmed-RowOk :
      (now : ℕ) (b : Bool) (x : Kept) → RowOk env x → RowOk env (confirmed_row now b x)
  unfolding confirmed_row
  confirmed-RowOk now b x h = record {
    digest = h.digest;
    custody = λ e. let c = h.custody e in (refl, rw c.1 refl, c.2, c.3);
  }

  pub confirmed-Keeps :
      (now : ℕ) (cid : String) (b : Bool) (s : Outbox) → Keeps (confirmed (at_time env now) cid b) s
  unfolding confirmed confirmed_row row_bytes
  confirmed-Keeps now cid b s = tx-Keeps env l _ s (
      columns-Keeps _ (confirmed_row now b) s (λ x. refl) (λ x. refl)
        (λ x _ k. confirmed-RowOk now b x k))
