-- ===== src/Retention/Histories.antt =====
-- The space that the class ControlRetention of selfhost_models/execution_retention.py takes, and
-- when it lets outputs go, along its histories.
use selfhost_models.Prelude.{
  ℕ, ◌+◌, ◌≤◌, ◌≡◌, refl, sym, subst, ap, String, Bool, true, false, ◌&&◌, not, Option, none, some,
  length, arith, is_some, ltb, ◌==◌, eq_iff, Option-cases, inl, inr,
}
use selfhost_models.Sql.Laws.{All, All-map, All-first}
use selfhost_models.Sql.Prefix.{first-only}
use selfhost_models.Action.{modify}
use selfhost_models.Action.Keeps.{
  IsPreorder, KeepsAt, KeepsAt-pure, KeepsAt-bind-gets, KeepsAt-bind-raise_if, KeepsAt-then,
}
use selfhost_models.Tables.{RetentionLimits}
use selfhost_models.Journal.{Receipt}
use selfhost_models.Retention.{
  Kept, Outbox, Env, Method, find_kept, row_bytes, conflicts, set_receipt, save_open, save_row,
  save_receipt, is_collectable, cleared_row, collect, size_of, text_of,
}
use selfhost_models.Retention.Steps.{
  at_time, Step, Reach, here, next, persist_step, save_receipt_step, release_step, abandon_step,
  confirmed_step, collect_step, RowOk, weight, kept_id, IsBounded, Bounds, IsDigest,
  Bounds-IsPreorder, tx-Keeps, update-Bounds, rules,
}
use selfhost_models.Retention.Persisting.{
  persist-Keeps, release-Keeps, abandon-Keeps, confirmed-Keeps,
}

agreed : (b : Bool) → not b ≡ false → b ≡ true
agreed b h = ground arith

module _ (env : Env) (l : RetentionLimits) where
  abbrev Keeps : {A : Type 0} → Method A → Outbox → Type 0
  Keeps m s = KeepsAt (Bounds env l) m s

  o : IsPreorder (Bounds env l)
  o = Bounds-IsPreorder env l

  -- The receipt fits where its space was reserved; a receipt saved again is as long as it was.
  saved-weight :
      (x : Receipt) (r : Kept)
      → IsDigest env
      → RowOk env r
      → conflicts r.receipt_hash (env.receipt_hash x) ≡ false
      → (not (is_some r.receipt)
          && ltb r.reservation (length (env.encode (env.canonical_receipt x))))
        ≡ false
      → size_of env (some (env.canonical_receipt x))
        ≤ size_of env (text_of env.canonical_receipt r.receipt) + r.reservation
  saved-weight x r d k c f = elim (Option-cases r.receipt) [
    | inl e ↦ ground (arith, rw e at f)
    | inr (y, e) ↦ rw e (omega (arith, ap (λ t. size_of env (some t)) (d x y (same_digest y e))))
  ]
    where
      same_digest : (y : Receipt) → r.receipt ≡ some y → env.receipt_hash x ≡ env.receipt_hash y
      same_digest y e =
          sym (
            (eq_iff (env.receipt_hash y) (env.receipt_hash x)).0
              (agreed _ (rw (k.digest y e) at c)))

  abbrev set_row : Receipt → Kept → Kept
  set_row x r = record r {
    receipt = some x;
    receipt_hash = some (env.receipt_hash x);
    reservation = 0;
  }

  set_row-RowOk : (x : Receipt) (r : Kept) → r.collected ≡ false → RowOk env (set_row x r)
  set_row-RowOk x r n = record {
    digest = λ y q. ap (λ o. text_of env.receipt_hash o) q;
    custody = λ e. absurd (ground (arith, n, e));
  }

  set_receipt-Keeps :
      (cid : String) (x : Receipt) (r : Kept) (s : Outbox)
      → IsDigest env
      → find_kept cid s ≡ some r
      → r.collected ≡ false
      → conflicts r.receipt_hash (env.receipt_hash x) ≡ false
      → (not (is_some r.receipt)
          && ltb r.reservation (length (env.encode (env.canonical_receipt x))))
        ≡ false
      → Keeps (modify (set_receipt env cid x)) s
  unfolding set_receipt find_kept row_bytes
  set_receipt-Keeps cid x r s d e n c f =
      update-Bounds env l _ _ s (λ y. refl)
        (λ h.
          only h (λ y. weight env (set_row x y) ≤ weight env y)
            (omega (arith, saved-weight x r d (All-first (RowOk env) _ s.rows h.good e) c f)))
        (λ h. only h (λ y. RowOk env (set_row x y)) (set_row-RowOk x r n))
    where
      only :
          IsBounded env l s
          → (P : Kept → Type 0) → P r
          → All (λ y. (y.id == cid) ≡ true → P y) s.rows
      only h P z =
          All-map (λ y. (y.id == cid) ≡ true → y ≡ r) (λ y. (y.id == cid) ≡ true → P y) s.rows
            (λ y g b. subst P (sym (g b)) z) (first-only kept_id cid r s.rows h.ids e)

  collect-Keeps : (now seconds : ℕ) (s : Outbox) → Keeps (collect (at_time env now) seconds) s
  unfolding collect cleared_row row_bytes is_collectable
  collect-Keeps now seconds s = tx-Keeps env l _ s (
      KeepsAt-bind-gets o _ _ s (
        KeepsAt-then o _ _ s
          (update-Bounds env l _ cleared_row s (λ x. refl)
            (λ h. All-map (RowOk env) _ s.rows (λ x _ _. omega arith) h.good)
            (λ h. All-map (RowOk env) _ s.rows (λ x _ e. cleared-RowOk x e) h.good))
          (λ _ t. KeepsAt-pure o _ t)))
    where
      cleared-RowOk :
          (x : Kept)
          → is_collectable now seconds x ≡ true
          → RowOk env (record x { command = none; receipt = none; collected = true })
      cleared-RowOk x e = record {
        digest = λ y q. absurd (ground (arith, q));
        custody = λ _. (ground arith, ground arith, ground arith, ground arith);
      }

  save_open-Keeps :
      (cid : String) (x : Receipt) (r : Kept) (b : Bool) (s : Outbox)
      → IsDigest env
      → find_kept cid s ≡ some r
      → r.collected ≡ b
      → conflicts r.receipt_hash (env.receipt_hash x) ≡ false
      → Keeps (save_open env cid x r b) s
  unfolding save_open
  save_open-Keeps cid x r true s d e n c = KeepsAt-pure o tt s
  save_open-Keeps cid x r false s d e n c =
      KeepsAt-bind-raise_if o _ _ _ s (λ f. set_receipt-Keeps cid x r s d e n c f)

  save_row-Keeps :
      (cid : String) (x : Receipt) (r : Option Kept) (s : Outbox)
      → IsDigest env
      → find_kept cid s ≡ r
      → Keeps (save_row env cid x r) s
  unfolding save_row
  save_row-Keeps cid x none s d e = search rules
  save_row-Keeps cid x (some r) s d e =
      KeepsAt-bind-raise_if o _ _ _ s (λ c. save_open-Keeps cid x r r.collected s d e refl c)

  save_receipt-Keeps :
      (cid : String) (x : Receipt) (s : Outbox) → IsDigest env → Keeps (save_receipt env cid x) s
  unfolding save_receipt
  save_receipt-Keeps cid x s d =
      tx-Keeps env l _ s (KeepsAt-bind-gets o _ _ s (save_row-Keeps cid x _ s d refl))

  Step-Bounds : {s t : Outbox} → IsDigest env → Step env l s t → Bounds env l s t
  Step-Bounds d (persist_step now c) = (persist-Keeps env l now c _).at
  Step-Bounds d (save_receipt_step cid x) = (save_receipt-Keeps cid x _ d).at
  Step-Bounds d (release_step cid) = (release-Keeps env l cid _).at
  Step-Bounds d (abandon_step owner) = (abandon-Keeps env l owner _).at
  Step-Bounds d (confirmed_step now cid b) = (confirmed-Keeps env l now cid b _).at
  Step-Bounds d (collect_step now n) = (collect-Keeps now n _).at

-- Along every history of calls with one pair of limits, the commands and the bytes that they take
-- and reserve stay within the limits, whatever receipts are saved, and only a row that was
-- acknowledged and released on purpose, and whose receipt's digest is kept, is ever cleared: when
-- this was so at the start and equal digests are those of equal receipts.
pub Reach-IsBounded :
    (env : Env) (l : RetentionLimits) {s t : Outbox}
    → IsDigest env
    → Reach env l s t
    → IsBounded env l s
    → IsBounded env l t
Reach-IsBounded env l d here h = h
Reach-IsBounded env l d (next r x) h = Step-Bounds env l d x (Reach-IsBounded env l d r h)
