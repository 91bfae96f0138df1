-- ===== src/Journal/Steps/Parts.antt =====
-- The rules of Moves for the statements that the journal's methods are made of.
use selfhost_models.Prelude.{
  ◌≤◌, ◌≡◌, refl, sym, subst, String, Bool, true, false, some, length, arith, ◌==◌, leb,
}
use selfhost_models.Sql.{exists, update, insert}
use selfhost_models.Sql.Laws.{
  All, All-map, All-not, All-insert, All-first, length-insert, length-update,
}
use selfhost_models.Sql.Rows.{Rows-update}
use selfhost_models.Sql.Pairs.{Pairs-insert, Pairs-Rows}
use selfhost_models.Sql.Prefix.{
  Prefix-refl, Prefix-insert, Prefix-update, update-All, OtherKey, same_key, first-only,
}
use selfhost_models.Action.{Result, ok, err}
use selfhost_models.Action.Keeps.{KeepsAt}
use selfhost_models.Journal.{Env, Journal, CommandRow, Method, tx, finish_tx, find_command}
use selfhost_models.Journal.Steps.Rules.{
  Later, Later-refl, Shape, IsSound, Moves, Moves-IsPreorder, row_id,
}

module _ (env : Env) where
  finish_tx-Moves :
      {A : Type 0} (s t : Journal) (r : Result A)
      → Moves env s t
      → Moves env s (finish_tx s (r, t)).1
  finish_tx-Moves s t (ok a) h = h
  finish_tx-Moves s t (err e) h = (Moves-IsPreorder env).same s

  pub tx-Moves :
      {A : Type 0} (m : Method A) (s : Journal)
      → KeepsAt (Moves env) m s
      → KeepsAt (Moves env) (tx m) s
  unfolding tx
  tx-Moves m s k = record { at = finish_tx-Moves s (m s).1 (m s).0 k.at }

  -- A statement on another table, or on a fence that does not go down.
  pub quiet-Moves : (s t : Journal) → t.commands ≡ s.commands → s.fence ≤ t.fence → Moves env s t
  quiet-Moves s t e f h = record {
    fence = f;
    sound = subst (IsSound env) (sym e) h;
    rows = rw e (Prefix-refl Later Later-refl s.commands);
  }

  -- UPDATE commands
  pub update-Moves :
      (p : CommandRow → Bool) (f : CommandRow → CommandRow) (s t : Journal)
      → t.commands ≡ update p f s.commands
      → t.fence ≡ s.fence
      → ((x : CommandRow) → (f x).id ≡ x.id)
      → (IsSound env s.commands → All (λ x. p x ≡ true → Later x (f x)) s.commands)
      → (IsSound env s.commands → All (λ x. p x ≡ true → Shape env (f x)) s.commands)
      → Moves env s t
  update-Moves p f s t e v i l k h = record {
    fence = omega (arith, v);
    sound = subst (IsSound env) (sym e) (record {
      ids =
          Pairs-Rows (OtherKey row_id) (λ x y. y.id ≡ x.id) s.commands (update p f s.commands)
            (same_key row_id)
            (Rows-update (λ x y. y.id ≡ x.id) p f s.commands (λ x _. i x) (λ x _. refl)) h.ids;
      few = omega (arith, h.few, length-update p f s.commands);
      shaped = update-All (Shape env) p f s.commands (k h) h.shaped;
    });
    rows = rw e (Prefix-update Later p f s.commands Later-refl (l h));
  }

  -- UPDATE commands ... WHERE id=?, after the row was read
  pub update_one-Moves :
      (cid : String) (r : CommandRow) (f : CommandRow → CommandRow) (s t : Journal)
      → find_command cid s ≡ some r
      → t.commands ≡ update (λ x. x.id == cid) f s.commands
      → t.fence ≡ s.fence
      → ((x : CommandRow) → (f x).id ≡ x.id)
      → Later r (f r)
      → (Shape env r → Shape env (f r))
      → Moves env s t
  unfolding find_command
  update_one-Moves cid r f s t e q v i l k =
      update-Moves (λ x. x.id == cid) f s t q v i (λ h. found h (λ x. Later x (f x)) l)
        (λ h. found h (λ x. Shape env (f x)) (k (All-first (Shape env) _ s.commands h.shaped e)))
    where
      found :
          IsSound env s.commands
          → (P : CommandRow → Type 0) → P r
          → All (λ x. (x.id == cid) ≡ true → P x) s.commands
      found h P z =
          All-map (λ x. (x.id == cid) ≡ true → x ≡ r) (λ x. (x.id == cid) ≡ true → P x) s.commands
            (λ x g b. subst P (sym (g b)) z) (first-only row_id cid r s.commands h.ids e)

  -- INSERT INTO commands, after a search for its id found no row
  pub insert-Moves :
      (r : CommandRow) (s t : Journal)
      → exists (λ x. x.id == r.id) s.commands ≡ false
      → leb env.max_commands (length s.commands) ≡ false
      → t.commands ≡ insert r s.commands
      → t.fence ≡ s.fence
      → Shape env r
      → Moves env s t
  insert-Moves r s t n l e v k h = record {
    fence = omega (arith, v);
    sound = subst (IsSound env) (sym e) (record {
      ids = Pairs-insert (OtherKey row_id) r s.commands (All-not _ s.commands n) h.ids;
      few = ground (arith, length-insert r s.commands);
      shaped = All-insert (Shape env) r s.commands k h.shaped;
    });
    rows = rw e (Prefix-insert Later Later-refl r s.commands);
  }
