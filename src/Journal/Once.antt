-- ===== src/Journal/Once.antt =====
-- The start of commands: executing of the class Journal of selfhost_models/executor.py.
use selfhost_models.Prelude.{
  ◌≤◌, ◌≡◌, refl, sym, subst, String, Bool, true, false, Option, none, some, arith, ◌==◌, inl, inr,
  eqb,
}
use selfhost_models.Sql.Laws.{first-holds}
use selfhost_models.Sql.Members.{first-In}
use selfhost_models.Sql.Prefix.{In-Prefix, In-first, first-update}
use selfhost_models.Action.{Result, ok, err, pure, ◌>>=◌}
use selfhost_models.Action.Laws.{Result-cases}
use selfhost_models.Journal.{
  Env, Journal, CommandRow, CommandState, Method, finish_tx, accepted, executing, terminal,
  collected, find_command, tx, is_accepted, whole_command,
}
use selfhost_models.Journal.Commands.{
  try_executing, executing_row, executing_accepted, begin, set_state,
}
use selfhost_models.Journal.Steps.{Reach, after, executing_step}
use selfhost_models.Journal.Steps.Rules.{rank, Later, IsSound, Moved, row_id}
use selfhost_models.Journal.Steps.Histories.{Step-Moves, Reach-Moved}

-- The later version of the row that an id finds is what the id finds later.
pub Later-row :
    (env : Env) (cid : String) (r : CommandRow) (s t : Journal)
    → Moved env s t
    → find_command cid s ≡ some r
    → (y : CommandRow) × (find_command cid t ≡ some y) × Later r y
unfolding find_command
Later-row env cid r s t m e =
    let (y, i, l) = In-Prefix Later r s.commands t.commands (first-In _ r s.commands e) m.rows in
    (
      y,
      In-first row_id cid y t.commands m.sound.ids i
          (subst (λ v. (v == cid) ≡ true) (sym l.id) (first-holds _ s.commands e)),
      l,
    )

-- What is found by its id after an update by it.
find-set_state :
    (cid : String) (to : CommandState) (r : CommandRow) (s : Journal)
    → find_command cid s ≡ some r
    → find_command cid (set_state cid to s) ≡ some (record r { state = to })
unfolding find_command set_state
find-set_state cid to r s e = first-update (λ x. x.id == cid) _ r s.commands (λ x. refl) e

abbrev Running : String → Journal → Type 0
Running cid s = (r : CommandRow) × (find_command cid s ≡ some r) × (rank r.state ≡ 1)

begin-true :
    (cid : String) (r : CommandRow) (b : Bool) (s : Journal)
    → find_command cid s ≡ some r
    → (begin cid b s).0 ≡ ok true
    → Running cid (begin cid b s).1
unfolding begin ◌>>=◌
begin-true cid r false s e h = absurd (ground arith)
begin-true cid r true s e h =
    (record r { state = executing }, find-set_state cid executing r s e, refl)

accepted_true :
    (cid : String) (r : CommandRow) (b : Bool) (s : Journal)
    → find_command cid s ≡ some r
    → (executing_accepted cid r b s).0 ≡ ok true
    → Running cid (executing_accepted cid r b s).1
unfolding executing_accepted ◌>>=◌
accepted_true cid r false s e h = absurd (ground arith)
accepted_true cid r true s e h = elim (Result-cases (whole_command r.command)) [
  | inl (x, k) ↦ absurd (ground (arith, rw k at h))
  | inr (c, k) ↦ rw k (begin-true cid r (eqb s.fence c.fence) s e (rw k at h))
]

row_true :
    (cid : String) (r : Option CommandRow) (s : Journal)
    → find_command cid s ≡ r
    → (executing_row cid r s).0 ≡ ok true
    → Running cid (executing_row cid r s).1
unfolding executing_row pure
row_true cid none s e h = absurd (ground arith)
row_true cid (some r) s e h = accepted_true cid r (is_accepted r.state) s e h

-- A transaction that returns commits.
pub committed :
    {A : Type 0} (m : Method A) (a : A) (s : Journal)
    → (tx m s).0 ≡ ok a
    → ((m s).0 ≡ ok a) × ((tx m s).1 ≡ (m s).1)
unfolding tx
committed m a s h = go (m s).0 (m s).1 h
  where
    go :
        (r : Result _) (t : Journal)
        → (finish_tx s (r, t)).0 ≡ ok a
        → (r ≡ ok a) × ((finish_tx s (r, t)).1 ≡ t)
    go (ok b) t h = (h, refl)
    go (err x) t h = absurd (ground arith)

-- executing returns true only for an accepted row, which it leaves executing.
executing_true :
    (cid : String) (s : Journal)
    → (try_executing cid s).0 ≡ ok true
    → Running cid (after (try_executing cid) s)
unfolding try_executing ◌>>=◌
executing_true cid s h =
    let c = committed _ true s h in
    subst (Running cid) (sym c.1) (row_true cid (find_command cid s) s refl c.0)

-- A row that is not accepted is not run.
pub executing_other :
    (cid : String) (r : CommandRow) (s : Journal)
    → find_command cid s ≡ some r
    → is_accepted r.state ≡ false
    → try_executing cid s ≡ (ok false, s)
unfolding try_executing executing_row executing_accepted tx ◌>>=◌
executing_other cid r s e a = rw (e, a) refl

moved_on : (c : CommandState) → 1 ≤ rank c → is_accepted c ≡ false
moved_on accepted h = absurd (omega (arith, h))
moved_on executing h = refl
moved_on CommandState.unknown h = refl
moved_on terminal h = refl
moved_on collected h = refl

-- A command that executing has let run once is never let run again, whatever calls come between.
pub executing-once :
    (env : Env) (cid : String) (s t : Journal)
    → IsSound env s.commands
    → (try_executing cid s).0 ≡ ok true
    → Reach env (after (try_executing cid) s) t
    → try_executing cid t ≡ (ok false, t)
executing-once env cid s t h e r =
    let (x, f, k) = executing_true cid s e in
    let m = Reach-Moved env r (Step-Moves env (executing_step cid) h).sound in
    let (y, g, l) = Later-row env cid x (after (try_executing cid) s) t m f in
    executing_other cid y t g (moved_on y.state (omega (arith, k, l.forth)))
