-- ===== src/Journal/Restart.antt =====
-- What a restart of the executor leaves: recover of the class Journal of selfhost_models/executor.py.
use selfhost_models.Prelude.{
  ◌≡◌, refl, sym, subst, ap, ◌∙◌, String, Bool, false, ◌||◌, ◌&&◌, not, Option, none, some, arith,
  Bool-cases, Option-cases, inl, inr,
}
use selfhost_models.Sql.Laws.{All, All-after-update, All-first}
use selfhost_models.Action.{Result, ok, err, ◌>>=◌}
use selfhost_models.Journal.{
  Journal, CommandRow, finish_tx, find_command, tx, is_accepted, is_executing, is_exited, Engine,
}
use selfhost_models.Journal.Engines.{doubt_commands, has_unknown, doubt_engine, recover}
use selfhost_models.Journal.Commands.{try_executing, executing_row}
use selfhost_models.Journal.Steps.{after}
use selfhost_models.Journal.Once.{executing_other}

-- No command is accepted or executing.
abbrev pub IsIdle : Journal → Type 0
IsIdle s =
    All (λ (r : CommandRow). (is_accepted r.state || is_executing r.state) ≡ false) s.commands

found-idle :
    (cid : String) (r : CommandRow) (t : Journal)
    → find_command cid t ≡ some r
    → IsIdle t
    → (is_accepted r.state || is_executing r.state) ≡ false
unfolding find_command
found-idle cid r t e h =
    All-first (λ (x : CommandRow). (is_accepted x.state || is_executing x.state) ≡ false) _
      t.commands h e

or_left : (a b : Bool) → (a || b) ≡ false → a ≡ false
or_left a b h = ground arith

executing_none :
    (cid : String) (t : Journal) → find_command cid t ≡ none → try_executing cid t ≡ (ok false, t)
unfolding try_executing executing_row tx ◌>>=◌
executing_none cid t e = rw e refl

doubt_engine-commands :
    (e : Option Engine) (s : Journal)
    → ((doubt_engine e s).0 ≡ ok tt) × ((doubt_engine e s).1.commands ≡ s.commands)
unfolding doubt_engine ◌>>=◌
doubt_engine-commands none s = (refl, refl)
doubt_engine-commands (some e) s =
    elim (Bool-cases (not (is_exited e.phase) && has_unknown e.handle s)) [
      | inl x ↦ rw x (refl, refl)
      | inr x ↦ rw x (refl, refl)
    ]

kept : (s t : Journal) (r : Result Unit) → r ≡ ok tt → (finish_tx s (r, t)).1 ≡ t
kept s t (ok u) e = refl
kept s t (err x) e = absurd (ground arith)

recover-commands : (s : Journal) → (after recover s).commands ≡ (doubt_commands s).commands
unfolding recover tx doubt_commands ◌>>=◌
recover-commands s =
    let d = doubt_engine-commands s.engine (doubt_commands s) in
    ap (λ (t : Journal). t.commands) (kept s _ _ d.0) ∙ d.1

doubt-IsIdle : (s : Journal) → IsIdle (doubt_commands s)
unfolding doubt_commands
doubt-IsIdle s = All-after-update _ _ (λ x. refl) s.commands

recovered : (s : Journal) → IsIdle (after recover s)
recovered s =
    subst (λ cs. All (λ (r : CommandRow). (is_accepted r.state || is_executing r.state) ≡ false) cs)
      (sym (recover-commands s)) (doubt-IsIdle s)

idle-executing : (cid : String) (t : Journal) → IsIdle t → try_executing cid t ≡ (ok false, t)
idle-executing cid t h = elim (Option-cases (find_command cid t)) [
  | inl e ↦ missing e
  | inr (r, e) ↦ executing_other cid r t e (first_of r e)
]
  where
    first_of : (r : CommandRow) → find_command cid t ≡ some r → is_accepted r.state ≡ false
    first_of r e = or_left (is_accepted r.state) _ (found-idle cid r t e h)

    missing : find_command cid t ≡ none → try_executing cid t ≡ (ok false, t)
    missing e = executing_none cid t e

-- After a restart no command is accepted or executing, so none that was there before it is run,
-- and the attempt to run one changes nothing.
pub recover-IsIdle :
    (cid : String) (s : Journal)
    → IsIdle (after recover s) × (try_executing cid (after recover s) ≡ (ok false, after recover s))
recover-IsIdle cid s = (recovered s, idle-executing cid _ (recovered s))
