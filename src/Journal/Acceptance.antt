-- ===== src/Journal/Acceptance.antt =====
-- The acceptance of commands: accept of the class Journal of selfhost_models/executor.py.
use selfhost_models.Prelude.{
  ℕ, ◌≡◌, refl, sym, subst, ◌∙◌, true, false, ◌||◌, not, Option, none, some, arith, ◌==◌, eq_refl,
  Bool-cases, inl, inr, if◌then◌else◌, eqb,
}
use selfhost_models.Sql.Prefix.{first-insert}
use selfhost_models.Action.{ok, err, scheduler, ◌>>=◌}
use selfhost_models.Action.Laws.{Result-cases}
use selfhost_models.Protocol.{Command, is_execute}
use selfhost_models.Journal.{Env, Journal, CommandRow, find_command, tx}
use selfhost_models.Journal.Commands.{
  accept, accept_new, unregistered, is_full, admit_kind, new_row, add_command,
}
use selfhost_models.Journal.Steps.{Reach, after, accept_step}
use selfhost_models.Journal.Steps.Rules.{IsSound}
use selfhost_models.Journal.Steps.Histories.{admit_kind-same, Step-Moves, Reach-Moved}
use selfhost_models.Journal.Once.{committed, Later-row}

-- An accept that gets past its tests adds the command's row.
new_true :
    (env : Env) (now : ℕ) (c : Command) (s : Journal)
    → (accept_new env now c none s).0 ≡ ok true
    → accept_new env now c none s ≡ (ok true, add_command (new_row env now c) s)
unfolding accept_new ◌>>=◌
new_true env now c s h = elim (Bool-cases (not (eqb s.fence c.fence))) [
  | inl x ↦ absurd (ground (arith, rw x at h))
  | inr x ↦ elim (Bool-cases (unregistered env c.deployment s)) [
    | inl y ↦ absurd (ground (arith, rw (x, y) at h))
    | inr y ↦ elim (Bool-cases (is_full env c s)) [
      | inl z ↦ absurd (ground (arith, rw (x, y, z) at h))
      | inr z ↦ elim (Result-cases (admit_kind env c (is_execute c.kind) s).0) [
        | inl (e, w) ↦ absurd (ground (arith, rw (x, y, z, w) at h))
        | inr (u, w) ↦ rw (x, y, z, w, admit_kind-same env c (is_execute c.kind) s) refl
      ]
    ]
  ]
]

-- What accept leaves, once it returned true.
abbrev Accepted : Env → Command → Journal → Type 0
Accepted env c t = (r : CommandRow) × (find_command c.id t ≡ some r) × (r.hash ≡ env.content_hash c)

find-add_command :
    (env : Env) (now : ℕ) (c : Command) (s : Journal)
    → find_command c.id s ≡ none
    → find_command c.id (add_command (new_row env now c) s) ≡ some (new_row env now c)
unfolding find_command add_command new_row
find-add_command env now c s n = first-insert _ _ s.commands n (eq_refl c.id)

row-Accepted :
    (env : Env) (now : ℕ) (c : Command) (r : Option CommandRow) (s : Journal)
    → find_command c.id s ≡ r
    → (accept_new env now c r s).0 ≡ ok true
    → Accepted env c (accept_new env now c r s).1
unfolding accept_new new_row ◌>>=◌
row-Accepted env now c (some r) s e h = elim (Bool-cases (r.hash == env.content_hash c)) [
  | inl x ↦ absurd (ground (arith, rw x at h))
  | inr x ↦ absurd (ground (arith, rw x at h))
]
row-Accepted env now c none s e h =
    subst (λ w. Accepted env c w.1) (sym (new_true env now c s h))
      (new_row env now c, find-add_command env now c s e, refl)

accept-Accepted :
    (env : Env) (now : ℕ) (c : Command) (s : Journal)
    → (accept env now c s).0 ≡ ok true
    → ((not (c.authority == env.authority) || not (c.executor == env.executor)) ≡ false)
      × Accepted env c (accept env now c s).1
unfolding accept ◌>>=◌
accept-Accepted env now c s h =
    let k = committed _ true s h in
    elim (Bool-cases (not (c.authority == env.authority) || not (c.executor == env.executor))) [
      | inl x ↦ absurd (ground (arith, rw x at k.0))
      | inr x ↦ (
        x,
        subst (Accepted env c) (sym k.1)
            (rw x (row-Accepted env now c (find_command c.id s) s refl (rw x at k.0))),
      )
    ]

accept_known :
    (env : Env) (now : ℕ) (d : Command) (t : Journal) (y : CommandRow)
    → (not (d.authority == env.authority) || not (d.executor == env.executor)) ≡ false
    → find_command d.id t ≡ some y
    → accept env now d t ≡ (
      if y.hash == env.content_hash d then ok false else err (scheduler "command_conflict" 409),
      t,
    )
unfolding accept accept_new tx ◌>>=◌
accept_known env now d t y g e = elim (Bool-cases (y.hash == env.content_hash d)) [
  | inl x ↦ rw (g, e, x) refl
  | inr x ↦ rw (g, e, x) refl
]

-- After a command was accepted, whatever calls come between, a command of its id from the same
-- controller is not accepted: the same one, by its hash, is told so, another is a conflict, and
-- nothing changes.
pub accept-once :
    (env : Env) (now later : ℕ) (c d : Command) (s t : Journal)
    → IsSound env s.commands
    → (accept env now c s).0 ≡ ok true
    → Reach env (after (accept env now c) s) t
    → d.id ≡ c.id
    → d.authority ≡ c.authority
    → d.executor ≡ c.executor
    → accept env later d t ≡ (
      if env.content_hash c == env.content_hash d
          then ok false
          else err (scheduler "command_conflict" 409),
      t,
    )
accept-once env now later c d s t h e r i a b =
    let (g, (x, f, q)) = accept-Accepted env now c s e in
    let m = Reach-Moved env r (Step-Moves env (accept_step now c) h).sound in
    let (y, z, l) = Later-row env c.id x (after (accept env now c) s) t m f in
    subst
      (λ v.
        accept env later d t
        ≡ (if v == env.content_hash d then ok false else err (scheduler "command_conflict" 409), t))
      (l.hash ∙ q) (accept_known env later d t y (rw (a, b) g) (rw i z))
