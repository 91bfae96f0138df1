-- ===== src/Journal/Endings.antt =====
-- The receipt of a finished command: finish, ack and collect of the class Journal of
-- selfhost_models/executor.py.
use selfhost_models.Prelude.{
  ◌≤◌, ℕ, ◌≡◌, refl, String, true, false, ◌&&◌, Option, some, arith, Bool-cases, inl, inr,
  if◌then◌else◌, is, ltb, length, ◌⊎◌,
}
use selfhost_models.Action.{ok, err, scheduler, ◌>>=◌}
use selfhost_models.Protocol.{Command}
use selfhost_models.Journal.{
  Env, Journal, CommandRow, CommandState, accepted, executing, terminal, collected, find_command,
  tx, is_terminal, is_collected,
}
use selfhost_models.Journal.Commands.{finish, finish_row, finish_open, receipt_of}
use selfhost_models.Journal.Steps.{Reach}
use selfhost_models.Journal.Steps.Rules.{rank, IsSound}
use selfhost_models.Journal.Steps.Histories.{Reach-Moved}
use selfhost_models.Journal.Once.{Later-row}

-- What a history leaves of a terminal row: the same digest, and either the same receipt or no more
-- than what collect keeps.
pub record Sealed (x y : CommandRow) : Type 0 where
  pub hash : y.hash ≡ x.hash
  pub digest : y.receipt_digest ≡ x.receipt_digest
  pub ending : ((rank y.state ≡ 3) × (y.receipt ≡ x.receipt)) ⊎ (rank y.state ≡ 4)

ended : (c : CommandState) → 3 ≤ rank c → (rank c ≡ 3) ⊎ (rank c ≡ 4)
ended accepted h = absurd (omega (arith, h))
ended executing h = absurd (omega (arith, h))
ended CommandState.unknown h = absurd (omega (arith, h))
ended terminal h = inl refl
ended collected h = inr refl

at_3 : (c : CommandState) → rank c ≡ 3 → (is_collected c ≡ false) × (is_terminal c ≡ true)
at_3 accepted h = absurd (omega (arith, h))
at_3 executing h = absurd (omega (arith, h))
at_3 CommandState.unknown h = absurd (omega (arith, h))
at_3 terminal h = (refl, refl)
at_3 collected h = absurd (omega (arith, h))

at_4 : (c : CommandState) → rank c ≡ 4 → is_collected c ≡ true
at_4 accepted h = absurd (omega (arith, h))
at_4 executing h = absurd (omega (arith, h))
at_4 CommandState.unknown h = absurd (omega (arith, h))
at_4 terminal h = absurd (omega (arith, h))
at_4 collected h = refl

-- Whatever calls come after a command's end, its row keeps its hash and its receipt's digest, and
-- the receipt itself until it is collected.
pub terminal-Sealed :
    (env : Env) (cid : String) (x : CommandRow) (s t : Journal)
    → IsSound env s.commands
    → find_command cid s ≡ some x
    → x.state ≡ terminal
    → Reach env s t
    → (y : CommandRow) × (find_command cid t ≡ some y) × Sealed x y
terminal-Sealed env cid x s t h e k r =
    let (y, f, l) = Later-row env cid x s t (Reach-Moved env r h) e in
    let three : rank x.state ≡ 3 = rw k refl in
    (
      y,
      f,
      record {
        hash = l.hash;
        digest = l.digest (omega (arith, three));
        ending = elim (ended y.state (omega (arith, three, l.forth))) [
          | inl q ↦ inl (q, l.receipt three q)
          | inr q ↦ inr q
        ];
      },
    )

-- A finish of a command that has ended changes nothing: with the receipt that is recorded it
-- returns it, with another it is a conflict, as is a doubt, and after the collection it is refused.
pub finish_ended :
    (env : Env) (now : ℕ) (c : Command) (result : String) (error : Option String)
    (to : CommandState) (x : CommandRow) (s : Journal)
    → find_command c.id s ≡ some x
    → 3 ≤ rank x.state
    → ltb c.result_bytes (length (env.encode result)) ≡ false
    → finish env now c result error to s ≡ (
      if is_collected x.state
          then err (scheduler "command_not_executing" 409)
          else if is_terminal to
              && is x.receipt_digest (env.receipt_hash (receipt_of env c result error))
          then ok (receipt_of env c result error)
          else err (scheduler "receipt_conflict" 409),
      s,
    )
unfolding finish finish_row finish_open tx ◌>>=◌
finish_ended env now c result error to x s e h b = elim (ended x.state h) [
  | inr q ↦ rw (b, e, at_4 x.state q) refl
  | inl q ↦ elim (Bool-cases (is_terminal to)) [
    | inr k ↦ rw (b, e, (at_3 x.state q).0, (at_3 x.state q).1, k) refl
    | inl k ↦
        elim (Bool-cases (is x.receipt_digest (env.receipt_hash (receipt_of env c result error)))) [
          | inl d ↦ rw (b, e, (at_3 x.state q).0, (at_3 x.state q).1, k, d) refl
          | inr d ↦ rw (b, e, (at_3 x.state q).0, (at_3 x.state q).1, k, d) refl
        ]
  ]
]
