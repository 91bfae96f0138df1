-- ===== src/Store/Invariant/Frames.antt =====
-- What the statements that branch leave alone, and invariants as relations between states.
use selfhost_models.Prelude.{
  ℕ, ◌≡◌, refl, ap, Option, none, some, String, Bool, true, false, ◌==◌, if◌then◌else◌,
}
use selfhost_models.Sql.{exists, delete}
use selfhost_models.Tables.{Db, Job, Garbage, Attempt, Artifact, Dependency}
use selfhost_models.Store.Base.{World}
use selfhost_models.Store.Queue.{refresh_queue}
use selfhost_models.Store.Queue.Refresh.{refresh_queue-frame}
use selfhost_models.Store.Collection.{remove_job, discard_receipt, unlink}
use selfhost_models.Store.Steps.Rules.{Core, core, on}

-- What `P` says before a step it says after it.
abbrev pub Kept : (Core → Type 0) → World → World → Type 0
Kept P s t = P (core s) → P (core t)

pub core-refresh :
    (now : ℕ) (s : World)
    → core (on s (refresh_queue now)) ≡ record (core s) { jobs = (refresh_queue now s.db).jobs }
core-refresh now s = ap (λ (d : Db). core (record s { db = d })) (refresh_queue-frame now s.db)

discard-frame :
    (o : Option String) (d : Db)
    → discard_receipt o d ≡ record d { garbage = (discard_receipt o d).garbage }
unfolding discard_receipt
discard-frame none d = refl
discard-frame (some a) d = refl

pub core-remove :
    (j : Job) (s : World)
    → core (on s (remove_job j)) ≡ record (core s) {
      dependencies = delete (λ (e : Dependency). e.job == j.id) s.dependencies;
      attempts = delete (λ (a : Attempt). a.job == j.id) s.attempts;
      jobs = delete (λ (x : Job). x.id == j.id) s.jobs;
    }
unfolding remove_job
core-remove j s =
    ap
      (λ (g : Db). core (record s {
        db = record g {
          dependencies = delete (λ (e : Dependency). e.job == j.id) g.dependencies;
          attempts = delete (λ (a : Attempt). a.job == j.id) g.attempts;
          jobs = delete (λ (x : Job). x.id == j.id) g.jobs;
        };
      }))
      (discard-frame j.attempt s.db)

pub core-unlink :
    (g : Garbage) (s : World)
    → core (unlink g s) ≡ record (core s) { receipts = (unlink g s).receipt_files }
unfolding unlink
core-unlink g s =
    go (g.kind == "artifact") (exists (λ (a : Artifact). a.ref == g.ref) s.artifacts)
      (exists (λ (a : Attempt). a.id == g.ref) s.attempts)
  where
    result_of : Bool → Bool → Bool → World
    result_of a b c =
        if a
        then (if b
            then s
            else record s { artifact_files = delete (λ f. f.name == g.ref) s.artifact_files })
        else if c
        then s
        else record s { receipt_files = delete (λ r. r.attempt == g.ref) s.receipt_files }

    go :
        (a b c : Bool)
        → core (result_of a b c) ≡ record (core s) { receipts = (result_of a b c).receipt_files }
    go true true c = refl
    go true false c = refl
    go false b true = refl
    go false b false = refl
