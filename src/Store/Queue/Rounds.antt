-- ===== src/Store/Queue/Rounds.antt =====
-- The rounds of refresh_queue.
use selfhost_models.Prelude.{
  ℕ, zero, suc, ◌+◌, ◌<◌, ◌≡◌, refl, Bool, true, false, List, [], ◌∷◌, arith, eqb, Bool-cases, inl,
  inr, ◌⊎◌, ◌∙◌, eqb_iff,
}
use selfhost_models.Sql.{select, update, count}
use selfhost_models.Sql.Laws.{All, All-after-update}
use selfhost_models.Sql.Rows.{Rows, Rows-refl, Rows-trans, Rows-update}
use selfhost_models.Tables.{Db, Job, is_queued}
use selfhost_models.Store.Queue.{
  is_overdue, expire, expire_overdue, is_orphan, fail_dependency, fail_orphans, cascade,
}

-- An UPDATE of queued rows that takes them out of the queue shortens it by its rowcount.
module _ (p : Job → Bool) (f : Job → Job)
    (queued : (j : Job) → p j ≡ true → is_queued j.state ≡ true)
    (left : (j : Job) → is_queued (f j).state ≡ false) where
  count-leave :
      (js : List Job)
      → count (λ j. is_queued j.state) (update p f js) + count p js
        ≡ count (λ j. is_queued j.state) js
  unfolding count select update
  count-leave [] = omega arith
  count-leave (j ∷ js) = elim (Bool-cases (p j)) [
    | inl e ↦ rw (e, left j, queued j e) (omega (arith, count-leave js))
    | inr e ↦ rw e (ground (arith, count-leave js))
  ]

count-zero : {A : Type 0} (p : A → Bool) (xs : List A) → count p xs ≡ 0 → All (λ x. p x ≡ false) xs
unfolding count select
count-zero p [] h = tt
count-zero p (x ∷ xs) h = elim (Bool-cases (p x)) [
  | inl e ↦ absurd (ground arith)
  | inr e ↦ (e, count-zero p xs (ground arith))
]

-- No queued job has a parent that failed, was canceled, expired or lost a parent itself.
pub record HasNoOrphan (d : Db) : Type 0 where
  pub rows : All (λ j. is_orphan d j ≡ false) d.jobs

abbrev orphans : Db → ℕ
orphans d = count (is_orphan d) d.jobs

abbrev pub waiting : Db → ℕ
waiting d = count (λ j. is_queued j.state) d.jobs

pub cascade-zero : (now : ℕ) (d : Db) → cascade zero now d ≡ d
unfolding cascade
cascade-zero now d = refl

pub cascade-stop : (fuel now : ℕ) (d : Db) → eqb (orphans d) 0 ≡ true → cascade (suc fuel) now d ≡ d
unfolding cascade
cascade-stop fuel now d e = rw (e, cascade)

pub cascade-go :
    (fuel now : ℕ) (d : Db)
    → eqb (orphans d) 0 ≡ false
    → cascade (suc fuel) now d ≡ cascade fuel now (fail_orphans now d)
unfolding cascade
cascade-go fuel now d e = rw (e, cascade)

pub is_orphan-queued : (d : Db) (j : Job) → is_orphan d j ≡ true → is_queued j.state ≡ true
unfolding is_orphan
is_orphan-queued d j e = ground arith

waiting-fail_orphans : (now : ℕ) (d : Db) → waiting (fail_orphans now d) + orphans d ≡ waiting d
unfolding fail_orphans
waiting-fail_orphans now d =
    count-leave (is_orphan d) (fail_dependency now) (is_orphan-queued d) (λ j. refl) d.jobs

-- Enough rounds: the loop ends by finding no orphan.
pub cascade-settles : (fuel now : ℕ) (d : Db) → waiting d < fuel → HasNoOrphan (cascade fuel now d)
cascade-settles zero now d h = elim h [ ]
cascade-settles (suc fuel) now d h = elim (Bool-cases (eqb (orphans d) 0)) [
  | inl e ↦
      rw (cascade-stop fuel now d e)
        (record { rows = count-zero (is_orphan d) d.jobs ((eqb_iff _ 0).0 e) })
  | inr e ↦
      rw (cascade-go fuel now d e)
        (cascade-settles fuel now (fail_orphans now d) (ground (arith, waiting-fail_orphans now d)))
]

-- What a round may do to a row: nothing, or end a queued job.
abbrev pub Changed : ℕ → Job → Job → Type 0
Changed now j k =
    (k ≡ j) ⊎ ((is_queued j.state ≡ true) × ((k ≡ expire now j) ⊎ (k ≡ fail_dependency now j)))

Changed-trans : (now : ℕ) (i j k : Job) → Changed now i j → Changed now j k → Changed now i k
Changed-trans now i j k a b = ground arith

fail_orphans-Rows : (now : ℕ) (d : Db) → Rows (Changed now) d.jobs (fail_orphans now d).jobs
unfolding fail_orphans
fail_orphans-Rows now d =
    Rows-update (Changed now) (is_orphan d) (fail_dependency now) d.jobs
      (λ j e. inr (is_orphan-queued d j e, inr refl)) (λ j e. inl refl)

pub cascade-Rows : (fuel now : ℕ) (d : Db) → Rows (Changed now) d.jobs (cascade fuel now d).jobs
cascade-Rows zero now d = rw cascade-zero (Rows-refl (Changed now) (λ j. inl refl) d.jobs)
cascade-Rows (suc fuel) now d = elim (Bool-cases (eqb (orphans d) 0)) [
  | inl e ↦ rw (cascade-stop fuel now d e) (Rows-refl (Changed now) (λ j. inl refl) d.jobs)
  | inr e ↦ rw (cascade-go fuel now d e) (
      Rows-trans (Changed now) (Changed-trans now) _ _ _ (fail_orphans-Rows now d)
        (cascade-Rows fuel now (fail_orphans now d)))
]

pub none-overdue :
    (now : ℕ) (d : Db) → All (λ j. is_overdue now j ≡ false) (expire_overdue now d).jobs
unfolding expire_overdue is_overdue
none-overdue now d = All-after-update (is_overdue now) (expire now) (λ j. refl) d.jobs

pub still-not-overdue :
    (now : ℕ) (j k : Job) → Changed now j k → is_overdue now j ≡ false → is_overdue now k ≡ false
unfolding is_overdue
still-not-overdue now j k r e = ground arith

pub cascade-frame :
    (fuel now : ℕ) (d : Db) → cascade fuel now d ≡ record d { jobs = (cascade fuel now d).jobs }
cascade-frame zero now d = rw cascade-zero refl
cascade-frame (suc fuel) now d = elim (Bool-cases (eqb (orphans d) 0)) [
  | inl e ↦ rw (cascade-stop fuel now d e) refl
  | inr e ↦
      rw (cascade-go fuel now d e)
        (cascade-frame fuel now (fail_orphans now d) ∙ (unfold fail_orphans in refl))
]
