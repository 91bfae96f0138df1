-- ===== src/Store/Queue/Choice.antt =====
-- Which job choose takes.
use selfhost_models.Prelude.{
  ◌∙◌, ◌<◌, ap, ℕ, ◌+◌, ◌≤◌, ◌≡◌, refl, sym, subst, Bool, true, false, ◌&&◌, ◌||◌, Option, none,
  some, List, [], ◌∷◌, arith, leb, Bool-cases, inl, inr, Option-cases, ◌⊎◌, eq_iff, same,
  if◌then◌else◌, ◌==◌,
}
use selfhost_models.Sql.{first, exists}
use selfhost_models.Sql.Laws.{All, first-none, first-holds, exists-some}
use selfhost_models.Sql.Members.{
  In, In-All, In-select, first-In, not-exists, IsSorted, IsSorted-select, first-least,
  sorted_unique,
}
use selfhost_models.Action.{ok, ◌>>=◌}
use selfhost_models.Tables.{Db, Job, Dependency, Controller, is_queued, is_succeeded, is_available}
use selfhost_models.Store.Base.{World, Env, state, execute}
use selfhost_models.Store.Queue.{
  is_overdue, has_parent, is_unfinished, is_eligible, eligible, eligible_rows, pick, choose,
  refresh_queue, get_or,
}
use selfhost_models.Store.Queue.Refresh.{refresh_queue-in_time, refresh_queue-frame}

-- The database in which `choose` looks, and leaves.
abbrev pub refreshed : Env → World → Db
refreshed env w = refresh_queue env.clock w.db

controller-refreshed : (env : Env) (w : World) → (refreshed env w).controller ≡ w.controller
controller-refreshed env w = ap (λ (d : Db). d.controller) (refresh_queue-frame env.clock w.db)

pub choose_lem :
    (env : Env) (w : World)
    → choose env w ≡ (
      ok (pick env w.controller (eligible_rows (refreshed env w))),
      record w { db = refreshed env w },
    )
unfolding choose eligible state execute ◌>>=◌
choose_lem env w =
    ap
      (λ (c : Controller).
        (ok (pick env c (eligible_rows (refreshed env w))), record w { db = refreshed env w }))
      (controller-refreshed env w)

-- The choice when no eligible job is urgent.
abbrev fallback : Env → Controller → Job → List Job → Job
fallback env s r rest =
    if leb (r.created + env.config.aging_seconds) env.clock
      || leb env.config.reuse_dispatches s.reuse_count
    then r
    else get_or (first (λ j. same (some j.deployment) s.deployment) (r ∷ rest)) r

either-In :
    (b : Bool) (o : Option Job) (r : Job) (rows : List Job)
    → In r rows
    → ((u : Job) → o ≡ some u → In u rows)
    → In (if b then r else get_or o r) rows
either-In true o r rows h k = h
either-In false none r rows h k = h
either-In false (some u) r rows h k = k u refl

-- The two ways of a choice among some rows.
pick-cases :
    (env : Env) (s : Controller) (r : Job) (rest : List Job) (j : Job)
    → pick env s (r ∷ rest) ≡ some j
    → (first (λ u. u.urgent) (r ∷ rest) ≡ some j)
      ⊎ ((exists (λ u. u.urgent) (r ∷ rest) ≡ false) × (j ≡ fallback env s r rest))
unfolding pick
pick-cases env s r rest j e = elim (Bool-cases (exists (λ u. u.urgent) (r ∷ rest))) [
  | inl h ↦ let (u, k) = exists-some (λ (u : Job). u.urgent) (r ∷ rest) h in inl (ground arith)
  | inr h ↦ let k = first-none (λ (u : Job). u.urgent) (r ∷ rest) h in inr (h, ground arith)
]

pick-In :
    (env : Env) (s : Controller) (rows : List Job) (j : Job) → pick env s rows ≡ some j → In j rows
pick-In env s [] j e = absurd (unfold pick in cc e)
pick-In env s (r ∷ rest) j e = elim (pick-cases env s r rest j e) [
  | inl h ↦ first-In (λ u. u.urgent) j (r ∷ rest) h
  | inr h ↦
      subst (λ x. In x (r ∷ rest)) (sym h.1)
        (either-In _ _ r (r ∷ rest) (inl refl)
          (λ u k. first-In (λ x. same (some x.deployment) s.deployment) u (r ∷ rest) k))
]

pick-none : (env : Env) (s : Controller) (rows : List Job) → pick env s rows ≡ none → rows ≡ []
unfolding pick
pick-none env s [] e = refl
pick-none env s (r ∷ rest) e = ground arith

fallback-head :
    (env : Env) (s : Controller) (r : Job) (rest : List Job)
    → (r.created + env.config.aging_seconds ≤ env.clock)
      ⊎ (env.config.reuse_dispatches ≤ s.reuse_count)
    → fallback env s r rest ≡ r
fallback-head env s r rest h = ground arith

pick-urgent :
    (env : Env) (s : Controller) (rows : List Job) (j k : Job)
    → pick env s rows ≡ some j
    → IsSorted (λ (x : Job). x.seq) rows
    → In k rows
    → k.urgent ≡ true
    → (j.urgent ≡ true) × (j.seq ≤ k.seq)
pick-urgent env s [] j k e o i u = absurd i
pick-urgent env s (r ∷ rest) j k e o i u = elim (pick-cases env s r rest j e) [
  | inl h ↦ (
    first-holds (λ (x : Job). x.urgent) (r ∷ rest) h,
    first-least (λ (x : Job). x.seq) (λ x. x.urgent) j k (r ∷ rest) o h i u,
  )
  | inr h ↦ absurd (ground (arith, not-exists (λ (x : Job). x.urgent) k (r ∷ rest) h.0 i))
]

head-least :
    (r k : Job) (rest : List Job)
    → IsSorted (λ (x : Job). x.seq) (r ∷ rest)
    → In k (r ∷ rest)
    → r.seq ≤ k.seq
head-least r k rest o (inl e) = ground arith
head-least r k rest o (inr i) = ground (arith, In-All (λ (x : Job). r.seq < x.seq) k rest i o.0)

pick-oldest :
    (env : Env) (s : Controller) (rows : List Job) (j k : Job)
    → pick env s rows ≡ some j
    → All (λ (x : Job). (x.urgent ≡ false) × (k.seq ≤ x.seq)) rows
    → IsSorted (λ (x : Job). x.seq) rows
    → In k rows
    → (k.created + env.config.aging_seconds ≤ env.clock)
      ⊎ (env.config.reuse_dispatches ≤ s.reuse_count)
    → j ≡ k
pick-oldest env s [] j k e a o i h = absurd i
pick-oldest env s (r ∷ rest) j k e a o i h =
    let same_job : r ≡ k =
      sorted_unique (λ (x : Job). x.seq) r k (r ∷ rest) o (inl refl) i
        (omega (arith, a.0.1, head-least r k rest o i)) in
    elim (pick-cases env s r rest j e) [
      | inl u ↦ absurd (
          ground (
            arith,
            first-holds (λ (x : Job). x.urgent) (r ∷ rest) u,
            In-All (λ (x : Job). (x.urgent ≡ false) × (k.seq ≤ x.seq)) j (r ∷ rest)
                (first-In (λ (x : Job). x.urgent) j (r ∷ rest) u) a,
          ))
      | inr p ↦
          p.1
          ∙ fallback-head env s r rest (
              subst
                (λ (x : Job).
                  (x.created + env.config.aging_seconds ≤ env.clock)
                  ⊎ (env.config.reuse_dispatches ≤ s.reuse_count))
                (sym same_job) h)
          ∙ same_job
    ]

module _ (env : Env) (w : World) where
  -- What `choose` returned is the pick among the eligible rows of what it left.
  chosen :
      (o : Option Job)
      → (choose env w).0 ≡ ok o
      → pick env w.controller (eligible_rows (choose env w).1.db) ≡ o
  chosen o e = rw choose_lem (ground (arith, rw choose_lem at e))

  picked : (choose env w).0 ≡ ok (pick env w.controller (eligible_rows (choose env w).1.db))
  picked = rw choose_lem refl

  left : (choose env w).1.db ≡ refreshed env w
  left = rw choose_lem refl

-- A job that may be started: stored, queued, in time, and each job that it depends on has
-- succeeded and published its result.
pub record IsReady (now : ℕ) (d : Db) (j : Job) : Type 0 where
  pub stored : In j d.jobs
  pub queued : is_queued j.state ≡ true
  pub in_time : is_overdue now j ≡ false
  pub parents :
      (e : Dependency) (q : Job)
      → In e d.dependencies
      → In q d.jobs
      → e.job ≡ j.id
      → q.id ≡ e.parent
      → (is_succeeded q.state ≡ true) × (is_available q.result_state ≡ true)

unfinished_lem :
    (q : Job)
    → is_unfinished q ≡ false
    → (is_succeeded q.state ≡ true) × (is_available q.result_state ≡ true)
unfinished_lem q h = ground arith

no-unfinished :
    (d : Db) (j : Job)
    → has_parent is_unfinished d j ≡ false
    → (e : Dependency) (q : Job) → In e d.dependencies
    → In q d.jobs
    → e.job ≡ j.id
    → q.id ≡ e.parent
    → (is_succeeded q.state ≡ true) × (is_available q.result_state ≡ true)
unfolding has_parent
no-unfinished d j h e q in_e in_q job parent =
    let edge =
      not-exists
        (λ (x : Dependency).
          x.job == j.id && exists (λ p. p.id == x.parent && is_unfinished p) d.jobs)
        e d.dependencies h in_e in
    let none_left : exists (λ (p : Job). p.id == e.parent && is_unfinished p) d.jobs ≡ false =
      rw ((eq_iff e.job j.id).1 job) at edge in
    let done =
      not-exists (λ (p : Job). p.id == e.parent && is_unfinished p) q d.jobs none_left in_q in
    unfinished_lem q (rw ((eq_iff q.id e.parent).1 parent) at done)

eligible-parts :
    (d : Db) (j : Job)
    → is_eligible d j ≡ true
    → (is_queued j.state ≡ true) × (has_parent is_unfinished d j ≡ false)
unfolding is_eligible
eligible-parts d j h = ground arith

-- A job that choose returns may be started: it is stored, queued and in time, and every job that
-- it depends on has succeeded with its result published.
pub choose-IsReady :
    (env : Env) (w : World) (j : Job)
    → (choose env w).0 ≡ ok (some j)
    → IsReady env.clock (choose env w).1.db j
choose-IsReady env w j e =
    let d = (choose env w).1.db in
    let m = In-select (is_eligible d) j d.jobs (
      unfold eligible_rows in
      pick-In env w.controller (eligible_rows d) j (chosen env w (some j) e)) in
    let parts = eligible-parts d j m.1 in
    record {
      stored = m.0;
      queued = parts.0;
      in_time =
          In-All (λ k. is_overdue env.clock k ≡ false) j d.jobs m.0
            (rw left (refresh_queue-in_time env.clock w.db));
      parents = no-unfinished d j parts.1;
    }

-- The order of the choice, in a table ordered by seq: an eligible urgent job is never passed over
-- for one that is not urgent or that came later.
pub choose-urgent :
    (env : Env) (w : World) (j k : Job)
    → (choose env w).0 ≡ ok (some j)
    → IsSorted (λ (x : Job). x.seq) (choose env w).1.jobs
    → In k (eligible_rows (choose env w).1.db)
    → k.urgent ≡ true
    → (j.urgent ≡ true) × (j.seq ≤ k.seq)
choose-urgent env w j k e s i u =
    pick-urgent env w.controller (eligible_rows (choose env w).1.db) j k (chosen env w (some j) e)
      (unfold eligible_rows in IsSorted-select (λ x. x.seq) _ (choose env w).1.jobs s) i u

-- In a table ordered by seq, if no eligible job is urgent, choose returns the oldest eligible job k
-- once it has waited for aging_seconds, or once the loaded deployment was used for reuse_dispatches
-- dispatches in a row.
pub choose-oldest :
    (env : Env) (w : World) (k : Job)
    → All (λ (x : Job). (x.urgent ≡ false) × (k.seq ≤ x.seq)) (eligible_rows (choose env w).1.db)
    → IsSorted (λ (x : Job). x.seq) (choose env w).1.jobs
    → In k (eligible_rows (choose env w).1.db)
    → (k.created + env.config.aging_seconds ≤ env.clock)
      ⊎ (env.config.reuse_dispatches ≤ w.controller.reuse_count)
    → (choose env w).0 ≡ ok (some k)
choose-oldest env w k a s i h =
    let rows = eligible_rows (choose env w).1.db in
    elim (Option-cases (pick env w.controller rows)) [
      | inl e ↦ absurd (subst (In k) (pick-none env w.controller rows e) i)
      | inr (j, e) ↦
          picked env w
          ∙ ap ok e
          ∙ ap (λ (x : Job). ok (some x))
              (pick-oldest env w.controller rows j k e a
                (unfold eligible_rows in IsSorted-select (λ x. x.seq) _ (choose env w).1.jobs s) i
                h)
    ]

-- choose returns no job only if no job is eligible.
pub choose-none :
    (env : Env) (w : World) → (choose env w).0 ≡ ok none → eligible_rows (choose env w).1.db ≡ []
choose-none env w e = pick-none env w.controller _ (chosen env w none e)
