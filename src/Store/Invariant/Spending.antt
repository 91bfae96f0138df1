-- ===== src/Store/Invariant/Spending.antt =====
-- The lifetime budget and the budget windows in every history.
use selfhost_models.Prelude.{
  String, ℕ, ◌+◌, ◌≤◌, ◌≡◌, refl, sym, subst, Bool, true, false, not, ◌||◌, Option, none, some,
  List, [], ◌∷◌, is_some, ltb, leb, arith, Bool-cases, inl, inr, ◌==◌,
}
use selfhost_models.Sql.{select, first, count, exists, update, insert}
use selfhost_models.Sql.Laws.{All, All-insert, All-update}
use selfhost_models.Schema.Deployment.{Config}
use selfhost_models.Tables.{Window}
use selfhost_models.Store.Base.{World, Env}
use selfhost_models.Store.Budget.{
  window_allows, open_window, spend_load, window_taken, add_window, close_window,
}
use selfhost_models.Store.Dispatch.{spend_generation}
use selfhost_models.Store.Control.{fail_queued, lose_inflight, take_over, clear_leases}
use selfhost_models.Store.Queue.{cancel_update}
use selfhost_models.Store.Dispatch.{
  fail_job, add_attempt, add_lease, start_job, move_attempt, doubt_leases, release_lease,
  detach_lease, doubt_orphaned,
}
use selfhost_models.Store.Submission.{add_job, add_dependency}
use selfhost_models.Store.Receipts.{
  add_receipt, record_terminal, mark_available, mark_storage_failed, release_granted,
}
use selfhost_models.Store.Steps.{Reach}
use selfhost_models.Store.Steps.Rules.{Rules, Core, core, on}
use selfhost_models.Store.Steps.Histories.{Reach-holds}
use selfhost_models.Store.Invariant.Frames.{Kept, core-refresh, core-remove, core-unlink}

-- a window that is open
abbrev pub is_open : Window → Bool
is_open v = not (is_some v.closed)

-- The window's allowance covers what was spent since it was opened.
abbrev pub Covers : ℕ → ℕ → Window → Type 0
Covers loads generations v =
    (loads ≤ v.max_loads + v.start_loads) × (generations ≤ v.max_generations + v.start_generations)

-- The budget's totals are within the configured maxima, at most one window is open, and what was
-- spent in it is within its allowance.
pub record Within (config : Config) (loads generations : ℕ) (windows : List Window) : Type 0 where
  pub loads_ok : loads ≤ config.max_load_attempts
  pub generations_ok : generations ≤ config.max_generation_attempts
  pub single : count is_open windows ≤ 1
  pub covered : All (λ v. is_open v ≡ true → Covers loads generations v) windows

abbrev pub IsWithin : Config → Core → Type 0
IsWithin config c = Within config c.loads c.generations c.windows

module _ (P : Window → Type 0) where
  none-open : (ws : List Window) → count is_open ws ≡ 0 → All (λ v. is_open v ≡ true → P v) ws
  unfolding count select
  none-open [] e = tt
  none-open (v ∷ ws) e = elim (Bool-cases (is_open v)) [
    | inl h ↦ absurd (ground arith)
    | inr h ↦ ((λ k. absurd (ground arith)), none-open ws (ground arith))
  ]

  -- With one open window, what holds of the first holds of all.
  pub one-open :
      (ws : List Window)
      → count is_open ws ≤ 1
      → ((v : Window) → first is_open ws ≡ some v → P v)
      → All (λ v. is_open v ≡ true → P v) ws
  unfolding count select first
  one-open [] c h = tt
  one-open (v ∷ ws) c h = elim (Bool-cases (is_open v)) [
    | inl e ↦ ((λ k. h v (rw e refl)), none-open ws (ground arith))
    | inr e ↦ ((λ k. absurd (ground arith)), one-open ws (ground arith) (λ x q. h x (rw e q)))
  ]

pub count-closed :
    (p : Window → Bool) (f : Window → Window)
    → ((v : Window) → is_open (f v) ≡ false)
    → (ws : List Window) → count is_open (update p f ws) ≤ count is_open ws
unfolding count select update
count-closed p f h [] = omega arith
count-closed p f h (v ∷ ws) = elim (Bool-cases (p v)) [
  | inl e ↦ rw e (ground (arith, count-closed p f h ws, h v))
  | inr e ↦ rw e (ground (arith, count-closed p f h ws))
]

pub count-opened :
    (v : Window) (ws : List Window) → exists is_open ws ≡ false → count is_open (insert v ws) ≤ 1
unfolding count select insert exists
count-opened v [] e = ground arith
count-opened v (w ∷ ws) e = ground (arith, count-opened v ws)

pub window-Covers :
    (l g : ℕ) (s : World)
    → window_allows l g s ≡ true
    → (v : Window) → first is_open s.windows ≡ some v
    → Covers (s.loads + l) (s.generations + g) v
unfolding window_allows open_window
window-Covers l g s w v e = ground (arith, room)
  where
    room :
        not (
          ltb (v.max_loads + v.start_loads) (s.loads + l)
          || ltb (v.max_generations + v.start_generations) (s.generations + g))
        ≡ true
    room =
        subst
          (λ (o : Option Window).
            (elim o [
              | none ↦ true
              | some x ↦ not (
                  ltb (x.max_loads + x.start_loads) (s.loads + l)
                  || ltb (x.max_generations + x.start_generations) (s.generations + g))
            ])
            ≡ true)
          e w

module _ (env : Env) where
  spend_load-IsWithin :
      (s : World) (n : ℕ)
      → leb env.config.max_load_attempts s.loads ≡ false
      → ltb env.config.max_generation_attempts (s.generations + n) ≡ false
      → window_allows 1 n s ≡ true
      → IsWithin env.config (core s)
      → IsWithin env.config (core (on s (spend_load n)))
  unfolding spend_load window_allows open_window
  spend_load-IsWithin s n a b w h = record {
    loads_ok = ground arith;
    generations_ok = ground arith;
    single = h.single;
    covered =
        one-open (Covers (s.loads + 1) (s.generations + n)) s.windows h.single
          (window-Covers 1 n s w);
  }

  spend_generation-IsWithin :
      (s : World)
      → leb env.config.max_generation_attempts s.generations ≡ false
      → window_allows 0 1 s ≡ true
      → IsWithin env.config (core s)
      → IsWithin env.config (core (on s spend_generation))
  unfolding spend_generation window_allows open_window
  spend_generation-IsWithin s b w h = record {
    loads_ok = h.loads_ok;
    generations_ok = ground arith;
    single = h.single;
    covered =
        one-open (Covers s.loads (s.generations + 1)) s.windows h.single
          (λ v e. ground (arith, window-Covers 0 1 s w v e));
  }

  open-free :
      (name : String) (ws : List Window)
      → exists (λ (v : Window). not (is_some v.closed) || v.name == name) ws ≡ false
      → exists is_open ws ≡ false
  unfolding exists
  open-free name [] e = refl
  open-free name (v ∷ ws) e = ground (arith, open-free name ws)

  add_window-IsWithin :
      (s : World) (name : String) (l g : ℕ)
      → window_taken name s ≡ false
      → IsWithin env.config (core s)
      → IsWithin env.config (core (on s (add_window env name l g)))
  unfolding add_window window_taken
  add_window-IsWithin s name l g t h = record {
    loads_ok = h.loads_ok;
    generations_ok = h.generations_ok;
    single = count-opened _ s.windows (open-free name s.windows t);
    covered = All-insert _ _ s.windows (λ e. (omega arith, omega arith)) h.covered;
  }

  close_window-IsWithin :
      (s : World) (name : String)
      → IsWithin env.config (core s)
      → IsWithin env.config (core (on s (close_window env name)))
  unfolding close_window
  close_window-IsWithin s name h = record {
    loads_ok = h.loads_ok;
    generations_ok = h.generations_ok;
    single = ground (
      arith,
      count-closed (λ v. v.name == name)
          (λ v. record v {
            closed = some env.clock;
            end_loads = some s.loads;
            end_generations = some s.generations;
          })
          (λ v. refl) s.windows,
      h.single,
    );
    covered = All-update _ _ _ s.windows (λ v e k q. absurd (ground arith)) h.covered;
  }

pub spending_rules : (env : Env) → Rules env (Kept (IsWithin env.config))
unfolding fail_queued lose_inflight take_over clear_leases cancel_update fail_job add_attempt
    add_lease start_job move_attempt doubt_leases release_lease detach_lease doubt_orphaned
    release_granted add_job add_dependency add_receipt record_terminal mark_available
    mark_storage_failed
spending_rules env = record {
  order = record { same = λ s h. h; step = λ s t u f g h. g (f h) };
  rollback = λ s t f h. h;
  quiet = λ s t e h. subst (IsWithin env.config) (sym e) h;
  fail_queued_rule = λ s e p h. h;
  lose_inflight_rule = λ s e h. h;
  take_over_rule = λ s n p h. h;
  clear_leases_rule = λ s h. h;
  spend_load_rule = λ s n a b w h. spend_load-IsWithin env s n a b w h;
  spend_generation_rule = λ s b w h. spend_generation-IsWithin env s b w h;
  add_window_rule = λ s name l g t h. add_window-IsWithin env s name l g t h;
  close_window_rule = λ s name h. close_window-IsWithin env s name h;
  refresh_queue_rule = λ s h. subst (IsWithin env.config) (sym (core-refresh env.clock s)) h;
  cancel_rule = λ s j h. h;
  fail_job_rule = λ s e j h. h;
  add_attempt_rule = λ s a e h. h;
  add_lease_rule = λ s l r e i c h. h;
  start_job_rule = λ s a j h. h;
  move_attempt_rule = λ s a to e h. h;
  doubt_leases_rule = λ s p w h. h;
  release_lease_rule = λ s r e o h. h;
  detach_lease_rule = λ s r o h. h;
  doubt_orphaned_rule = λ s o h. h;
  release_granted_rule = λ s a g h. h;
  add_job_rule = λ s j q e r c h. h;
  add_dependency_rule = λ s j p h. h;
  add_receipt_rule = λ s r e h. h;
  record_terminal_rule = λ s a j r h. h;
  mark_available_rule = λ s r j n h. h;
  mark_storage_failed_rule = λ s a h. h;
  remove_job_rule = λ s j h. subst (IsWithin env.config) (sym (core-remove j s)) h;
  unlink_rule = λ s g h. subst (IsWithin env.config) (sym (core-unlink g s)) h;
}

-- In every history of calls, in any order and with any failures in between, the totals of loads
-- and generations stay within the configured maxima, at most one budget window is open, and what
-- was spent since it was opened stays within its allowance, when this was so at the start.
pub spending-IsWithin :
    (config : Config) (s t : World)
    → IsWithin config (core s)
    → Reach config s t
    → IsWithin config (core t)
spending-IsWithin config s t h r =
    Reach-holds (record { same = λ s h. h; step = λ s t u f g h. g (f h) })
      (λ env e. subst (λ c. Rules env (Kept (IsWithin c))) e (spending_rules env)) r h
