-- ===== src/Scheduler/Registration.antt =====
-- Register and Start: what a scheduler may come to hold.
use p2pos.Scheduler.{is_positive, register, new, Scheduler, Task, start}
use p2pos.Common.{
  ◌∙◌, ap, Bool-cases, [], ◌++◌, ◌∷◌, ◌≡◌, Option, List, arith, All, length, refl, inr, inl, false,
  true, some, none,
}

-- Every registered task has an interval above zero, and no loop runs before the start.
pub record IsSane (s : Scheduler) : Type 0 where
  pub intervals : All (λ task. is_positive task.interval ≡ true) s.tasks
  pub idle : s.started ≡ false → s.loops ≡ 0
  pub all_running : s.started ≡ true → s.loops ≡ length s.tasks

pub data Call : Type 0 where
  registering : Option Task → Call
  starting : Call

unfoldable pub step : Call → Scheduler → Scheduler
step (registering task) s = (register task s).0
step starting s = (start s).0

unfoldable pub steps : List Call → Scheduler → Scheduler
steps [] s = s
steps (call ∷ calls) s = steps calls (step call s)

concat-intervals :
    (tasks : List Task) (task : Task)
    → All (λ t. is_positive t.interval ≡ true) tasks
    → is_positive task.interval ≡ true
    → All (λ t. is_positive t.interval ≡ true) (tasks ++ task ∷ [])
concat-intervals [] task h p = (p, tt)
concat-intervals (t ∷ tasks) task h p = (h.0, concat-intervals tasks task h.1 p)

register-IsSane : (task : Option Task) (s : Scheduler) → IsSane s → IsSane (register task s).0
unfolding register
register-IsSane none s h = h
register-IsSane (some task) s h = elim (Bool-cases s.started) [
  | inl q ↦ simp q (ground arith)
  | inr q ↦ elim (Bool-cases (is_positive task.interval)) [
    | inl p ↦
        simp (p, q)
          (record {
            intervals = concat-intervals s.tasks task h.intervals p;
            idle = λ e. h.idle q;
            all_running = λ e. absurd (cc);
          })
    | inr p ↦ simp p h
  ]
]

start-IsSane : (s : Scheduler) → IsSane s → IsSane (start s).0
unfolding start
start-IsSane s h = elim (Bool-cases s.started) [
  | inl q ↦ simp q h
  | inr q ↦ simp q (record {
    intervals = h.intervals;
    idle = λ e. absurd (cc);
    all_running = λ e. omega (arith, h.idle q);
  })
]

step-IsSane : (call : Call) (s : Scheduler) → IsSane s → IsSane (step call s)
unfolding step
step-IsSane (registering task) s h = register-IsSane task s h
step-IsSane starting s h = start-IsSane s h

steps-IsSane : (calls : List Call) (s : Scheduler) → IsSane s → IsSane (steps calls s)
unfolding steps
steps-IsSane [] s h = h
steps-IsSane (call ∷ calls) s h = steps-IsSane calls (step call s) (step-IsSane call s h)

-- However a scheduler is used, each of its tasks has a positive interval; before the start no loop
-- runs, and after it exactly one for each task.
pub reachable-IsSane : (calls : List Call) → IsSane (steps calls new)
unfolding new
reachable-IsSane calls = steps-IsSane calls _ (ground arith)

step_started : (call : Call) (s : Scheduler) → s.started ≡ true → step call s ≡ s
unfolding step register start
step_started (registering none) s h = refl
step_started (registering (some task)) s h = ground arith
step_started starting s h = ground arith

-- Once started, a scheduler never changes: later calls register nothing and start no loop.
pub steps_started : (calls : List Call) (s : Scheduler) → s.started ≡ true → steps calls s ≡ s
unfolding steps
steps_started [] s h = refl
steps_started (call ∷ calls) s h =
    ap (steps calls) (step_started call s h) ∙ steps_started calls s h
