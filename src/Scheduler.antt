-- ===== src/Scheduler.antt =====
-- internal/scheduler/scheduler.go: the registration of tasks, and the loop that runs one.
pub mod Registration
pub mod Loop
use p2pos.Text.{Text}
use p2pos.Common.{
  [], ◌+◌, ◌++◌, ◌∷◌, if◌then◌else◌, Result, Bool, Option, List, ℕ, not, ltb, length, err, ok,
  false, true, some, none,
}

-- A duration of the source, in nanoseconds; only its sign is looked at.
pub data Duration : Type 0 where
  positive : ℕ → Duration
  not_positive : ℕ → Duration

-- What a task's Run returns: nil, ErrTaskCompleted, or another error.
pub data Outcome : Type 0 where
  succeeded : Outcome
  completed : Outcome
  failed : Outcome

-- `run n` is the outcome of the task's run number n.
pub record Task : Type 0 where
  pub name : Text
  pub interval : Duration
  pub run_on_start : Bool
  pub run : ℕ → Outcome

pub data Error : Type 0 where
  task_nil : Error
  invalid_interval : Text → Error
  already_started : Text → Error

-- `loops` counts the wait group: the loops that are started.
pub record Scheduler : Type 0 where
  pub tasks : List Task
  pub started : Bool
  pub loops : ℕ

unfoldable pub new : Scheduler
new = record { tasks = []; started = false; loops = 0 }

abbrev pub is_positive : Duration → Bool
is_positive (positive n) = ltb 0 n
is_positive (not_positive n) = false

-- A missing task is the nil of the source.
unfoldable pub register : Option Task → Scheduler → Scheduler × Result Error (Unit {0})
register none s = (s, err task_nil)
register (some task) s =
    if not (is_positive task.interval)
    then (s, err (invalid_interval task.name))
    else if s.started
    then (s, err (already_started task.name))
    else (record s { tasks = s.tasks ++ task ∷ [] }, ok tt)

-- The second result lists the tasks whose loops this call starts, in order.
unfoldable pub start : Scheduler → Scheduler × List Task
start s =
    if s.started
    then (s, [])
    else (record s { started = true; loops = s.loops + length s.tasks }, s.tasks)

-- What wakes the loop: the timer, or the end of the context.
pub data Signal : Type 0 where
  timer : Signal
  done : Signal

-- `run()`: whether the loop goes on.
abbrev pub goes_on : Outcome → Bool
goes_on succeeded = true
goes_on completed = false
goes_on failed = true

-- The state of a loop: how often the task has run, and whether the loop has returned.
pub record LoopState : Type 0 where
  pub runs : ℕ
  pub returned : Bool

-- One pass of `for`, on the signal that `select` takes.
unfoldable pub pass : Task → Signal → LoopState → LoopState
pass task done s = record s { returned = true }
pass task timer s = record { runs = s.runs + 1; returned = not (goes_on (task.run s.runs)) }

unfoldable pub passes : Task → List Signal → LoopState → LoopState
passes task [] s = s
passes task (signal ∷ signals) s =
    passes task signals (if s.returned then s else pass task signal s)

-- runTaskLoop on the signals that arrive; `cancelled` is `ctx.Err() != nil` at its start.
unfoldable pub run_task_loop : Task → Bool → List Signal → LoopState
run_task_loop task cancelled signals =
    if cancelled
    then record { runs = 0; returned = true }
    else passes task signals (record { runs = 1; returned = not (goes_on (task.run 0)) })
