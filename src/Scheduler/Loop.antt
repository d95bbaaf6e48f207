-- ===== src/Scheduler/Loop.antt =====
-- runTaskLoop: how often a task runs, and when its loop returns.
use p2pos.Common.{[], ◌+◌, ◌||◌, ◌∷◌, if◌then◌else◌, Bool, List, ℕ, not, false, true, suc, zero}
use p2pos.Scheduler.{goes_on, Signal, Task, timer, done}

-- The signals up to the first `done`.
unfoldable pub timers : List Signal → ℕ
timers [] = 0
timers (done ∷ signals) = 0
timers (timer ∷ signals) = suc (timers signals)

-- Whether one of the runs n, n + 1, … (k of them) reports that the task is completed.
unfoldable pub completes : Task → ℕ → ℕ → Bool
completes task n zero = false
completes task n (suc k) = not (goes_on (task.run n)) || completes task (n + 1) k

-- The number of those runs up to the first that reports it, itself included.
unfoldable pub until_completed : Task → ℕ → ℕ → ℕ
until_completed task n zero = 0
until_completed task n (suc k) =
    let rest = until_completed task (n + 1) k in if goes_on (task.run n) then suc rest else 1

abbrev pub cancels : List Signal → Bool
cancels [] = false
cancels (done ∷ signals) = true
cancels (timer ∷ signals) = cancels signals
