-- ===== src/App/Run.antt =====
-- internal/app/app.go, and registerScheduledTasks of internal/app/runtime.go: the start of a node,
-- and what is undone at its end.
pub mod Order
use p2pos.Common.{
  [], ◌++◌, ◌∷◌, if◌then◌else◌, Result, Bool, List, ℕ, not, err, ok, false, true, some,
}
use p2pos.Scheduler.{positive, Scheduler, register, Error}
use p2pos.Scheduler
use p2pos.Tasks.{membership_sync_task, update_check_task, heartbeat_task}

-- registerScheduledTasks, on what the three tasks do when they run. StartBootstrap, which it calls
-- between them, is in Network/Bootstrap/Discovery.
unfoldable pub register_scheduled_tasks :
    (ℕ → Scheduler.Outcome)
    → (ℕ → Scheduler.Outcome)
    → (ℕ → Scheduler.Outcome)
    → Scheduler
    → Scheduler × Result Scheduler.Error (Unit {0})
register_scheduled_tasks check sync beat s =
    let (with_update, registered) =
      register (some (update_check_task (positive 180_000_000_000) check)) s in
    elim registered [
      | err e ↦ (with_update, err e)
      | ok _ ↦
          let (with_sync, synced) = register (some (membership_sync_task true sync)) with_update in
          elim synced [
            | err e ↦ (with_sync, err e)
            | ok _ ↦ register (some (heartbeat_task true beat)) with_sync
          ]
    ]

-- What Run does, step by step, and what its deferred calls do.
pub data Action : Type 0 where
  init_database init_config make_node log_addrs setup start_bridge start_services : Action
  register_tasks start_scheduler await_done wait_scheduler : Action
  stop_bridge cancel_context close_node : Action

-- Which of the steps that can fail succeed.
abbrev pub Fates : Type 0
Fates = Action → Bool

-- From the registration of the tasks on.
unfoldable pub run_tasks : Fates → List Action × Bool
run_tasks fates =
    if not (fates register_tasks)
    then (register_tasks ∷ [], false)
    else (register_tasks ∷ start_scheduler ∷ await_done ∷ wait_scheduler ∷ [], true)

-- From the context on: its deferred calls are the bridge's and the context's.
unfoldable pub run_context : Fates → List Action × Bool
run_context fates =
    let (done_tasks, fine) = run_tasks fates in
    (start_bridge ∷ start_services ∷ done_tasks ++ stop_bridge ∷ cancel_context ∷ [], fine)

-- From the node on, before its deferred call.
unfoldable pub run_node : Fates → List Action × Bool
run_node fates =
    if not (fates log_addrs)
    then (log_addrs ∷ [], false)
    else if not (fates setup)
    then (log_addrs ∷ setup ∷ [], false)
    else let (rest, fine) = run_context fates in (log_addrs ∷ setup ∷ rest, fine)

-- Run: its actions in their order, and whether it returns no error.
unfoldable pub run_app : Fates → List Action × Bool
run_app fates =
    if not (fates init_database)
    then (init_database ∷ [], false)
    else if not (fates init_config)
    then (init_database ∷ init_config ∷ [], false)
    else if not (fates make_node)
    then (init_database ∷ init_config ∷ make_node ∷ [], false)
    else let (rest, fine) = run_node fates in
      (init_database ∷ init_config ∷ make_node ∷ rest ++ close_node ∷ [], fine)
