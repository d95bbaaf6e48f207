-- ===== src/App/Run/Order.antt =====
-- The end of a run: what has been made is undone on every path.
use p2pos.Text.{codes}
use p2pos.Tasks.{update_check_interval, heartbeat_task, membership_sync_task, update_check_task}
use p2pos.Scheduler.{Outcome, new, register}
use p2pos.Common.{map, Bool-cases, [], ◌&&◌, ◌++◌, ◌∷◌, ◌≡◌, List, ℕ, ok, refl, inr, inl, true}
use p2pos.App.Run.{
  run_app, run_node, run_tasks, run_context, register_scheduled_tasks, cancel_context,
  register_tasks, await_done, close_node, setup, make_node, init_config, start_services,
  init_database, start_scheduler, start_bridge, wait_scheduler, stop_bridge, log_addrs, Action,
  Fates,
}

run_context_parts :
    (fates : Fates)
    → (middle : List Action) × ((run_context fates).0
        ≡ start_bridge ∷ middle ++ stop_bridge ∷ cancel_context ∷ [])
      × ((run_context fates).1 ≡ fates register_tasks)
unfolding run_context run_tasks
run_context_parts fates = elim (Bool-cases (fates register_tasks)) [
  | inl h ↦
      simp (run_context, run_tasks, h)
        (
          start_services ∷ register_tasks ∷ start_scheduler ∷ await_done ∷ wait_scheduler ∷ [],
          refl,
          refl,
        )
  | inr h ↦ simp (run_context, run_tasks, h) (start_services ∷ register_tasks ∷ [], refl, refl)
]

-- A node that has been made is closed last, whatever fails after it.
pub run_app-close_node :
    (fates : Fates)
    → fates init_database ≡ true
    → fates init_config ≡ true
    → fates make_node ≡ true
    → (opened : List Action) × ((run_app fates).0 ≡ opened ++ close_node ∷ [])
      × ((run_app fates).1 ≡ (fates log_addrs && fates setup && fates register_tasks))
unfolding run_app run_node
run_app-close_node fates d c n =
    let (_, _, fine) = run_context_parts fates in
    elim (Bool-cases (fates log_addrs)) [
      | inr l ↦
          simp (run_app, run_node, d, c, n, l)
            (init_database ∷ init_config ∷ make_node ∷ log_addrs ∷ [], refl, refl)
      | inl l ↦ elim (Bool-cases (fates setup)) [
        | inr s ↦
            simp (run_app, run_node, d, c, n, l, s)
              (init_database ∷ init_config ∷ make_node ∷ log_addrs ∷ setup ∷ [], refl, refl)
        | inl s ↦
            simp (run_app, run_node, d, c, n, l, s)
              (
                init_database ∷ init_config ∷ make_node ∷ log_addrs ∷ setup ∷ (run_context fates).0,
                refl,
                fine,
              )
      ]
    ]

-- On a new scheduler the three tasks are registered, in this order, and no registration fails.
register_scheduled_tasks-new :
    (check sync beat : ℕ → Outcome)
    → ((register_scheduled_tasks check sync beat new).1 ≡ ok tt)
      × (map (λ t. t.name) (register_scheduled_tasks check sync beat new).0.tasks
          ≡ codes "update-check" ∷ codes "membership-sync" ∷ codes "heartbeat" ∷ [])
unfolding register_scheduled_tasks register update_check_task membership_sync_task heartbeat_task
    update_check_interval new
register_scheduled_tasks-new check sync beat = (refl, refl)
