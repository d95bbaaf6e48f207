-- ===== src/Tasks.antt =====
-- internal/tasks: the three tasks of a node. A task's `run` is a parameter; a nil node makes it
-- succeed without doing anything.
use p2pos.Text.{codes}
use p2pos.Common.{false, if◌then◌else◌, Bool, ℕ}
use p2pos.Scheduler.{is_positive, succeeded, Task, Duration, Outcome, positive}

abbrev pub half_minute : Duration
half_minute = positive 30_000_000_000

-- NewUpdateCheckTask replaces an interval that is not positive by 3 minutes.
unfoldable pub update_check_interval : Duration → Duration
update_check_interval interval = if is_positive interval then interval else positive 180_000_000_000

-- Run of the tasks that call the node, BroadcastHeartbeat or SyncMembership
unfoldable pub node_run : Bool → (ℕ → Outcome) → ℕ → Outcome
node_run has_node call n = if has_node then call n else succeeded

unfoldable pub heartbeat_task : Bool → (ℕ → Outcome) → Task
heartbeat_task has_node broadcast = record {
  name = codes "heartbeat";
  interval = half_minute;
  run_on_start = false;
  run = node_run has_node broadcast;
}

unfoldable pub membership_sync_task : Bool → (ℕ → Outcome) → Task
membership_sync_task has_node sync = record {
  name = codes "membership-sync";
  interval = half_minute;
  run_on_start = false;
  run = node_run has_node sync;
}

unfoldable pub update_check_task : Duration → (ℕ → Outcome) → Task
update_check_task interval run_once = record {
  name = codes "update-check";
  interval = update_check_interval interval;
  run_on_start = false;
  run = run_once;
}
