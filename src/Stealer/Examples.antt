-- ===== src/Stealer/Examples.antt =====
-- Tests of the detection and of the steal on three tasks, and the theorems applied to them.
use swarm_x.Common.{
  ◌⊎◌, if◌then◌else◌, ℕ, ◌+◌, ◌-◌, ◌*◌, ◌/◌, ◌≤◌, true, false, Option, none, some, [], ◌∷◌, ◌≡◌,
  refl,
}
use swarm_x.Task.{Ident, Task, TaskStatus}
use swarm_x.Store.Table.{Table}
use swarm_x.Store.Ops.{steal_task}
use swarm_x.Stealer.{WorkStealer, PartialConfig, StealResult, new_work_stealer, merged}
use swarm_x.Stealer.Detector.{
  record_task_start, record_task_completion, is_task_straggling, get_cluster_median_duration_ms,
  median,
}
use swarm_x.Stealer.Steal.{attempt_steal, steal_first, after_steal, straggler_candidates}
use swarm_x.Common.Sorting.Descending.{sort_down}
use swarm_x.Common.Sorting.{sort_by}
use swarm_x.Stealer.Attempts.{Attempts}
use swarm_x.Stealer.Steals.{attempt_steal-Attempts}
use swarm_x.Stealer.Bounds.{attempt_steal-attempt_steal, attempt_steal-not_stolen}
use swarm_x.Store.Table.{get_task, map_row_to_task}

abbrev row : Ident → TaskStatus → Option Ident → Task
row id status worker = record {
  id = id;
  input_ref = 0;
  computation_descriptor = 90;
  required_resources = record {
    min_cpu_cores = none;
    min_ram_mb = none;
    requires_gpu = false;
    min_battery_level = none;
  };
  dependencies = [];
  execution_constraints = [];
  result_destination = 0;
  retry_count = 0;
  attempt_history = [];
  status = status;
  assigned_worker_id = worker;
  lease_expires_at_ms = none;
  created_at_ms = 1;
  updated_at_ms = 2;
}

-- Task 2 is no longer in flight.
abbrev table : Table
table =
    row 1 TaskStatus.running (some 7)
    ∷ row 2 TaskStatus.pending none
    ∷ row 3 TaskStatus.running (some 8)
    ∷ []

abbrev half_sum : ℕ → ℕ → ℕ
half_sum a b = (a + b) / 2

abbrev weighted : ℕ → ℕ → ℕ → ℕ
weighted alpha duration prev = (alpha * duration + (100 - alpha) * prev) / 100

abbrev no_changes : PartialConfig
no_changes = record {
  detection_threshold_multiplier = none;
  min_observations_before_declaration = none;
  min_duration_ms_threshold = none;
  straggler_ema_alpha = none;
  enable_work_stealing = none;
}

abbrev alone : WorkStealer
alone = record_task_start (new_work_stealer no_changes) 3 8 100 100

abbrev stealer : WorkStealer
stealer = record_task_start alone 1 7 100 500

-- The median of an even number of averages, and of an odd one.
median_of_two : median half_sum 50 (100 ∷ 300 ∷ []) ≡ 200
unfolding median
median_of_two = refl

median_of_three : median half_sum 50 (100 ∷ 300 ∷ 900 ∷ []) ≡ 300
unfolding median
median_of_three = refl

abbrev two_done : WorkStealer
two_done = record_task_completion weighted (record_task_completion weighted stealer 1 7 100) 3 7 200

averages : two_done.worker_avg_duration_ms ≡ (7, 120) ∷ []
unfolding record_task_completion record_task_start merged
averages = refl

-- The bound is 2.5 times 50 ms where no durations are known.
straggles_at_625 : (is_task_straggling half_sum stealer 1 625).is_straggler ≡ true
unfolding is_task_straggling get_cluster_median_duration_ms median sort_by record_task_start merged
straggles_at_625 = refl

rests_at_624 : (is_task_straggling half_sum stealer 1 624).is_straggler ≡ false
unfolding is_task_straggling get_cluster_median_duration_ms median sort_by record_task_start merged
rests_at_624 = refl

abbrev first_steal : (WorkStealer × Table) × StealResult
first_steal = attempt_steal half_sum stealer 9 table 1000 1001

steals_longest : first_steal.1.task_id ≡ some 3
unfolding attempt_steal steal_first after_steal straggler_candidates sort_down is_task_straggling
    steal_task get_cluster_median_duration_ms median sort_by record_task_start merged get_task
    map_row_to_task
steals_longest = refl

attempt_steal-Attempts_example :
    Attempts half_sum stealer 9 table 1000 1001 (attempt_steal half_sum stealer 9 table 1000 1001)
attempt_steal-Attempts_example = attempt_steal-Attempts half_sum stealer 9 table 1000 1001

-- The task that worker 9 stole is stolen again by worker 10 a second later.
attempt_steal-attempt_steal_example : 1000 + 50 ≤ 2000
unfolding attempt_steal steal_first after_steal straggler_candidates sort_down is_task_straggling
    steal_task get_cluster_median_duration_ms median sort_by record_task_start merged get_task
    map_row_to_task
attempt_steal-attempt_steal_example =
    attempt_steal-attempt_steal half_sum alone 9 10 3 table 1000 1001 2000 2001 refl refl refl refl

abbrev blocked : WorkStealer
blocked = record_task_start stealer 2 6 100 50

-- Task 2 waits in the store, but its entry has the longest time: tasks 1 and 3 are not stolen.
attempt_steal-not_stolen_example :
    let r = attempt_steal half_sum blocked 9 table 1000 1001 in
    (r.0.0.total_steals_count ≡ blocked.total_steals_count + (if r.1.stolen then 1 else 0))
    × ((r.1.stolen ≡ true)
        ⊎ ((r.0 ≡ (blocked, table)) × (attempt_steal half_sum r.0.0 9 r.0.1 1000 1001 ≡ r)))
attempt_steal-not_stolen_example = attempt_steal-not_stolen half_sum blocked 9 table 1000 1001

steals_none : (attempt_steal half_sum blocked 9 table 1000 1001).1.stolen ≡ false
unfolding attempt_steal steal_first after_steal straggler_candidates sort_down is_task_straggling
    steal_task get_cluster_median_duration_ms median sort_by record_task_start merged get_task
    map_row_to_task
steals_none = refl
