-- ===== src/Stealer/Detector.antt =====
-- core/src/work_stealer.ts: the records of durations, and the test for a straggler. `ema alpha
-- duration previous` is the moving average, `mean` half the sum of two numbers.
use swarm_x.Common.{
  number_or, ℕ, ◌+◌, ◌-◌, ◌*◌, ◌/◌, ◌%◌, min, max, Bool, false, ◌||◌, Option, none, some, List,
  ◌==◌, ltb, leb, if◌then◌else◌, length, get_elem?, select,
}
use swarm_x.Common.Sorting.{sort_by}
use swarm_x.Common.Dict.{get, set, delete, values}
use swarm_x.Task.{Ident}
use swarm_x.Stealer.{WorkStealer, InFlightTaskTracking}

unfoldable pub record_task_start : WorkStealer → Ident → Ident → ℕ → ℕ → WorkStealer
record_task_start s task worker expected now = record s {
  in_flight_tasks =
      set task
        (record {
          task_id = task;
          worker_id = worker;
          start_time_ms = now;
          expected_duration_ms = expected;
        })
        s.in_flight_tasks;
}

abbrev pub average : (ℕ → ℕ → ℕ → ℕ) → ℕ → ℕ → Option ℕ → ℕ
average ema alpha duration none = duration
average ema alpha duration (some prev) = ema alpha duration prev

unfoldable pub record_task_completion :
    (ℕ → ℕ → ℕ → ℕ) → WorkStealer → Ident → Ident → ℕ → WorkStealer
record_task_completion ema s task worker duration = record s {
  in_flight_tasks = delete task s.in_flight_tasks;
  worker_observation_count =
      set worker (number_or (get worker s.worker_observation_count) 0 + 1)
        s.worker_observation_count;
  worker_avg_duration_ms =
      set worker
        (average ema s.config.straggler_ema_alpha duration (get worker s.worker_avg_duration_ms))
        s.worker_avg_duration_ms;
}

unfoldable pub record_task_failure : WorkStealer → Ident → WorkStealer
record_task_failure s task = record s { in_flight_tasks = delete task s.in_flight_tasks }

-- An index that is in bounds where it is used.
abbrev pub item_at : List ℕ → ℕ → ℕ
item_at vs i = elim (get_elem? vs i) [ none ↦ 0 | some v ↦ v ]

unfoldable pub median : (ℕ → ℕ → ℕ) → ℕ → List ℕ → ℕ
median mean missing vs =
    let mid = length vs / 2 in
    if length vs == 0
    then missing
    else if length vs % 2 == 0
    then mean (item_at vs (mid - 1)) (item_at vs mid)
    else item_at vs mid

unfoldable pub get_cluster_median_duration_ms : (ℕ → ℕ → ℕ) → WorkStealer → ℕ
get_cluster_median_duration_ms mean s =
    median mean s.config.min_duration_ms_threshold
      (sort_by (λ v. v) (select (λ v. ltb 0 v) (values s.worker_avg_duration_ms)))

-- The answer of the test, less the text of its reason. A clock that went back gives a negative
-- duration in the code, which is below the minimum: it is 0 here.
pub record Straggling : Type 0 where
  pub is_straggler : Bool
  pub elapsed_ms : ℕ

module _ (mean : ℕ → ℕ → ℕ) (s : WorkStealer) where
  abbrev pub baseline : InFlightTaskTracking → ℕ
  baseline tracking = max s.config.min_duration_ms_threshold (
      min
        (number_or (get tracking.worker_id s.worker_avg_duration_ms) tracking.expected_duration_ms)
        (get_cluster_median_duration_ms mean s))

  -- The multiplier is in hundredths.
  abbrev pub is_late : InFlightTaskTracking → ℕ → Bool
  is_late tracking now =
      let elapsed = now - tracking.start_time_ms in
      if ltb now tracking.start_time_ms || ltb elapsed s.config.min_duration_ms_threshold
      then false
      else leb (baseline tracking * s.config.detection_threshold_multiplier) (elapsed * 100)

  unfoldable pub is_task_straggling : Ident → ℕ → Straggling
  is_task_straggling task now = elim (get task s.in_flight_tasks) [
    | none ↦ record { is_straggler = false; elapsed_ms = 0 }
    | some tracking ↦ record {
      is_straggler = is_late tracking now;
      elapsed_ms = now - tracking.start_time_ms;
    }
  ]
