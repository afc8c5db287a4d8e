-- ===== src/Stealer/Steal.antt =====
-- core/src/work_stealer.ts: `attemptSteal`, over the task store. `now` is the argument of the call and
-- `db_now` the clock that the store reads.
use swarm_x.Common.{
  ℕ, ◌+◌, Bool, true, false, Option, none, some, List, [], ◌∷◌, ◌==◌, ◌&&◌, not, if◌then◌else◌,
}
use swarm_x.Common.Sorting.Descending.{sort_down}
use swarm_x.Common.Dict.{Dict, set}
use swarm_x.Task.{Ident, Task}
use swarm_x.Store.Table.{Table, default_lease_duration_ms}
use swarm_x.Store.Ops.{StealOutcome, steal_task, stolen_task, steal_collision}
use swarm_x.Stealer.{
  WorkStealer, InFlightTaskTracking, StealResult, StealReason, is_disabled, nothing_straggles,
  stole, store_refused,
}
use swarm_x.Stealer.Detector.{is_task_straggling}

pub record StragglerCandidate : Type 0 where
  pub task_id : Ident
  pub tracking : InFlightTaskTracking
  pub elapsed_ms : ℕ

abbrev pub not_stolen : Option Ident → StealReason → StealResult
not_stolen id why = record {
  stolen = false;
  task_id = id;
  victim_worker_id = none;
  thief_worker_id = none;
  reason = why;
  task = none;
}

abbrev pub did_steal : StragglerCandidate → Ident → Task → StealResult
did_steal target thief task = record {
  stolen = true;
  task_id = some target.task_id;
  victim_worker_id = some target.tracking.worker_id;
  thief_worker_id = some thief;
  reason = stole target.task_id target.tracking.worker_id;
  task = some task;
}

-- The count, and the tracking with the thief as the owner.
abbrev pub take_over : WorkStealer → StragglerCandidate → Ident → ℕ → WorkStealer
take_over s target thief now = record s {
  total_steals_count = s.total_steals_count + 1;
  in_flight_tasks =
      set target.task_id
        (record {
          task_id = target.task_id;
          worker_id = thief;
          start_time_ms = now;
          expected_duration_ms = target.tracking.expected_duration_ms;
        })
        s.in_flight_tasks;
}

-- What follows the transition in the store. A success without a task has no reason and counts as a
-- collision.
unfoldable pub after_steal :
    WorkStealer → StragglerCandidate → Ident → ℕ → StealOutcome → WorkStealer × StealResult
after_steal s target thief now (stolen_task (some task)) =
    (take_over s target thief now, did_steal target thief task)
after_steal s target thief now (stolen_task none) =
    (s, not_stolen (some target.task_id) (store_refused steal_collision))
after_steal s target thief now refused =
    (s, not_stolen (some target.task_id) (store_refused refused))

abbrev pub by_elapsed : StragglerCandidate → ℕ
by_elapsed c = c.elapsed_ms

module _ (mean : ℕ → ℕ → ℕ) where
  abbrev pub can_steal : WorkStealer → Ident → ℕ → Ident → InFlightTaskTracking → Bool
  can_steal s thief now task tracking =
      not (tracking.worker_id == thief) && (is_task_straggling mean s task now).is_straggler

  -- The loop over the entries of `inFlightTasks`.
  unfoldable pub straggler_candidates :
      WorkStealer → Ident → ℕ → Dict InFlightTaskTracking → List StragglerCandidate
  straggler_candidates s thief now [] = []
  straggler_candidates s thief now ((task, tracking) ∷ entries) =
      let rest = straggler_candidates s thief now entries in
      if can_steal s thief now task tracking
      then record {
        task_id = task;
        tracking = tracking;
        elapsed_ms = (is_task_straggling mean s task now).elapsed_ms;
      }
        ∷ rest
      else rest

  -- From the sorted candidates on.
  unfoldable pub steal_first :
      WorkStealer
      → Ident
      → Table
      → ℕ
      → ℕ
      → List StragglerCandidate
      → (WorkStealer × Table) × StealResult
  steal_first s thief t now db_now [] = ((s, t), not_stolen none nothing_straggles)
  steal_first s thief t now db_now (target ∷ others) =
      let (t', outcome) = steal_task t target.task_id thief default_lease_duration_ms db_now in
      let (s', result) = after_steal s target thief now outcome in ((s', t'), result)

  unfoldable pub attempt_steal :
      WorkStealer → Ident → Table → ℕ → ℕ → (WorkStealer × Table) × StealResult
  attempt_steal s thief t now db_now =
      if s.config.enable_work_stealing
      then steal_first s thief t now db_now
          (sort_down by_elapsed (straggler_candidates s thief now s.in_flight_tasks))
      else ((s, t), not_stolen none is_disabled)
