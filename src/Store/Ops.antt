-- ===== src/Store/Ops.antt =====
-- core/src/db/task_store.ts: the operations of `TaskStore` on one task. The clock is the argument
-- `now`. A transaction that throws gives no new table: the old one stays.
use swarm_x.Common.{
  ℕ, ◌+◌, Bool, false, ◌&&◌, not, Option, none, some, List, [], ◌∷◌, ◌++◌, ◌==◌, ltb, if◌then◌else◌,
  ok, ◌>>=◌, ◌>>◌, throw_if,
}
use swarm_x.Task.{
  Ident, Text, Task, TaskAttempt, TaskStatus, Reason, Details, is_pending, is_assigned,
  is_in_flight, is_terminal, or_default, blank, stolen, work_stolen_by_scheduler,
}
use swarm_x.Store.Table.{
  Table, Outcome, cannot_assign, cannot_start, cannot_complete, cannot_fail, cannot_abandon,
  dependencies_not_satisfied, collision, get_task, update_where, count_where,
  are_dependencies_satisfied, task_or_throw,
}

abbrev pub set_assigned : Ident → ℕ → ℕ → Task → Task
set_assigned worker lease now row = record row {
  status = TaskStatus.assigned;
  assigned_worker_id = some worker;
  lease_expires_at_ms = some lease;
  updated_at_ms = now;
}

unfoldable pub assign_task : Table → Ident → Ident → ℕ → ℕ → Outcome
unfolding task_or_throw are_dependencies_satisfied
assign_task t id worker lease_ms now = do
  task ← task_or_throw t id
  throw_if (not (is_pending task.status)) (cannot_assign task.status)
  throw_if (not (are_dependencies_satisfied t id)) (dependencies_not_satisfied id)
  let here = λ (row : Task). row.id == id && is_pending row.status
  throw_if (count_where here t == 0) (collision id)
  let t' = update_where here (set_assigned worker (now + lease_ms) now) t
  ok (t', get_task t' id)

abbrev pub set_running : ℕ → ℕ → Task → Task
set_running lease now row = record row {
  status = TaskStatus.running;
  lease_expires_at_ms = some lease;
  updated_at_ms = now;
}

unfoldable pub start_task : Table → Ident → ℕ → ℕ → Outcome
unfolding task_or_throw
start_task t id lease_ms now = do
  task ← task_or_throw t id
  throw_if (not (is_assigned task.status)) (cannot_start task.status)
  let here = λ (row : Task). row.id == id && is_assigned row.status
  throw_if (count_where here t == 0) (collision id)
  let t' = update_where here (set_running (now + lease_ms) now) t
  ok (t', get_task t' id)

-- A new entry at the end of `attempt_history`, made from the task as it was read.
abbrev pub log_attempt : Task → ℕ → Option Ident → Reason → Details → List TaskAttempt
log_attempt task now worker why details =
    task.attempt_history
    ++ record {
      timestamp_ms = now;
      worker_id = worker;
      previous_status = task.status;
      reason = why;
      details = details;
    }
      ∷ []

-- The three shapes of `{ success, task?, reason? }` that `stealTask` returns.
pub data StealOutcome : Type 0 where
  stolen_task : Option Task → StealOutcome
  steal_not_found steal_collision : StealOutcome
  not_in_flight : TaskStatus → StealOutcome

abbrev pub set_stolen : Task → Ident → ℕ → ℕ → Task → Task
set_stolen task thief lease now row = record row {
  status = TaskStatus.assigned;
  assigned_worker_id = some thief;
  retry_count = task.retry_count + 1;
  attempt_history =
      log_attempt task now task.assigned_worker_id work_stolen_by_scheduler
        (stolen thief (task.retry_count + 1) (task.retry_count + 1 + 1));
  lease_expires_at_ms = some lease;
  updated_at_ms = now;
}

-- The source reads the task, tests its status, and writes where the status still fits.
unfoldable pub steal_task : Table → Ident → Ident → ℕ → ℕ → Table × StealOutcome
steal_task t id thief lease_ms now = elim (get_task t id) [
  | none ↦ (t, steal_not_found)
  | some task ↦
      let here = λ (row : Task). row.id == id && is_in_flight row.status in
      let t' = update_where here (set_stolen task thief (now + lease_ms) now) t in
      if not (is_in_flight task.status)
      then (t, not_in_flight task.status)
      else if count_where here t == 0
      then (t', steal_collision)
      else (t', stolen_task (get_task t' id))
]

abbrev pub set_lease : ℕ → ℕ → Task → Task
set_lease lease now row = record row { lease_expires_at_ms = some lease; updated_at_ms = now }

unfoldable pub renew_lease : Table → Ident → ℕ → ℕ → Table × Bool
renew_lease t id lease_ms now =
    let here = λ (row : Task). row.id == id && is_in_flight row.status in
    (update_where here (set_lease (now + lease_ms) now) t, ltb 0 (count_where here t))

-- `assigned_worker_id = ? AND status IN ('ASSIGNED', 'RUNNING')`; NULL equals nothing.
abbrev pub held_by : Ident → Task → Bool
held_by worker row =
    elim row.assigned_worker_id [ none ↦ false | some w ↦ w == worker ] && is_in_flight row.status

unfoldable pub renew_worker_leases : Table → Ident → ℕ → ℕ → Table × ℕ
renew_worker_leases t worker lease_ms from_time = (
  update_where (held_by worker) (set_lease (from_time + lease_ms) from_time) t,
  count_where (held_by worker) t,
)

abbrev pub set_completed : Text → ℕ → Task → Task
set_completed destination now row = record row {
  status = TaskStatus.completed;
  result_destination = destination;
  lease_expires_at_ms = none;
  updated_at_ms = now;
}

unfoldable pub complete_task : Table → Ident → Option Text → ℕ → Outcome
unfolding task_or_throw
complete_task t id destination now = do
  task ← task_or_throw t id
  throw_if (not (is_in_flight task.status)) (cannot_complete task.status)
  let here = λ (row : Task). row.id == id && is_in_flight row.status
  throw_if (count_where here t == 0) (collision id)
  let t' = update_where here (set_completed (or_default destination task.result_destination) now) t
  ok (t', get_task t' id)

abbrev pub set_ended : Task → TaskStatus → Reason → ℕ → Task → Task
set_ended task status why now row = record row {
  status = status;
  attempt_history = log_attempt task now task.assigned_worker_id why blank;
  lease_expires_at_ms = none;
  updated_at_ms = now;
}

unfoldable pub fail_task : Table → Ident → Reason → ℕ → Outcome
unfolding task_or_throw
fail_task t id why now = do
  task ← task_or_throw t id
  throw_if (is_terminal task.status) (cannot_fail task.status)
  let t' = update_where (λ row. row.id == id) (set_ended task TaskStatus.failed why now) t
  ok (t', get_task t' id)

unfoldable pub abandon_task : Table → Ident → Reason → ℕ → Outcome
unfolding task_or_throw
abandon_task t id why now = do
  task ← task_or_throw t id
  throw_if (is_terminal task.status) (cannot_abandon task.status)
  let t' = update_where (λ row. row.id == id) (set_ended task TaskStatus.abandoned why now) t
  ok (t', get_task t' id)
