-- ===== src/Pipeline/Results.antt =====
-- core/src/workload_pipeline.ts, `handleTaskResult` and `handleExecutionError`.
use swarm_x.Common.{
  ℕ, ◌+◌, Bool, false, not, ◌&&◌, Option, none, some, [], ◌∷◌, ◌==◌, ltb, if◌then◌else◌, includes,
  Result, ok, ◌>>=◌,
}
use swarm_x.Common.Dict.{Dict, get, set}
use swarm_x.Task.{
  Ident, Text, Task, given, is_completed, validation_tolerance_exceeded, execution_error,
}
use swarm_x.Store.Table.{StoreError, task_or_throw, default_max_retries}
use swarm_x.Store.Ops.{complete_task}
use swarm_x.Store.Recovery.{record_task_failure}
use swarm_x.Pipeline.{
  OutputData, bytes, written, TaskResultPayload, ValidationResult, TaskProcessingResult,
  completed_result, invalid_result, duplicate_result_ignored, stale_worker_ignored,
  stale_attempt_ignored, ActiveWorkloadState, WorkloadPipeline, delete_id, tell,
}

-- The loops over the workloads, after a completion and after a failure.
abbrev pub count_completed : Ident → ActiveWorkloadState → ActiveWorkloadState
count_completed id w =
    if includes w.in_flight_task_ids id
    then record w {
      in_flight_task_ids = delete_id id w.in_flight_task_ids;
      completed_chunks = w.completed_chunks + 1;
    }
    else w

abbrev pub count_failed : Ident → ActiveWorkloadState → ActiveWorkloadState
count_failed id w =
    if includes w.in_flight_task_ids id
    then record w {
      in_flight_task_ids = delete_id id w.in_flight_task_ids;
      failed_chunks = w.failed_chunks + 1;
    }
    else w

abbrev pub each_workload :
    (ActiveWorkloadState → ActiveWorkloadState)
    → Dict ActiveWorkloadState
    → Dict ActiveWorkloadState
each_workload f [] = []
each_workload f ((id, w) ∷ d) = (id, f w) ∷ each_workload f d

-- What the guards of `handleTaskResult` decide.
pub data Checked : Type 0 where
  to_validate : Task → Checked
  ignored : TaskProcessingResult → Checked

-- `task.assignedWorkerId && task.assignedWorkerId !== payload.workerId`.
abbrev pub superseded : Task → Ident → Bool
superseded task worker = elim task.assigned_worker_id [
  | none ↦ false
  | some w ↦ not (w == 0) && not (w == worker)
]

abbrev pub other_attempt : Task → Option ℕ → Bool
other_attempt task none = false
other_attempt task (some n) = not (n == task.retry_count + 1)

unfoldable pub begin_result : WorkloadPipeline → TaskResultPayload → Result StoreError Checked
unfolding task_or_throw
begin_result p payload = do
  task ← task_or_throw p.table payload.task_id
  ok (
      if is_completed task.status
      then ignored (duplicate_result_ignored task)
      else if superseded task payload.worker_id
      then ignored (stale_worker_ignored task)
      else if other_attempt task payload.attempt_number
      then ignored (stale_attempt_ignored task)
      else to_validate task)

-- `recordWorkerFailure` of the scheduler.
abbrev pub record_worker_failure : Ident → Dict ℕ → Dict ℕ
record_worker_failure worker counts =
    set worker (elim (get worker counts) [ none ↦ 1 | some n ↦ n + 1 ]) counts

-- The task goes back with the failure, and the worker's failures are counted.
unfoldable pub reject_result :
    WorkloadPipeline
    → TaskResultPayload
    → Task
    → ValidationResult
    → ℕ
    → Result StoreError (WorkloadPipeline × TaskProcessingResult)
reject_result p payload task validation now = do
  let worker = payload.worker_id
  (t', failed) ←
      record_task_failure p.table task.id worker validation_tolerance_exceeded
        (given validation.details) default_max_retries now
  let result = invalid_result failed validation
  let counted = each_workload (count_failed task.id) p.active_workloads
  let p' = record p {
    table = t';
    worker_failure_counts = record_worker_failure worker p.worker_failure_counts;
    active_workloads = counted;
  }
  ok (tell task.id result p', result)

-- The text `memory://…` of a task is the argument `memory_ref`.
module _ (memory_ref : Ident → Text) where
  abbrev pub result_ref : Task → OutputData → Text
  result_ref task (bytes b) = memory_ref task.id
  result_ref task (written text size) = if ltb 1024 size then memory_ref task.id else text

  -- `validation.isValid`: the task is completed.
  unfoldable pub accept_result :
      WorkloadPipeline
      → TaskResultPayload
      → Task
      → ValidationResult
      → ℕ
      → Result StoreError (WorkloadPipeline × TaskProcessingResult)
  accept_result p payload task validation now = do
    (t', done) ← complete_task p.table task.id (some (result_ref task payload.output_data)) now
    let result = completed_result done payload.output_data validation
    let counted = each_workload (count_completed task.id) p.active_workloads
    ok (tell task.id result (record p { table = t'; active_workloads = counted }), result)

  -- What follows the validation. The task is the one that was read before it.
  unfoldable pub finish_result :
      WorkloadPipeline
      → TaskResultPayload
      → Task
      → ValidationResult
      → ℕ
      → Result StoreError (WorkloadPipeline × TaskProcessingResult)
  unfolding accept_result reject_result
  finish_result p payload task validation now =
      if validation.is_valid
      then accept_result p payload task validation now
      else reject_result p payload task validation now

  -- The whole handler, when nothing comes between. `validate` is what `getValidator` chooses.
  unfoldable pub handle_task_result :
      (validate : Task → OutputData → ValidationResult)
      → WorkloadPipeline
      → TaskResultPayload
      → ℕ
      → Result StoreError (WorkloadPipeline × TaskProcessingResult)
  unfolding begin_result finish_result
  handle_task_result validate p payload now = begin_result p payload >>= λ checked. elim checked [
    | ignored result ↦ ok (p, result)
    | to_validate task ↦ finish_result p payload task (validate task payload.output_data) now
  ]

unfoldable pub handle_execution_error :
    WorkloadPipeline → Ident → Ident → Text → ℕ → Result StoreError (WorkloadPipeline × Option Task)
handle_execution_error p task_id worker error now =
    record_task_failure p.table task_id worker execution_error (given error) default_max_retries now
    >>= λ (t', failed). ok (
      record p {
        table = t';
        worker_failure_counts = record_worker_failure worker p.worker_failure_counts;
      },
      failed,
    )
