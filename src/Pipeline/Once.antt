-- ===== src/Pipeline/Once.antt =====
-- A task's result counts once; and the gap that `await` leaves.
use swarm_x.Common.{
  includes, ◌≢◌, ℕ, ◌+◌, ◌<◌, ◌≡◌, refl, sym, subst, true, false, ◌&&◌, Option, some, ◌==◌, arith,
  Option-cases, Bool-cases, inl, inr, ok, >>=-eq-ok,
}
use swarm_x.Task.{
  Ident, Text, Task, given, is_in_flight, pending, completed, validation_tolerance_exceeded,
  or_default,
}
use swarm_x.Store.Table.{Table, find_row, get_task, map_row_to_task, default_max_retries}
use swarm_x.Store.Ops.{complete_task, set_completed}
use swarm_x.Store.Rows.{find_row-id, find_row-update_where, get_task-eq-some, get_task-of_row}
use swarm_x.Store.Effects.{complete_task-eq-ok}
use swarm_x.Store.Reports.{record_task_failure-reopens}
use swarm_x.Pipeline.{
  invalid_result, record_task_failure, OutputData, TaskResultPayload, ValidationResult,
  TaskProcessingResult, completed_result, duplicate_result_ignored, WorkloadPipeline, tell,
}
use swarm_x.Pipeline.Results.{
  count_failed, record_worker_failure, count_completed, each_workload, result_ref, begin_result,
  accept_result, reject_result, finish_result, handle_task_result,
}

-- The row of a task after `completeTask` has succeeded.
complete_task-row :
    (t : Table) (id : Ident) (destination : Option Text) (now : ℕ) (t' : Table) (r : Option Task)
    → complete_task t id destination now ≡ ok (t', r)
    → (row : Task) × (find_row id t' ≡ some row) × (row.status ≡ completed)
unfolding map_row_to_task
complete_task-row t id destination now t' r e =
    let did = complete_task-eq-ok t id destination now t' r e in
    let (row, found, is) = get_task-eq-some t id did.task did.read in
    let flying : is_in_flight row.status ≡ true =
      subst (λ task. is_in_flight task.status ≡ true) is did.fit in
    let new = set_completed (or_default destination did.task.result_destination) now in
    (
      new row,
      ground (
        arith,
        did.after,
        find_row-id id t row,
        find_row-update_where (λ r. r.id == id && is_in_flight r.status) new (λ _. refl) id t,
      ),
      refl,
    )

tell-table :
    (id : Ident) (result : TaskProcessingResult) (p : WorkloadPipeline)
    → (tell id result p).table ≡ p.table
tell-table id result p = elim (Bool-cases (includes p.completion_listeners id)) [
  | inl listens ↦ ground arith
  | inr nobody ↦ ground arith
]

accept_result-row :
    (memory_ref : Ident → Text) (p : WorkloadPipeline) (payload : TaskResultPayload) (task : Task)
    (validation : ValidationResult) (now : ℕ) (p' : WorkloadPipeline)
    (result : TaskProcessingResult)
    → accept_result memory_ref p payload task validation now ≡ ok (p', result)
    → (row : Task) × (find_row task.id p'.table ≡ some row) × (row.status ≡ completed)
unfolding accept_result
accept_result-row memory_ref p payload task validation now p' result e =
    let ref = result_ref memory_ref task payload.output_data in
    let ((t', done), wrote, rest) = >>=-eq-ok (complete_task p.table task.id (some ref) now) _ e in
    let (row, there, is) = complete_task-row p.table task.id (some ref) now t' done wrote in
    let answer = completed_result done payload.output_data validation in
    let counted = each_workload (count_completed task.id) p.active_workloads in
    let same : p'.table ≡ t' = ground (
      arith,
      rest,
      tell-table task.id answer (record p { table = t'; active_workloads = counted }),
    ) in
    (row, subst (λ t. find_row task.id t ≡ some row) (sym same) there, is)

reject_result-invalid :
    (p : WorkloadPipeline) (payload : TaskResultPayload) (task : Task)
    (validation : ValidationResult) (now : ℕ) (p' : WorkloadPipeline) (finished : Option Task)
    (output : OutputData) (v : ValidationResult)
    → reject_result p payload task validation now ≢ ok (p', completed_result finished output v)
unfolding reject_result
reject_result-invalid p payload task validation now p' finished output v e =
    let (_, _, rest) =
      >>=-eq-ok
        (record_task_failure p.table task.id payload.worker_id validation_tolerance_exceeded
          (given validation.details) default_max_retries now)
        _ e in
    cc

handle-row :
    (memory_ref : Ident → Text) (validate : Task → OutputData → ValidationResult)
    (p : WorkloadPipeline) (payload : TaskResultPayload) (now : ℕ) (p' : WorkloadPipeline)
    (finished : Option Task) (output : OutputData) (v : ValidationResult)
    → handle_task_result memory_ref validate p payload now
      ≡ ok (p', completed_result finished output v)
    → (row : Task) × (find_row payload.task_id p'.table ≡ some row) × (row.status ≡ completed)
unfolding handle_task_result begin_result finish_result map_row_to_task
handle-row memory_ref validate p payload now p' finished output v e =
    elim (Option-cases (get_task p.table payload.task_id)) [
      | inl missing ↦ ground arith
      | inr (task, found) ↦
          let validation = validate task payload.output_data in
          let (row0, there0, is0) = get_task-eq-some p.table payload.task_id task found in
          let id : task.id ≡ payload.task_id =
            ground (arith, is0, find_row-id payload.task_id p.table row0) in
          elim (Bool-cases validation.is_valid) [
            | inl valid ↦
                let accepted : accept_result memory_ref p payload task validation now
                    ≡ ok (p', completed_result finished output v) =
                  ground arith in
                let (row, there, is) =
                  accept_result-row memory_ref p payload task validation now p' _ accepted in
                (row, subst (λ i. find_row i p'.table ≡ some row) id there, is)
            | inr invalid ↦
                let rejected : reject_result p payload task validation now
                    ≡ ok (p', completed_result finished output v) =
                  ground arith in
                absurd (
                  reject_result-invalid p payload task validation now p' finished output v rejected)
          ]
    ]

-- A task's result counts once: after a result has completed its task, every further result for the same
-- task, from any worker and for any attempt, is ignored as a duplicate, and changes nothing. No other
-- call comes between.
pub handle_task_result-handle_task_result :
    (memory_ref : Ident → Text) (validate : Task → OutputData → ValidationResult)
    (p : WorkloadPipeline) (payload payload' : TaskResultPayload) (now now' : ℕ)
    (p' : WorkloadPipeline) (finished : Option Task) (output : OutputData) (v : ValidationResult)
    → handle_task_result memory_ref validate p payload now
      ≡ ok (p', completed_result finished output v)
    → payload'.task_id ≡ payload.task_id
    → (task : Task) × (handle_task_result memory_ref validate p' payload' now'
        ≡ ok (p', duplicate_result_ignored task))
unfolding handle_task_result begin_result map_row_to_task
handle_task_result-handle_task_result memory_ref validate p payload payload' now now' p' finished
      output v e same =
    let (row, there, is) = handle-row memory_ref validate p payload now p' finished output v e in
    let there' : find_row payload'.task_id p'.table ≡ some row =
      subst (λ i. find_row i p'.table ≡ some row) (sym same) there in
    (map_row_to_task row, ground (arith, get_task-of_row p'.table payload'.task_id row there', is))

-- Between the guards and the end of the validation another call may complete the task. If the
-- result that is being validated is invalid then, and the task has a retry left, the handling of
-- the result succeeds, and takes the task out of its final state: it is pending.
pub finish_result-reopens :
    (memory_ref : Ident → Text) (p : WorkloadPipeline) (payload : TaskResultPayload)
    (task row : Task) (validation : ValidationResult) (now : ℕ)
    → find_row task.id p.table ≡ some row
    → row.status ≡ completed
    → row.retry_count + 1 < default_max_retries
    → validation.is_valid ≡ false
    → (p' : WorkloadPipeline) × (result : TaskProcessingResult) × (row' : Task) × (finish_result
          memory_ref p payload task validation now
        ≡ ok (p', result))
      × (find_row task.id p'.table ≡ some row')
      × (row'.status ≡ pending)
unfolding finish_result reject_result
finish_result-reopens memory_ref p payload task row validation now there done left invalid =
    let (t', failed, row', wrote, there', is) =
      record_task_failure-reopens p.table task.id payload.worker_id validation_tolerance_exceeded
        (given validation.details) default_max_retries now row there done left in
    let answer = invalid_result failed validation in
    let p1 = record p {
      table = t';
      worker_failure_counts = record_worker_failure payload.worker_id p.worker_failure_counts;
      active_workloads = each_workload (count_failed task.id) p.active_workloads;
    } in
    (
      tell task.id answer p1,
      answer,
      row',
      ground (arith, wrote, invalid),
      subst (λ t. find_row task.id t ≡ some row') (sym (tell-table task.id answer p1)) there',
      is,
    )
