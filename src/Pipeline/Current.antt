-- ===== src/Pipeline/Current.antt =====
-- Only a result for the task as it stands is taken.
use swarm_x.Common.{
  ==_iff, ap, ◌∙◌, none, ◌≢◌, ℕ, ◌+◌, ◌≡◌, refl, true, false, Option, some, ◌==◌, arith,
  Option-cases, Bool-cases, ◌⊎◌, inl, inr, ok,
}
use swarm_x.Task.{Ident, Text, Task, is_completed, completed}
use swarm_x.Store.Table.{get_task}
use swarm_x.Pipeline.{
  OutputData, TaskResultPayload, ValidationResult, TaskProcessingResult, WorkloadPipeline,
}
use swarm_x.Pipeline.Results.{superseded, other_attempt, begin_result, handle_task_result}

-- The result is for the task as it stands: the task is not completed, has no worker or the sender for
-- its worker, and the result names no attempt, or the one after the retries that the task has had.
pub record IsCurrent (task : Task) (payload : TaskResultPayload) : Type 0 where
  pub undone : task.status ≢ completed
  pub own :
      (task.assigned_worker_id ≡ none)
      ⊎ (task.assigned_worker_id ≡ some 0)
      ⊎ (task.assigned_worker_id ≡ some payload.worker_id)
  pub current :
      (payload.attempt_number ≡ none) ⊎ (payload.attempt_number ≡ some (task.retry_count + 1))

superseded-own :
    (task : Task) (worker : Ident)
    → superseded task worker ≡ false
    → (task.assigned_worker_id ≡ none)
      ⊎ (task.assigned_worker_id ≡ some 0)
      ⊎ (task.assigned_worker_id ≡ some worker)
superseded-own task worker e = elim (Option-cases task.assigned_worker_id) [
  | inl nobody ↦ inl nobody
  | inr (w, held) ↦ elim (Bool-cases (w == 0)) [
    | inl empty ↦ inr (inl (held ∙ ap some ((==_iff w 0).0 empty)))
    | inr named ↦
        let same : (w == worker) ≡ true = ground arith in
        inr (inr (held ∙ ap some ((==_iff w worker).0 same)))
  ]
]

other_attempt-current :
    (task : Task) (attempt : Option ℕ)
    → other_attempt task attempt ≡ false
    → (attempt ≡ none) ⊎ (attempt ≡ some (task.retry_count + 1))
other_attempt-current task none e = inl refl
other_attempt-current task (some n) e =
    let same : n ≡ task.retry_count + 1 = ground arith in inr (ap some same)

undone-ne : (task : Task) → is_completed task.status ≡ false → task.status ≢ completed
undone-ne task e is = let done : is_completed task.status ≡ true = rw is refl in cc

-- A result changes the pipeline, its table included, only if it is for the task as it stands when it is
-- taken up: the task is not completed, its worker, if it has one whose name is not empty, is the
-- sender, and the attempt that the result names, if it names one, is the one after the retries
-- that the task has had.
pub handle_task_result-IsCurrent :
    (memory_ref : Ident → Text) (validate : Task → OutputData → ValidationResult)
    (p : WorkloadPipeline) (payload : TaskResultPayload) (now : ℕ) (p' : WorkloadPipeline)
    (result : TaskProcessingResult)
    → handle_task_result memory_ref validate p payload now ≡ ok (p', result)
    → (p' ≡ p)
      ⊎ ((task : Task) × (get_task p.table payload.task_id ≡ some task) × IsCurrent task payload)
unfolding handle_task_result begin_result
handle_task_result-IsCurrent memory_ref validate p payload now p' result e =
    elim (Option-cases (get_task p.table payload.task_id)) [
      | inl missing ↦ ground arith
      | inr (task, found) ↦ elim (Bool-cases (is_completed task.status)) [
        | inl done ↦ inl (ground arith)
        | inr undone ↦ elim (Bool-cases (superseded task payload.worker_id)) [
          | inl stale ↦ inl (ground arith)
          | inr mine ↦ elim (Bool-cases (other_attempt task payload.attempt_number)) [
            | inl stale ↦ inl (ground arith)
            | inr current ↦ inr (
              task,
              found,
              record {
                undone = undone-ne task undone;
                own = superseded-own task payload.worker_id mine;
                current = other_attempt-current task payload.attempt_number current;
              },
            )
          ]
        ]
      ]
    ]
