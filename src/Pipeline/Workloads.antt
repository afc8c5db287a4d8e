-- ===== src/Pipeline/Workloads.antt =====
-- core/src/workload_pipeline.ts: registration, progress and cancellation of a workload.
use swarm_x.Common.{
  ◌-◌, ℕ, Bool, true, false, ◌||◌, Option, none, some, List, [], ◌∷◌, if◌then◌else◌, length,
}
use swarm_x.Common.Dict.{get, set}
use swarm_x.Task.{Ident, is_pending, is_in_flight}
use swarm_x.Store.Table.{get_task}
use swarm_x.Pipeline.{workload_cancelled, WorkloadPipeline, add_id, tell}

unfoldable pub register_workload : WorkloadPipeline → Ident → ℕ → ℕ → WorkloadPipeline
register_workload p workload_id total_chunks now = record p {
  active_workloads =
      set workload_id
        (record {
          workload_id = workload_id;
          total_chunks = total_chunks;
          completed_chunks = 0;
          failed_chunks = 0;
          in_flight_task_ids = [];
          is_cancelled = false;
          created_at_ms = now;
        })
        p.active_workloads;
}

unfoldable pub track_task_in_workload : WorkloadPipeline → Ident → Ident → WorkloadPipeline
track_task_in_workload p workload_id task_id = elim (get workload_id p.active_workloads) [
  | none ↦ p
  | some w ↦ record p {
    active_workloads =
        set workload_id (record w { in_flight_task_ids = add_id task_id w.in_flight_task_ids })
          p.active_workloads;
  }
]

unfoldable pub on_task_finished : WorkloadPipeline → Ident → WorkloadPipeline
on_task_finished p task_id = record p {
  completion_listeners = add_id task_id p.completion_listeners;
}

-- One round of the loop of `cancelWorkload`.
abbrev pub cancel_task : Ident → WorkloadPipeline → WorkloadPipeline
cancel_task id p = elim (get_task p.table id) [
  | none ↦ p
  | some task ↦
      if is_pending task.status || is_in_flight task.status
      then tell id (workload_cancelled task) p
      else p
]

unfoldable pub cancel_tasks : List Ident → WorkloadPipeline → WorkloadPipeline
cancel_tasks [] p = p
cancel_tasks (id ∷ ids) p = cancel_tasks ids (cancel_task id p)

unfoldable pub cancel_workload : WorkloadPipeline → Ident → WorkloadPipeline × Bool
unfolding cancel_tasks
cancel_workload p workload_id = elim (get workload_id p.active_workloads) [
  | none ↦ (p, false)
  | some w ↦
      let p' = cancel_tasks w.in_flight_task_ids p in
      (
        record p' {
          active_workloads =
              set workload_id (record w { is_cancelled = true; in_flight_task_ids = [] })
                p'.active_workloads;
        },
        true,
      )
]

-- `percentComplete`, a rounded floating-point number, is left out.
pub record WorkloadProgress : Type 0 where
  pub workload_id : Ident
  pub total_chunks : ℕ
  pub completed_chunks : ℕ
  pub failed_chunks : ℕ
  pub in_flight_chunks : ℕ
  pub is_cancelled : Bool
  pub elapsed_ms : ℕ

unfoldable pub get_workload_progress : WorkloadPipeline → Ident → ℕ → Option WorkloadProgress
get_workload_progress p workload_id now = elim (get workload_id p.active_workloads) [
  | none ↦ none
  | some w ↦ some (record {
    workload_id = w.workload_id;
    total_chunks = w.total_chunks;
    completed_chunks = w.completed_chunks;
    failed_chunks = w.failed_chunks;
    in_flight_chunks = length w.in_flight_task_ids;
    is_cancelled = w.is_cancelled;
    elapsed_ms = now - w.created_at_ms;
  })
]
