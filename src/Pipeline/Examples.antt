-- ===== src/Pipeline/Examples.antt =====
-- Tests of the pipeline on one task of one workload, and each theorem about it applied there.
use swarm_x.Common.{
  ◌+◌, ◌≡◌, ◌⊎◌, refl, Bool, true, false, ◌&&◌, none, some, [], ◌∷◌, includes, arith, ok,
}
use swarm_x.Common.Dict.{get}
use swarm_x.Task.{Ident, Text, Task, TaskStatus, running, pending}
use swarm_x.Store.Table.{find_row, get_task, map_row_to_task}
use swarm_x.Store.Ops.{complete_task, set_completed}
use swarm_x.Pipeline.{
  OutputData, bytes, TaskResultPayload, ValidationResult, TaskProcessingResult, completed_result,
  duplicate_result_ignored, ActiveWorkloadState, WorkloadPipeline,
}
use swarm_x.Pipeline.Workloads.{cancel_workload}
use swarm_x.Pipeline.Results.{begin_result, accept_result, finish_result, handle_task_result}
use swarm_x.Pipeline.Current.{IsCurrent, handle_task_result-IsCurrent}
use swarm_x.Pipeline.Once.{handle_task_result-handle_task_result, finish_result-reopens}
use swarm_x.Pipeline.Cancelled.{is_open, cancel_workload_lem}

abbrev task_in : TaskStatus → Task
task_in status = record {
  id = 3;
  input_ref = 0;
  computation_descriptor = 90;
  required_resources = record {
    min_cpu_cores = none;
    min_ram_mb = none;
    requires_gpu = false;
    min_battery_level = none;
  };
  dependencies = [];
  execution_constraints = [];
  result_destination = 0;
  retry_count = 0;
  attempt_history = [];
  status = status;
  assigned_worker_id = some 7;
  lease_expires_at_ms = some 500;
  created_at_ms = 1;
  updated_at_ms = 2;
}

abbrev workload : ActiveWorkloadState
workload = record {
  workload_id = 1;
  total_chunks = 2;
  completed_chunks = 1;
  failed_chunks = 0;
  in_flight_task_ids = 3 ∷ [];
  is_cancelled = false;
  created_at_ms = 1;
}

abbrev pipeline_with : Task → WorkloadPipeline
pipeline_with task = record {
  table = task ∷ [];
  worker_failure_counts = [];
  active_workloads = (1, workload) ∷ [];
  completion_listeners = 3 ∷ [];
  told = [];
}

abbrev memory_ref : Ident → Text
memory_ref id = id + 1000

abbrev verdict : Bool → ValidationResult
verdict valid = record { is_valid = valid; reason = 5; details = 6 }

abbrev accept_all : Task → OutputData → ValidationResult
accept_all task output = verdict true

abbrev payload_of : Ident → TaskResultPayload
payload_of worker = record {
  task_id = 3;
  worker_id = worker;
  output_data = bytes (1 ∷ 2 ∷ []);
  attempt_number = some 1;
}

abbrev row_done : Task
row_done = set_completed 1003 50 (task_in running)

abbrev answer : TaskProcessingResult
answer =
    completed_result (some (record row_done { lease_expires_at_ms = none })) (bytes (1 ∷ 2 ∷ []))
      (verdict true)

abbrev pipeline_done : WorkloadPipeline
pipeline_done = record {
  table = row_done ∷ [];
  worker_failure_counts = [];
  active_workloads = (1, record workload { completed_chunks = 2; in_flight_task_ids = [] }) ∷ [];
  completion_listeners = [];
  told = (3, answer) ∷ [];
}

handles :
    handle_task_result memory_ref accept_all (pipeline_with (task_in running)) (payload_of 7) 50
    ≡ ok (pipeline_done, answer)
unfolding handle_task_result begin_result finish_result accept_result complete_task get_task
    map_row_to_task
handles = refl

handle_task_result-IsCurrent_example :
    (pipeline_done ≡ pipeline_with (task_in running))
    ⊎ ((task : Task) × (get_task (task_in running ∷ []) 3 ≡ some task)
        × IsCurrent task (payload_of 7))
handle_task_result-IsCurrent_example =
    handle_task_result-IsCurrent memory_ref accept_all (pipeline_with (task_in running))
      (payload_of 7) 50 pipeline_done answer handles

handle_task_result-handle_task_result_example :
    (task : Task) × (handle_task_result memory_ref accept_all pipeline_done (payload_of 8) 60
      ≡ ok (pipeline_done, duplicate_result_ignored task))
handle_task_result-handle_task_result_example =
    handle_task_result-handle_task_result memory_ref accept_all (pipeline_with (task_in running))
      (payload_of 7) (payload_of 8) 50 60 pipeline_done
      (some (record row_done { lease_expires_at_ms = none })) (bytes (1 ∷ 2 ∷ [])) (verdict true)
      handles refl

finish_result-reopens_example :
    (p' : WorkloadPipeline) × (result : TaskProcessingResult) × (row' : Task) × (finish_result
        memory_ref
        (pipeline_with row_done)
        (payload_of 7)
        (task_in running)
        (verdict false)
        60
      ≡ ok (p', result))
    × (find_row 3 p'.table ≡ some row')
    × (row'.status ≡ pending)
finish_result-reopens_example =
    finish_result-reopens memory_ref (pipeline_with row_done) (payload_of 7) (task_in running)
      row_done (verdict false) 60 refl refl (omega arith) refl

cancel_workload_lem_example :
    let p' = (cancel_workload (pipeline_with (task_in running)) 1).0 in
    (p'.table ≡ task_in running ∷ [])
    × (get 1 p'.active_workloads
        ≡ some (record workload { is_cancelled = true; in_flight_task_ids = [] }))
    × ((j : Ident)
        → (includes (3 ∷ []) j
            && is_open (task_in running ∷ []) j
            && includes p'.completion_listeners j)
          ≡ false)
cancel_workload_lem_example = cancel_workload_lem (pipeline_with (task_in running)) 1 workload refl
