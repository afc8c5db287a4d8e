-- ===== src/Pipeline.antt =====
-- core/src/workload_pipeline.ts: results of tasks are checked, validated and written to the store, and
-- the progress of each workload is counted. The state of the pipeline has the store's table, the
-- failure counts of the scheduler, and what the listeners were told, latest last. A listener itself is
-- not modelled: a task has one or none. `await` splits the handling of a result: other calls may come
-- between `begin_result` and `finish_result`.
pub mod Workloads
pub mod Results
mod Current
pub mod Once
pub mod Cancelled
mod Examples
use swarm_x.Common.{
  ◌-◌, ℕ, suc, ◌+◌, Bool, true, false, not, ◌&&◌, ◌||◌, Option, none, some, List, [], ◌∷◌, ◌++◌,
  ◌==◌, ltb, if◌then◌else◌, length, includes, Result, ok, err, ◌>>=◌,
}
use swarm_x.Common.Dict.{Dict, get, set}
use swarm_x.Task.{
  Ident, Text, Task, TaskStatus, Details, given, Reason, is_completed, is_pending, is_in_flight,
  validation_tolerance_exceeded, execution_error,
}
use swarm_x.Chunk.Buffer.{Buffer}
use swarm_x.Store.Table.{Table, StoreError, Outcome, get_task, task_or_throw, default_max_retries}
use swarm_x.Store.Ops.{complete_task}
use swarm_x.Store.Recovery.{record_task_failure}

-- Bytes, or a text with its length.
pub data OutputData : Type 0 where
  bytes : Buffer → OutputData
  written : (text : Text) (size : ℕ) → OutputData

-- `itemCount`, `executionTimeMs` and the host's name and process, which only go to the statistics of
-- the scheduler and back to the caller, are left out.
pub record TaskResultPayload : Type 0 where
  pub task_id : Ident
  pub worker_id : Ident
  pub output_data : OutputData
  pub attempt_number : Option ℕ

pub record ValidationResult : Type 0 where
  pub is_valid : Bool
  pub reason : Text
  pub details : Text

-- `TaskProcessingResult`, by what happened.
pub data TaskProcessingResult : Type 0 where
  completed_result : Option Task → OutputData → ValidationResult → TaskProcessingResult
  invalid_result : Option Task → ValidationResult → TaskProcessingResult
  duplicate_result_ignored stale_worker_ignored stale_attempt_ignored workload_cancelled :
      Task → TaskProcessingResult

pub record ActiveWorkloadState : Type 0 where
  pub workload_id : Ident
  pub total_chunks : ℕ
  pub completed_chunks : ℕ
  pub failed_chunks : ℕ
  pub in_flight_task_ids : List Ident
  pub is_cancelled : Bool
  pub created_at_ms : ℕ

pub record WorkloadPipeline : Type 0 where
  pub table : Table
  pub worker_failure_counts : Dict ℕ
  pub active_workloads : Dict ActiveWorkloadState
  pub completion_listeners : List Ident
  pub told : List (Ident × TaskProcessingResult)

-- `Set.delete`, and `Map.delete` for the listeners.
abbrev pub delete_id : Ident → List Ident → List Ident
delete_id id [] = []
delete_id id (x ∷ xs) = if x == id then delete_id id xs else x ∷ delete_id id xs

abbrev pub add_id : Ident → List Ident → List Ident
add_id id ids = if includes ids id then ids else ids ++ id ∷ []

-- The listener of a task, if it has one, is taken off and told.
abbrev pub tell : Ident → TaskProcessingResult → WorkloadPipeline → WorkloadPipeline
tell id result p =
    if includes p.completion_listeners id
    then record p {
      completion_listeners = delete_id id p.completion_listeners;
      told = p.told ++ (id, result) ∷ [];
    }
    else p
