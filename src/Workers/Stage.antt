-- ===== src/Workers/Stage.antt =====
-- core/src/worker_manager.ts: `updateWorkerStage`.
use swarm_x.Common.{ℕ, ◌+◌, Bool, true, Option, none, some}
use swarm_x.Common.Dict.{get, set}
use swarm_x.Task.{Ident}
use swarm_x.Workers.{
  WorkerPipelineChecklist, PartialChecklist, StageDetails, WorkerLiveState, Workers,
  WorkerExecutionStage, ConnectionState, offline, starting, connecting, authenticating, registering,
  ready, fetching, decrypting, decoding, executing, transmitting, completed, failed, retrying,
}
use swarm_x.Workers.Manager.{no_stages, get_or_create_live_state}

-- `if (value !== undefined) field = value`.
abbrev pub defined_or {ℓ} : {A : Type ℓ} → Option A → Option A → Option A
defined_or none old = old
defined_or (some v) old = some v

abbrev pub spread : Option Bool → Bool → Bool
spread none old = old
spread (some v) old = v

-- `{ ...live.pipelineStages, ...details.pipelineStages }`.
abbrev pub merge_checklist :
    Option PartialChecklist → WorkerPipelineChecklist → WorkerPipelineChecklist
merge_checklist none old = old
merge_checklist (some new) old = record {
  fetching = spread new.fetching old.fetching;
  decrypting = spread new.decrypting old.decrypting;
  decoding = spread new.decoding old.decoding;
  executing = spread new.executing old.executing;
  transmitting = spread new.transmitting old.transmitting;
}

abbrev pub merge_details : Option StageDetails → WorkerLiveState → WorkerLiveState
merge_details none live = live
merge_details (some d) live = record live {
  current_task_id = defined_or d.current_task_id live.current_task_id;
  current_chunk_index = defined_or d.current_chunk_index live.current_chunk_index;
  total_chunks = defined_or d.total_chunks live.total_chunks;
  start_frame_index = defined_or d.start_frame_index live.start_frame_index;
  frame_count = defined_or d.frame_count live.frame_count;
  execution_time_ms = defined_or d.execution_time_ms live.execution_time_ms;
  last_completed_task_id = defined_or d.last_completed_task_id live.last_completed_task_id;
  pipeline_stages = merge_checklist d.pipeline_stages live.pipeline_stages;
}

abbrev pub at_rest : WorkerLiveState → WorkerLiveState
at_rest live = record live {
  current_task_id = none;
  current_chunk_index = none;
  start_frame_index = none;
  frame_count = none;
  pipeline_stages = no_stages;
}

-- The chain of tests on the stage.
unfoldable pub synchronize : WorkerExecutionStage → WorkerLiveState → WorkerLiveState
synchronize fetching live = record live { pipeline_stages = record no_stages { fetching = true } }
synchronize decrypting live = record live {
  pipeline_stages = record no_stages { fetching = true; decrypting = true };
}
synchronize decoding live = record live {
  pipeline_stages = record no_stages { fetching = true; decrypting = true; decoding = true };
}
synchronize executing live = record live {
  pipeline_stages = record no_stages {
    fetching = true;
    decrypting = true;
    decoding = true;
    executing = true;
  };
}
synchronize transmitting live = record live {
  pipeline_stages = record {
    fetching = true;
    decrypting = true;
    decoding = true;
    executing = true;
    transmitting = true;
  };
}
synchronize completed live = at_rest (record live { completed_chunks = live.completed_chunks + 1 })
synchronize ready live = at_rest live
synchronize failed live = record live { failed_chunks = live.failed_chunks + 1 }
synchronize retrying live = record live { retry_count = live.retry_count + 1 }
synchronize offline live = record live { connection_state = ConnectionState.cut_off }
synchronize starting live = live
synchronize connecting live = live
synchronize authenticating live = live
synchronize registering live = live

-- The live state after the change of stage.
unfoldable pub changed :
    WorkerExecutionStage → Option StageDetails → ℕ → WorkerLiveState → WorkerLiveState
unfolding synchronize
changed stage details now live =
    synchronize stage
      (merge_details details (record live { stage = stage; stage_start_time_ms = some now }))

unfoldable pub update_worker_stage :
    Workers
    → Ident
    → WorkerExecutionStage
    → Option StageDetails
    → ℕ
    → Workers × Option WorkerLiveState
unfolding changed get_or_create_live_state
update_worker_stage workers device_id stage details now = elim (get device_id workers) [
  | none ↦ (workers, none)
  | some worker ↦
      let live = changed stage details now (get_or_create_live_state worker now) in
      (set device_id (record worker { live_state = some live }) workers, some live)
]
