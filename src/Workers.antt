-- ===== src/Workers.antt =====
-- core/src/types.ts and core/src/worker_manager.ts: what the host knows of a worker. Shares of a
-- battery or of a processor are in hundredths; a thermal state is its number. A worker's live state
-- is one object that only the worker's entry in the map holds, so it stands in that entry.
pub mod Manager
pub mod Stage
pub mod Checklist
mod Examples
use swarm_x.Common.{ℕ, Bool, Option, List}
use swarm_x.Common.Dict.{Dict}
use swarm_x.Task.{Ident, Text}

pub data WorkerExecutionStage : Type 0 where
  offline starting connecting authenticating registering ready : WorkerExecutionStage
  fetching decrypting decoding executing transmitting : WorkerExecutionStage
  completed failed retrying : WorkerExecutionStage

pub data OsType : Type 0 where
  darwin windows linux ios android : OsType

pub record CapabilityProfile : Type 0 where
  pub capability_schema_version : ℕ
  pub device_id : Ident
  pub device_name : Text
  pub os_type : OsType
  pub os_version : Text
  pub cpu_arch : Text
  pub cpu_cores : ℕ
  pub total_ram_mb : ℕ
  pub has_gpu : Bool
  pub gpu_model : Option Text
  pub gpu_acceleration_type : Option Text
  pub supported_kernels : Option (List Ident)
  pub transfer_bandwidth_bytes_per_sec : Option ℕ

pub record WorkerTelemetry : Type 0 where
  pub device_id : Ident
  pub timestamp_ms : ℕ
  pub battery_level : ℕ
  pub is_charging : Bool
  pub thermal_state : ℕ
  pub cpu_utilization : ℕ
  pub available_ram_mb : ℕ
  pub is_eligible : Option Bool

pub data ConnectionState : Type 0 where
  connected discovered in_pairing cut_off : ConnectionState

pub record WorkerPipelineChecklist : Type 0 where
  pub fetching : Bool
  pub decrypting : Bool
  pub decoding : Bool
  pub executing : Bool
  pub transmitting : Bool

pub record WorkerLiveState : Type 0 where
  pub device_id : Ident
  pub device_name : Text
  pub connection_state : ConnectionState
  pub stage : WorkerExecutionStage
  pub current_task_id : Option Ident
  pub current_chunk_index : Option ℕ
  pub total_chunks : Option ℕ
  pub start_frame_index : Option ℕ
  pub frame_count : Option ℕ
  pub execution_time_ms : Option ℕ
  pub stage_start_time_ms : Option ℕ
  pub completed_chunks : ℕ
  pub failed_chunks : ℕ
  pub retry_count : ℕ
  pub pipeline_stages : WorkerPipelineChecklist
  pub last_heartbeat_ms : ℕ
  pub is_eligible : Bool
  pub last_completed_task_id : Option Ident

pub record WorkerState : Type 0 where
  pub device_id : Ident
  pub capability_profile : CapabilityProfile
  pub latest_telemetry : Option WorkerTelemetry
  pub is_eligible : Bool
  pub connected_at_ms : ℕ
  pub last_heartbeat_ms : ℕ
  pub live_state : Option WorkerLiveState

-- The fields of `Partial<WorkerLiveState>` that `updateWorkerStage` reads.
pub record PartialChecklist : Type 0 where
  pub fetching : Option Bool
  pub decrypting : Option Bool
  pub decoding : Option Bool
  pub executing : Option Bool
  pub transmitting : Option Bool

pub record StageDetails : Type 0 where
  pub current_task_id : Option Ident
  pub current_chunk_index : Option ℕ
  pub total_chunks : Option ℕ
  pub start_frame_index : Option ℕ
  pub frame_count : Option ℕ
  pub execution_time_ms : Option ℕ
  pub last_completed_task_id : Option Ident
  pub pipeline_stages : Option PartialChecklist

-- `this.workers`.
abbrev pub Workers : Type 0
Workers = Dict WorkerState

abbrev pub capability_schema_version : ℕ
capability_schema_version = 1
