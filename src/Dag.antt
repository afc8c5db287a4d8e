-- ===== src/Dag.antt =====
-- core/src/dag_engine.ts and the DAG types of core/src/types.ts: the stages of one workload, in the
-- order of their dependencies. This file has the data, `Validate` the checks of a description,
-- `Stages` the life of a registered DAG, and the others the proofs.
pub mod Validate
pub mod Stages
pub mod Loops
pub mod Steps
pub mod Promote
pub mod Invariant
pub mod Register
pub mod Errors
pub mod Acyclic
pub mod Effects
pub mod System
pub mod Once
pub mod Failed
pub mod Twice
pub mod Final
pub mod Progress
mod Examples
use swarm_x.Common.{ℕ, Bool, true, false, Option, List}
use swarm_x.Common.Dict.{Dict}
use swarm_x.Task.{Ident, Text}
use swarm_x.Chunk.Buffer.{Buffer}

pub data DagStageStatus : Type 0 where
  pending ready running completed failed cancelled : DagStageStatus

abbrev pub is_pending : DagStageStatus → Bool
is_pending DagStageStatus.pending = true
is_pending _ = false

abbrev pub is_ready : DagStageStatus → Bool
is_ready DagStageStatus.ready = true
is_ready _ = false

abbrev pub is_running : DagStageStatus → Bool
is_running DagStageStatus.running = true
is_running _ = false

abbrev pub is_completed : DagStageStatus → Bool
is_completed DagStageStatus.completed = true
is_completed _ = false

abbrev pub is_failed : DagStageStatus → Bool
is_failed DagStageStatus.failed = true
is_failed _ = false

-- PENDING, READY or RUNNING.
abbrev pub is_active : DagStageStatus → Bool
is_active DagStageStatus.pending = true
is_active DagStageStatus.ready = true
is_active DagStageStatus.running = true
is_active _ = false

-- `parameters` is a text that is only passed on. A list that may be left out is the empty one.
pub record DagStage : Type 0 where
  pub stage_id : Ident
  pub kernel_id : Ident
  pub parameters : Text
  pub dependencies : List Ident
  pub input_artifact_refs : List Ident
  pub output_artifact_ref : Ident
  pub status : DagStageStatus
  pub assigned_worker_id : Option Ident
  pub attempt_number : ℕ
  pub execution_time_ms : Option ℕ
  pub error : Option Text

pub record DagArtifact : Type 0 where
  pub artifact_id : Ident
  pub producing_stage_id : Ident
  pub size_bytes : ℕ
  pub format : Text
  pub checksum_sha256 : Option Text
  pub data_buffer : Option Buffer
  pub reference_count : ℕ
  pub is_cleaned_up : Bool
  pub created_at_ms : ℕ

-- Data that is given as a text is its bytes here, and the empty text is none.
pub record DagInput : Type 0 where
  pub artifact_id : Ident
  pub format : Text
  pub size_bytes : ℕ
  pub data_buffer : Option Buffer

pub record WorkloadDagDescriptor : Type 0 where
  pub dag_id : Ident
  pub version : Text
  pub stages : List DagStage
  pub input_artifacts : List DagInput
  pub output_artifact_refs : List Ident

pub record DagState : Type 0 where
  pub descriptor : WorkloadDagDescriptor
  pub stages : Dict DagStage
  pub artifacts : Dict DagArtifact
  pub is_cancelled : Bool
  pub created_at_ms : ℕ
  pub completed_at_ms : Option ℕ

-- `percentComplete`, a rounded floating-point number, is left out.
pub record DagProgress : Type 0 where
  pub dag_id : Ident
  pub total_stages : ℕ
  pub completed_stages : ℕ
  pub running_stages : ℕ
  pub pending_stages : ℕ
  pub failed_stages : ℕ
  pub is_cancelled : Bool
  pub is_completed : Bool
