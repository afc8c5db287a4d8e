-- ===== src/Dag/Steps.antt =====
-- core/src/dag_engine.ts: assignment, completion and failure of a stage, and cancellation.
use swarm_x.Common.{
  select, ℕ, ◌+◌, Bool, true, false, not, ◌&&◌, Option, none, some, List, [], ◌∷◌, ◌==◌, ltb,
  if◌then◌else◌, length, includes, Result, ok, err, ◌>>=◌, ◌>>◌, throw_if,
}
use swarm_x.Common.Dict.{Dict, get, set, values}
use swarm_x.Task.{Ident, Text}
use swarm_x.Chunk.Buffer.{Buffer}
use swarm_x.Dag.{DagStageStatus, DagStage, DagArtifact, DagState, is_ready, is_completed, is_active}
use swarm_x.Dag.Stages.{Dags, max_stage_attempts, raw_binary, count_stages}
use swarm_x.Dag.Loops.{release, promote, newly_ready, keys, all_completed}

unfoldable pub get_next_ready_stages : Dags → Ident → List DagStage
get_next_ready_stages dags dag_id = elim (get dag_id dags) [
  | none ↦ []
  | some st ↦ if st.is_cancelled then [] else select (λ s. is_ready s.status) (values st.stages)
]

pub data AssignError : Type 0 where
  dag_not_found dag_cancelled stage_not_found : AssignError
  cannot_assign : DagStageStatus → AssignError

abbrev pub found {ℓ} : {A : Type ℓ} → Option A → AssignError → Result AssignError A
found none error = err error
found (some v) error = ok v

-- `stage` is changed in place: here it is set in the map, and the map in the engine.
unfoldable pub assign_stage : Dags → Ident → Ident → Ident → Result AssignError (Dags × DagStage)
assign_stage dags dag_id stage_id worker = do
  st ← found (get dag_id dags) dag_not_found
  throw_if st.is_cancelled dag_cancelled
  stage ← found (get stage_id st.stages) stage_not_found
  throw_if (not (is_ready stage.status)) (cannot_assign stage.status)
  let stage' = record stage {
    status = DagStageStatus.running;
    assigned_worker_id = some worker;
    attempt_number = stage.attempt_number + 1;
  }
  ok (set dag_id (record st { stages = set stage_id stage' st.stages }) dags, stage')

-- `{ success, error?, newlyReadyStages }`.
pub data CompleteOutcome : Type 0 where
  succeeded : (newly_ready_stages : List DagStage) → CompleteOutcome
  no_dag no_stage duplicate_result : CompleteOutcome
  stale_worker : Ident → CompleteOutcome
  stale_attempt : ℕ → CompleteOutcome

-- `stage.assignedWorkerId && stage.assignedWorkerId !== workerId`.
abbrev pub other_worker : DagStage → Ident → Bool
other_worker stage worker = elim stage.assigned_worker_id [
  | none ↦ false
  | some w ↦ not (w == 0) && not (w == worker)
]

module _ (sha256 : Buffer → Text) where
  abbrev pub output_artifact : DagStage → Ident → Buffer → ℕ → ℕ → DagArtifact
  output_artifact stage stage_id buf consumers now = record {
    artifact_id = stage.output_artifact_ref;
    producing_stage_id = stage_id;
    size_bytes = length buf;
    format = raw_binary;
    checksum_sha256 = some (sha256 buf);
    data_buffer = some buf;
    reference_count = consumers;
    is_cleaned_up = false;
    created_at_ms = now;
  }

  -- What follows the guards of `completeStage`.
  unfoldable pub finish_stage :
      DagState → DagStage → Ident → Buffer → ℕ → ℕ → DagState × List DagStage
  unfolding release promote newly_ready
  finish_stage st stage stage_id buf execution_time_ms now =
      let out = stage.output_artifact_ref in
      let consumers = count_stages (λ s. includes s.input_artifact_refs out) (values st.stages) in
      let artifacts = set out (output_artifact stage stage_id buf consumers now) st.artifacts in
      let done = record stage {
        status = DagStageStatus.completed;
        execution_time_ms = some execution_time_ms;
      } in
      let stages = set stage_id done st.stages in
      let stages' = promote (keys stages) stages in
      (
        record st {
          artifacts = release stage.input_artifact_refs artifacts;
          stages = stages';
          completed_at_ms = if all_completed (values stages') then some now else st.completed_at_ms;
        },
        newly_ready (keys stages) stages,
      )

  unfoldable pub complete_stage :
      Dags
      → (dag_id stage_id : Ident) → Buffer
      → (worker : Ident) → (attempt_number execution_time_ms now : ℕ) → Dags × CompleteOutcome
  unfolding finish_stage
  complete_stage dags dag_id stage_id buf worker attempt_number execution_time_ms now =
      elim (get dag_id dags) [
        | none ↦ (dags, no_dag)
        | some st ↦ elim (get stage_id st.stages) [
          | none ↦ (dags, no_stage)
          | some stage ↦
              let (st', fresh) = finish_stage st stage stage_id buf execution_time_ms now in
              if is_completed stage.status
              then (dags, duplicate_result)
              else if other_worker stage worker
              then (dags, stale_worker worker)
              else if not (stage.attempt_number == attempt_number)
              then (dags, stale_attempt stage.attempt_number)
              else (set dag_id st' dags, succeeded fresh)
        ]
      ]

-- `{ status, canRetry }`: READY with true, or FAILED with false.
pub data FailOutcome : Type 0 where
  retried gave_up : FailOutcome

-- The code takes a worker and an attempt number too, and reads neither.
unfoldable pub fail_stage : Dags → (dag_id stage_id : Ident) → Text → Dags × FailOutcome
fail_stage dags dag_id stage_id error = elim (get dag_id dags) [
  | none ↦ (dags, gave_up)
  | some st ↦ elim (get stage_id st.stages) [
    | none ↦ (dags, gave_up)
    | some stage ↦
        let left = ltb stage.attempt_number max_stage_attempts in
        let stage' =
          if left
          then record stage {
            error = some error;
            status = DagStageStatus.ready;
            assigned_worker_id = none;
          }
          else record stage { error = some error; status = DagStageStatus.failed } in
        if is_completed stage.status then (dags, gave_up) else (
          set dag_id (record st { stages = set stage_id stage' st.stages }) dags,
          if left then retried else gave_up,
        )
  ]
]

abbrev pub map_values {ℓ} : {V : Type ℓ} → (V → V) → Dict V → Dict V
map_values f [] = []
map_values f ((id, v) ∷ d) = (id, f v) ∷ map_values f d

abbrev pub cancel_stage : DagStage → DagStage
cancel_stage s = if is_active s.status then record s { status = DagStageStatus.cancelled } else s

abbrev pub clean_up : DagArtifact → DagArtifact
clean_up art = record art { is_cleaned_up = true; data_buffer = none }

unfoldable pub cancel_dag : Dags → Ident → Dags × Bool
cancel_dag dags dag_id = elim (get dag_id dags) [
  | none ↦ (dags, false)
  | some st ↦ (
    set dag_id
        (record st {
          is_cancelled = true;
          stages = map_values cancel_stage st.stages;
          artifacts = map_values clean_up st.artifacts;
        })
        dags,
    true,
  )
]

unfoldable pub get_artifact : Dags → Ident → Ident → Option DagArtifact
get_artifact dags dag_id artifact_id = elim (get dag_id dags) [
  | none ↦ none
  | some st ↦ get artifact_id st.artifacts
]

unfoldable pub get_stage : Dags → Ident → Ident → Option DagStage
get_stage dags dag_id stage_id = elim (get dag_id dags) [
  | none ↦ none
  | some st ↦ get stage_id st.stages
]
