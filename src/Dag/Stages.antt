-- ===== src/Dag/Stages.antt =====
-- core/src/dag_engine.ts: registration and the life of the stages. The engine is its map `dags`.
use swarm_x.Common.{
  ℕ, suc, ◌+◌, Bool, false, ◌||◌, Option, none, some, List, [], ◌∷◌, ◌==◌, if◌then◌else◌, length,
  Result, ok, ◌>>◌,
}
use swarm_x.Common.Dict.{Dict, get, set, values}
use swarm_x.Task.{Ident, Text}
use swarm_x.Chunk.Buffer.{Buffer}
use swarm_x.Dag.{
  DagStageStatus, DagStage, DagArtifact, DagInput, WorkloadDagDescriptor, DagState, DagProgress,
  is_pending, is_ready, is_running, is_completed, is_failed,
}
use swarm_x.Dag.Validate.{DagValidationError, validate_dag}

abbrev pub Dags : Type 0
Dags = Dict DagState

abbrev pub max_stage_attempts : ℕ
max_stage_attempts = 3

-- The texts `__INPUT__` and `RAW_BINARY`.
abbrev pub input_producer : Ident
input_producer = 1

abbrev pub raw_binary : Text
raw_binary = 1

abbrev pub count_stages : (DagStage → Bool) → List DagStage → ℕ
count_stages p [] = 0
count_stages p (s ∷ stages) = if p s then suc (count_stages p stages) else count_stages p stages

abbrev pub progress_of : Ident → DagState → DagProgress
progress_of dag_id st =
    let stages = values st.stages in
    let completed_stages = count_stages (λ s. is_completed s.status) stages in
    record {
      dag_id = dag_id;
      total_stages = length stages;
      completed_stages = completed_stages;
      running_stages = count_stages (λ s. is_running s.status) stages;
      pending_stages = count_stages (λ s. is_pending s.status || is_ready s.status) stages;
      failed_stages = count_stages (λ s. is_failed s.status) stages;
      is_cancelled = st.is_cancelled;
      is_completed = completed_stages == length stages;
    }

unfoldable pub get_dag_progress : Dags → Ident → Option DagProgress
get_dag_progress dags dag_id = elim (get dag_id dags) [
  | none ↦ none
  | some st ↦ some (progress_of dag_id st)
]

-- `art.referenceCount++` for each reference that the map has.
unfoldable pub count_references : List Ident → Dict DagArtifact → Dict DagArtifact
count_references [] artifacts = artifacts
count_references (r ∷ refs) artifacts = count_references refs (elim (get r artifacts) [
  | none ↦ artifacts
  | some art ↦ set r (record art { reference_count = art.reference_count + 1 }) artifacts
])

unfoldable pub count_all_references : List DagStage → Dict DagArtifact → Dict DagArtifact
unfolding count_references
count_all_references [] artifacts = artifacts
count_all_references (stage ∷ stages) artifacts =
    count_all_references stages (count_references stage.input_artifact_refs artifacts)

abbrev pub initial_stage : DagStage → DagStage
initial_stage stage = record stage {
  status = if length stage.dependencies == 0 then DagStageStatus.ready else DagStageStatus.pending;
  attempt_number = 0;
}

unfoldable pub initial_stages : List DagStage → Dict DagStage → Dict DagStage
initial_stages [] stages = stages
initial_stages (stage ∷ rest) stages =
    initial_stages rest (set stage.stage_id (initial_stage stage) stages)

-- `crypto.createHash('sha256').update(buf).digest('hex')` is the argument `sha256`.
module _ (sha256 : Buffer → Text) where
  abbrev pub input_artifact : ℕ → DagInput → DagArtifact
  input_artifact now input = record {
    artifact_id = input.artifact_id;
    producing_stage_id = input_producer;
    size_bytes = input.size_bytes;
    format = input.format;
    checksum_sha256 = elim input.data_buffer [ none ↦ none | some b ↦ some (sha256 b) ];
    data_buffer = input.data_buffer;
    reference_count = 0;
    is_cleaned_up = false;
    created_at_ms = now;
  }

  unfoldable pub input_artifacts_of : ℕ → List DagInput → Dict DagArtifact → Dict DagArtifact
  input_artifacts_of now [] artifacts = artifacts
  input_artifacts_of now (input ∷ inputs) artifacts =
      input_artifacts_of now inputs (set input.artifact_id (input_artifact now input) artifacts)

  unfoldable pub registered : WorkloadDagDescriptor → ℕ → DagState
  unfolding input_artifacts_of count_all_references initial_stages
  registered dag now = record {
    descriptor = dag;
    stages = initial_stages dag.stages [];
    artifacts = count_all_references dag.stages (input_artifacts_of now dag.input_artifacts []);
    is_cancelled = false;
    created_at_ms = now;
    completed_at_ms = none;
  }

  unfoldable pub register_dag :
      (is_certified : Ident → Bool)
      → Dags
      → WorkloadDagDescriptor
      → ℕ
      → Result DagValidationError (Dags × Option DagProgress)
  unfolding get_dag_progress registered
  register_dag is_certified dags dag now = do
    validate_dag is_certified dag
    let dags' = set dag.dag_id (registered dag now) dags
    ok (dags', get_dag_progress dags' dag.dag_id)
