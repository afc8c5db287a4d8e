-- ===== src/Dag/Validate.antt =====
-- core/src/dag_engine.ts, `validateDag` and `detectCycles`.
use swarm_x.Common.{
  Bool, not, List, [], ◌∷◌, ◌==◌, if◌then◌else◌, length, includes, Result, ok, err, ◌>>=◌, ◌>>◌,
  throw_if,
}
use swarm_x.Common.Dict.{Dict}
use swarm_x.Task.{Ident}
use swarm_x.Graph.Search.{Verdict, cycle, clear, out_of_fuel, set_all, check_all}
use swarm_x.Dag.{DagStage, DagInput, WorkloadDagDescriptor}

-- The error of a cycle carries the path that closes; the code's text names the stage where the
-- search began.
pub data DagValidationError : Type 0 where
  missing_dag_id no_stages missing_stage_id : DagValidationError
  duplicate_stage_id not_certified : Ident → DagValidationError
  missing_stage missing_artifact : (stage missing : Ident) → DagValidationError
  cyclic_stages : (path : List Ident) → DagValidationError
  search_unfinished : DagValidationError
  missing_output : Ident → DagValidationError

-- `stageIds` and `producedArtifacts`.
pub record Names : Type 0 where
  pub stage_ids : List Ident
  pub produced_artifacts : List Ident

abbrev pub input_ids : List DagInput → List Ident
input_ids [] = []
input_ids (input ∷ inputs) = input.artifact_id ∷ input_ids inputs

abbrev pub stage_entries : List DagStage → List (Ident × List Ident)
stage_entries [] = []
stage_entries (stage ∷ stages) = (stage.stage_id, stage.dependencies) ∷ stage_entries stages

abbrev pub stage_ids_of : List DagStage → List Ident
stage_ids_of [] = []
stage_ids_of (stage ∷ stages) = stage.stage_id ∷ stage_ids_of stages

-- The loop over the references of one stage: all must be in the set.
unfoldable pub all_known :
    List Ident → (Ident → DagValidationError) → List Ident → Result DagValidationError (Unit {0})
all_known known error [] = ok tt
all_known known error (r ∷ refs) =
    throw_if (not (includes known r)) (error r) >> all_known known error refs

unfoldable pub check_references : Names → List DagStage → Result DagValidationError (Unit {0})
unfolding all_known
check_references names [] = ok tt
check_references names (stage ∷ stages) = do
  all_known names.stage_ids (missing_stage stage.stage_id) stage.dependencies
  all_known names.produced_artifacts (missing_artifact stage.stage_id) stage.input_artifact_refs
  check_references names stages

abbrev pub stage_graph : List DagStage → Dict (List Ident)
stage_graph stages = set_all (stage_entries stages) []

abbrev pub cycle_result : Verdict → Result DagValidationError (Unit {0})
cycle_result (cycle path) = err (cyclic_stages path)
cycle_result (clear visited) = ok tt
cycle_result out_of_fuel = err search_unfinished

unfoldable pub detect_cycles : List DagStage → Result DagValidationError (Unit {0})
detect_cycles stages = cycle_result (check_all (stage_graph stages) (stage_ids_of stages) [])

-- `KernelRegistry.isCertified` is the argument `is_certified`.
module _ (is_certified : Ident → Bool) where
  -- The first loop over the stages.
  unfoldable pub collect_names : List DagStage → Names → Result DagValidationError Names
  collect_names [] names = ok names
  collect_names (stage ∷ stages) names = do
    throw_if (stage.stage_id == 0) missing_stage_id
    throw_if (includes names.stage_ids stage.stage_id) (duplicate_stage_id stage.stage_id)
    throw_if (not (is_certified stage.kernel_id)) (not_certified stage.kernel_id)
    let made = names.produced_artifacts
    collect_names stages (record {
      stage_ids = stage.stage_id ∷ names.stage_ids;
      produced_artifacts =
          if stage.output_artifact_ref == 0 then made else stage.output_artifact_ref ∷ made;
    })

  unfoldable pub validate_dag : WorkloadDagDescriptor → Result DagValidationError (Unit {0})
  unfolding collect_names check_references detect_cycles all_known
  validate_dag dag = do
    throw_if (dag.dag_id == 0) missing_dag_id
    throw_if (length dag.stages == 0) no_stages
    names ←
        collect_names dag.stages
          (record { stage_ids = []; produced_artifacts = input_ids dag.input_artifacts })
    check_references names dag.stages
    detect_cycles dag.stages
    all_known names.produced_artifacts missing_output dag.output_artifact_refs
