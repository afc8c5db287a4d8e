-- ===== src/Dag/Loops.antt =====
-- core/src/dag_engine.ts: the loops of `completeStage` over artifacts and over stages.
use swarm_x.Common.{◌-◌, Bool, true, false, ◌&&◌, none, some, List, [], ◌∷◌, ◌==◌, if◌then◌else◌}
use swarm_x.Common.Dict.{Dict, get, set}
use swarm_x.Task.{Ident}
use swarm_x.Dag.{DagStageStatus, DagStage, DagArtifact, is_pending, is_completed}
use swarm_x.Dag.Stages.{input_producer}

-- One round of the loop over `stage.inputArtifactRefs`.
abbrev pub release_one : Ident → Dict DagArtifact → Dict DagArtifact
release_one r artifacts = elim (get r artifacts) [
  | none ↦ artifacts
  | some art ↦
      if art.producing_stage_id == input_producer
      then artifacts
      else let left = art.reference_count - 1 in
        set r
          (record art {
            reference_count = left;
            is_cleaned_up = if left == 0 then true else art.is_cleaned_up;
            data_buffer = if left == 0 then none else art.data_buffer;
          })
          artifacts
]

unfoldable pub release : List Ident → Dict DagArtifact → Dict DagArtifact
release [] artifacts = artifacts
release (r ∷ refs) artifacts = release refs (release_one r artifacts)

-- `depStage && depStage.status === 'COMPLETED'`.
abbrev pub is_done : Dict DagStage → Ident → Bool
is_done stages d = elim (get d stages) [ none ↦ false | some s ↦ is_completed s.status ]

abbrev pub all_done : Dict DagStage → List Ident → Bool
all_done stages [] = true
all_done stages (d ∷ deps) = is_done stages d && all_done stages deps

abbrev pub make_ready : DagStage → DagStage
make_ready s = record s { status = DagStageStatus.ready }

-- One round of the loop over the stages, for the stage under a key.
abbrev pub promotes : Dict DagStage → DagStage → Bool
promotes stages s = is_pending s.status && all_done stages s.dependencies

abbrev pub promote_one : Ident → Dict DagStage → Dict DagStage
promote_one id stages = elim (get id stages) [
  | none ↦ stages
  | some s ↦ if promotes stages s then set id (make_ready s) stages else stages
]

abbrev pub newly_ready_one : Ident → Dict DagStage → List DagStage → List DagStage
newly_ready_one id stages rest = elim (get id stages) [
  | none ↦ rest
  | some s ↦ if promotes stages s then make_ready s ∷ rest else rest
]

unfoldable pub promote : List Ident → Dict DagStage → Dict DagStage
promote [] stages = stages
promote (id ∷ ids) stages = promote ids (promote_one id stages)

unfoldable pub newly_ready : List Ident → Dict DagStage → List DagStage
newly_ready [] stages = []
newly_ready (id ∷ ids) stages = newly_ready_one id stages (newly_ready ids (promote_one id stages))

abbrev pub keys {ℓ} : {V : Type ℓ} → Dict V → List Ident
keys [] = []
keys ((id, v) ∷ d) = id ∷ keys d

abbrev pub all_completed : List DagStage → Bool
all_completed [] = true
all_completed (s ∷ stages) = is_completed s.status && all_completed stages
