-- ===== src/Dag/Once.antt =====
-- The completion of a stage, and one of a stage that is completed.
use swarm_x.Common.{ℕ, ◌≡◌, ◌≢◌, refl, true, some, List, arith, Option-cases, inl, inr}
use swarm_x.Common.Dict.{get, set, get-set}
use swarm_x.Task.{Ident, Text}
use swarm_x.Chunk.Buffer.{Buffer}
use swarm_x.Dag.{DagStageStatus, DagStage, DagState, is_completed}
use swarm_x.Dag.Stages.{Dags}
use swarm_x.Dag.Steps.{complete_stage, finish_stage, succeeded, duplicate_result}
use swarm_x.Dag.Promote.{get-promote-keys}
use swarm_x.Dag.Effects.{Holds}

-- The dependencies and all else of a completed stage are left alone by the loop that makes ready.
pub finish_stage-get :
    (sha256 : Buffer → Text) (st : DagState) (stage : DagStage) (stage_id : Ident) (buf : Buffer)
    (execution_time_ms now : ℕ) (j : Ident) (s : DagStage)
    → get j st.stages ≡ some s
    → is_completed s.status ≡ true
    → stage_id ≢ j
    → get j (finish_stage sha256 st stage stage_id buf execution_time_ms now).0.stages ≡ some s
unfolding finish_stage
finish_stage-get sha256 st stage stage_id buf execution_time_ms now j s there done other =
    let new = record stage {
      status = DagStageStatus.completed;
      execution_time_ms = some execution_time_ms;
    } in
    let mid = set stage_id new st.stages in
    ground (arith, get-promote-keys j mid, get-set stage_id j new st.stages)

pub finish_stage-done :
    (sha256 : Buffer → Text) (st : DagState) (stage : DagStage) (stage_id : Ident) (buf : Buffer)
    (execution_time_ms now : ℕ)
    → (s : DagStage) × (get stage_id
          (finish_stage sha256 st stage stage_id buf execution_time_ms now).0.stages
        ≡ some s)
      × (is_completed s.status ≡ true)
unfolding finish_stage
finish_stage-done sha256 st stage stage_id buf execution_time_ms now =
    let new = record stage {
      status = DagStageStatus.completed;
      execution_time_ms = some execution_time_ms;
    } in
    let mid = set stage_id new st.stages in
    (
      new,
      ground (arith, get-promote-keys stage_id mid, get-set stage_id stage_id new st.stages),
      refl,
    )

pub complete_stage-done :
    (sha256 : Buffer → Text) (dags : Dags) (dag_id stage_id : Ident) (buf : Buffer) (worker : Ident)
    (attempt_number execution_time_ms now : ℕ) (h : Holds dags dag_id stage_id)
    → is_completed h.stage.status ≡ true
    → complete_stage sha256 dags dag_id stage_id buf worker attempt_number execution_time_ms now
      ≡ (dags, duplicate_result)
unfolding complete_stage
complete_stage-done sha256 dags dag_id stage_id buf worker attempt_number execution_time_ms now h
      done =
    ground (arith, h.has_dag, h.has_stage)

pub complete_stage-succeeded :
    (sha256 : Buffer → Text) (dags : Dags) (dag_id stage_id : Ident) (buf : Buffer) (worker : Ident)
    (attempt_number execution_time_ms now : ℕ) (dags' : Dags) (fresh : List DagStage)
    → complete_stage sha256 dags dag_id stage_id buf worker attempt_number execution_time_ms now
      ≡ (dags', succeeded fresh)
    → (h : Holds dags dag_id stage_id) × (h.stage.attempt_number ≡ attempt_number)
      × (dags'
          ≡ set dag_id (finish_stage sha256 h.st h.stage stage_id buf execution_time_ms now).0 dags)
unfolding complete_stage
complete_stage-succeeded sha256 dags dag_id stage_id buf worker attempt_number execution_time_ms now
      dags' fresh e =
    elim (Option-cases (get dag_id dags)) [
      | inl missing ↦ ground arith
      | inr (st, has_dag) ↦ elim (Option-cases (get stage_id st.stages)) [
        | inl missing ↦ ground arith
        | inr (stage, has_stage) ↦ (
          record { st = st; stage = stage; has_dag = has_dag; has_stage = has_stage },
          ground arith,
          ground arith,
        )
      ]
    ]
