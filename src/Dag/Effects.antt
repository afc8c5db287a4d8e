-- ===== src/Dag/Effects.antt =====
-- What a call of the DAG engine that changes it has found and written.
use swarm_x.Common.{
  ℕ, ◌+◌, ◌≡◌, false, none, some, ◌==◌, ltb, if◌then◌else◌, arith, Option-cases, Bool-cases, ◌⊎◌,
  inl, inr, ok, ==_iff,
}
use swarm_x.Common.Dict.{get, set}
use swarm_x.Task.{Ident, Text}
use swarm_x.Chunk.Buffer.{Buffer}
use swarm_x.Dag.{DagStageStatus, DagStage, DagState, is_completed}
use swarm_x.Dag.Stages.{Dags, max_stage_attempts}
use swarm_x.Dag.Steps.{assign_stage, complete_stage, fail_stage, finish_stage, other_worker}

-- The stage of a DAG, as the engine has it.
pub record Holds (dags : Dags) (dag_id stage_id : Ident) : Type 0 where
  pub st : DagState
  pub stage : DagStage
  pub has_dag : get dag_id dags ≡ some st
  pub has_stage : get stage_id st.stages ≡ some stage

abbrev pub running_stage : DagStage → Ident → DagStage
running_stage stage worker = record stage {
  status = DagStageStatus.running;
  assigned_worker_id = some worker;
  attempt_number = stage.attempt_number + 1;
}

abbrev pub failed_stage : DagStage → Text → DagStage
failed_stage stage error =
    if ltb stage.attempt_number max_stage_attempts
    then record stage {
      error = some error;
      status = DagStageStatus.ready;
      assigned_worker_id = none;
    }
    else record stage { error = some error; status = DagStageStatus.failed }

abbrev pub with_stage : DagState → Ident → DagStage → DagState
with_stage st stage_id stage = record st { stages = set stage_id stage st.stages }

pub assign_stage-eq-ok :
    (dags : Dags) (dag_id stage_id worker : Ident) (dags' : Dags) (stage' : DagStage)
    → assign_stage dags dag_id stage_id worker ≡ ok (dags', stage')
    → (h : Holds dags dag_id stage_id) × (h.st.is_cancelled ≡ false)
      × (h.stage.status ≡ DagStageStatus.ready)
      × (stage' ≡ running_stage h.stage worker)
      × (dags' ≡ set dag_id (with_stage h.st stage_id stage') dags)
unfolding assign_stage
assign_stage-eq-ok dags dag_id stage_id worker dags' stage' e =
    elim (Option-cases (get dag_id dags)) [
      | inl missing ↦ ground arith
      | inr (st, has_dag) ↦ elim (Option-cases (get stage_id st.stages)) [
        | inl missing ↦ ground arith
        | inr (stage, has_stage) ↦ (
          record { st = st; stage = stage; has_dag = has_dag; has_stage = has_stage },
          ground arith,
          ground arith,
          ground arith,
          ground arith,
        )
      ]
    ]

-- A completion leaves the engine as it was, or passes the guards and finishes the stage.
pub complete_stage_cases :
    (sha256 : Buffer → Text) (dags : Dags) (dag_id stage_id : Ident) (buf : Buffer) (worker : Ident)
    (attempt_number execution_time_ms now : ℕ)
    → let (dags', outcome) =
        complete_stage sha256 dags dag_id stage_id buf worker attempt_number execution_time_ms
          now in
      (dags' ≡ dags)
      ⊎ ((h : Holds dags dag_id stage_id) × (is_completed h.stage.status ≡ false)
          × (other_worker h.stage worker ≡ false)
          × (h.stage.attempt_number ≡ attempt_number)
          × (dags'
              ≡ set dag_id
                  (finish_stage sha256 h.st h.stage stage_id buf execution_time_ms now).0
                  dags))
unfolding complete_stage
complete_stage_cases sha256 dags dag_id stage_id buf worker attempt_number execution_time_ms now =
    elim (Option-cases (get dag_id dags)) [
      | inl missing ↦ inl (ground arith)
      | inr (st, has_dag) ↦ elim (Option-cases (get stage_id st.stages)) [
        | inl missing ↦ inl (ground arith)
        | inr (stage, has_stage) ↦ elim (Bool-cases (is_completed stage.status)) [
          | inl done ↦ inl (ground arith)
          | inr undone ↦ elim (Bool-cases (other_worker stage worker)) [
            | inl stale ↦ inl (ground arith)
            | inr mine ↦ elim (Bool-cases (stage.attempt_number == attempt_number)) [
              | inr stale ↦ inl (ground arith)
              | inl current ↦ inr (
                record { st = st; stage = stage; has_dag = has_dag; has_stage = has_stage },
                undone,
                mine,
                (==_iff stage.attempt_number attempt_number).0 current,
                ground arith,
              )
            ]
          ]
        ]
      ]
    ]

pub fail_stage_cases :
    (dags : Dags) (dag_id stage_id : Ident) (error : Text)
    → let dags' = (fail_stage dags dag_id stage_id error).0 in
      (dags' ≡ dags)
      ⊎ ((h : Holds dags dag_id stage_id) × (is_completed h.stage.status ≡ false)
          × (dags' ≡ set dag_id (with_stage h.st stage_id (failed_stage h.stage error)) dags))
unfolding fail_stage
fail_stage_cases dags dag_id stage_id error = elim (Option-cases (get dag_id dags)) [
  | inl missing ↦ inl (ground arith)
  | inr (st, has_dag) ↦ elim (Option-cases (get stage_id st.stages)) [
    | inl missing ↦ inl (ground arith)
    | inr (stage, has_stage) ↦ elim (Bool-cases (is_completed stage.status)) [
      | inl done ↦ inl (ground arith)
      | inr undone ↦ inr (
        record { st = st; stage = stage; has_dag = has_dag; has_stage = has_stage },
        undone,
        ground arith,
      )
    ]
  ]
]
