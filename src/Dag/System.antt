-- ===== src/Dag/System.antt =====
-- The DAG engine over time: its calls in any order.
use swarm_x.Common.{
  ◌∙◌, ℕ, ◌<◌, ◌≡◌, refl, sym, subst, Bool, true, Option, [], arith, Option-cases, inl, inr, ok,
  >>=-eq-ok,
}
use swarm_x.Common.Dict.{get, set}
use swarm_x.Task.{Ident, Text}
use swarm_x.Chunk.Buffer.{Buffer}
use swarm_x.Dag.{DagStage, DagProgress, WorkloadDagDescriptor, is_completed}
use swarm_x.Dag.Validate.{validate_dag}
use swarm_x.Dag.Stages.{Dags, registered, register_dag}
use swarm_x.Dag.Steps.{
  clean_up, cancel_stage, map_values, assign_stage, complete_stage, fail_stage, finish_stage,
  cancel_dag,
}
use swarm_x.Dag.Invariant.{
  StageOk, DagsOk, DagsOk-set, StagesOk-set, StagesOk-promote, StagesOk-cancel,
}
use swarm_x.Dag.Register.{registered-StagesOk}
use swarm_x.Dag.Effects.{
  with_stage, Holds, failed_stage, assign_stage-eq-ok, complete_stage_cases, fail_stage_cases,
}

-- One call. A completion reports an attempt, which counts from 1, and a failure is of a stage that
-- has been assigned.
pub data Step (sha256 : Buffer → Text) (is_certified : Ident → Bool) (dags dags' : Dags)
    : Type 0 where
  registers :
      (dag : WorkloadDagDescriptor) (now : ℕ) (progress : Option DagProgress)
      → register_dag sha256 is_certified dags dag now ≡ ok (dags', progress)
      → Step sha256 is_certified dags dags'
  assigns :
      (dag_id stage_id worker : Ident) (stage : DagStage)
      → assign_stage dags dag_id stage_id worker ≡ ok (dags', stage)
      → Step sha256 is_certified dags dags'
  completes :
      (dag_id stage_id : Ident) (buf : Buffer) (worker : Ident)
      (attempt_number execution_time_ms now : ℕ)
      → 0 < attempt_number
      → dags'
        ≡ (complete_stage sha256 dags dag_id stage_id buf worker attempt_number execution_time_ms
            now).0
      → Step sha256 is_certified dags dags'
  fails :
      (dag_id stage_id : Ident) (error : Text)
      → ((h : Holds dags dag_id stage_id) → 0 < h.stage.attempt_number)
      → dags' ≡ (fail_stage dags dag_id stage_id error).0
      → Step sha256 is_certified dags dags'
  cancels :
      (dag_id : Ident) → dags' ≡ (cancel_dag dags dag_id).0 → Step sha256 is_certified dags dags'

-- Any number of calls.
pub data Run (sha256 : Buffer → Text) (is_certified : Ident → Bool) (dags : Dags)
    : Dags → Type 0 where
  done : Run sha256 is_certified dags dags
  more :
      {dags' dags'' : Dags}
      → Run sha256 is_certified dags dags'
      → Step sha256 is_certified dags' dags''
      → Run sha256 is_certified dags dags''

module _ (dags : Dags) (all : DagsOk dags) where
  -- One stage is changed.
  with_stage-DagsOk :
      {dag_id stage_id : Ident} (h : Holds dags dag_id stage_id) (stage' : DagStage) (dags' : Dags)
      → is_completed stage'.status ≡ is_completed h.stage.status
      → (StageOk h.st.stages h.stage → StageOk h.st.stages stage')
      → dags' ≡ set dag_id (with_stage h.st stage_id stage') dags
      → DagsOk dags'
  with_stage-DagsOk {dag_id} {stage_id} h stage' dags' same keeps is =
      let stages = all dag_id h.st h.has_dag in
      subst DagsOk (sym is) (
        DagsOk-set dags dag_id (with_stage h.st stage_id stage') all (
          StagesOk-set h.st.stages stage_id h.stage stage' h.has_stage same
            (keeps (stages stage_id h.stage h.has_stage)) stages))

  registers-DagsOk :
      (sha256 : Buffer → Text) (is_certified : Ident → Bool) (dag : WorkloadDagDescriptor) (now : ℕ)
      (dags' : Dags) (progress : Option DagProgress)
      → register_dag sha256 is_certified dags dag now ≡ ok (dags', progress)
      → DagsOk dags'
  unfolding register_dag
  registers-DagsOk sha256 is_certified dag now dags' progress e =
      let (_, _, later) = >>=-eq-ok (validate_dag is_certified dag) _ e in
      let is : set dag.dag_id (registered sha256 dag now) dags ≡ dags' = ground arith in
      subst DagsOk is (
        DagsOk-set dags dag.dag_id (registered sha256 dag now) all
          (registered-StagesOk sha256 dag now))

  completes-DagsOk :
      (sha256 : Buffer → Text) (dag_id stage_id : Ident) (buf : Buffer) (worker : Ident)
      (attempt_number execution_time_ms now : ℕ)
      → 0 < attempt_number
      → DagsOk
          (complete_stage sha256 dags dag_id stage_id buf worker attempt_number execution_time_ms
            now).0
  unfolding finish_stage
  completes-DagsOk sha256 dag_id stage_id buf worker attempt_number execution_time_ms now pos =
      elim (complete_stage_cases sha256 dags dag_id stage_id buf worker attempt_number
        execution_time_ms now) [
          | inl same ↦ subst DagsOk (sym same) all
          | inr (h, undone, mine, current, is) ↦
              let stages = all dag_id h.st h.has_dag in
              let good = stages stage_id h.stage h.has_stage in
              subst DagsOk (sym is) (
                DagsOk-set dags dag_id _ all (
                  StagesOk-promote h.st.stages stage_id h.stage _ h.has_stage refl
                    (ground (arith, good.attempted, good.bounded)) stages))
        ]

  cancels-DagsOk : (dag_id : Ident) → DagsOk (cancel_dag dags dag_id).0
  unfolding cancel_dag
  cancels-DagsOk dag_id = elim (Option-cases (get dag_id dags)) [
    | inl missing ↦
        let same : (cancel_dag dags dag_id).0 ≡ dags = ground arith in subst DagsOk (sym same) all
    | inr (st, there) ↦
        let st' = record st {
          is_cancelled = true;
          stages = map_values cancel_stage st.stages;
          artifacts = map_values clean_up st.artifacts;
        } in
        let is : (cancel_dag dags dag_id).0 ≡ set dag_id st' dags = ground arith in
        subst DagsOk (sym is)
          (DagsOk-set dags dag_id st' all (StagesOk-cancel st.stages (all dag_id st there)))
  ]

  Step-DagsOk :
      (sha256 : Buffer → Text) (is_certified : Ident → Bool) (dags' : Dags)
      → Step sha256 is_certified dags dags'
      → DagsOk dags'
  Step-DagsOk sha256 is_certified dags' (registers dag now progress e) =
      registers-DagsOk sha256 is_certified dag now dags' progress e
  Step-DagsOk sha256 is_certified dags' (assigns dag_id stage_id worker stage e) =
      let (h, _, is_ready, is, made) =
        assign_stage-eq-ok dags dag_id stage_id worker dags' stage e in
      with_stage-DagsOk h stage dags' (ground arith)
        (λ good.
          subst (StageOk h.st.stages) (sym is) (ground (arith, good.safe, good.attempts_left)))
        made
  Step-DagsOk sha256 is_certified dags'
        (completes dag_id stage_id buf worker attempt_number execution_time_ms now pos is) =
      subst DagsOk (sym is) (
        completes-DagsOk sha256 dag_id stage_id buf worker attempt_number execution_time_ms now pos)
  Step-DagsOk sha256 is_certified dags' (fails dag_id stage_id error tried is) =
      elim (fail_stage_cases dags dag_id stage_id error) [
        | inl same ↦ subst DagsOk (sym (is ∙ same)) all
        | inr (h, undone, made) ↦
            with_stage-DagsOk h (failed_stage h.stage error) dags' (ground arith)
              (λ good. ground (arith, good.attempted, good.bounded, tried h)) (is ∙ made)
      ]
  Step-DagsOk sha256 is_certified dags' (cancels dag_id is) =
      subst DagsOk (sym is) (cancels-DagsOk dag_id)

-- Whatever calls the engine gets, from the start with no DAG: in each of its DAGs a stage that is
-- READY, RUNNING, COMPLETED or FAILED, or has been tried, has only dependencies that are COMPLETED; a
-- stage that is PENDING has one that is not; a READY stage has an attempt left; and no stage is tried
-- more than three times. Completions report attempts from 1 on, and failures are reported of stages
-- that have been assigned.
pub Run-DagsOk :
    (sha256 : Buffer → Text) (is_certified : Ident → Bool) (dags : Dags)
    → Run sha256 is_certified [] dags
    → DagsOk dags
Run-DagsOk sha256 is_certified dags done = λ id st e. cc
Run-DagsOk sha256 is_certified dags (more {dags'} before step) =
    Step-DagsOk dags' (Run-DagsOk sha256 is_certified dags' before) sha256 is_certified dags step
