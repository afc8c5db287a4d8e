-- ===== src/Dag/Failed.antt =====
-- What a failure that is reported for a stage that waits lets happen.
use swarm_x.Common.{none, ◌+◌, ◌<◌, ◌≡◌, refl, sym, subst, ◌∙◌, true, false, some, arith, ok}
use swarm_x.Common.Dict.{Dict, get, set, get-set}
use swarm_x.Task.{Ident, Text}
use swarm_x.Dag.{DagStageStatus, DagStage, DagState, is_completed, is_pending}
use swarm_x.Dag.Stages.{Dags, max_stage_attempts}
use swarm_x.Dag.Loops.{is_done, all_done}
use swarm_x.Dag.Steps.{assign_stage, fail_stage}
use swarm_x.Dag.Promote.{all_done-same}
use swarm_x.Dag.Effects.{with_stage}
use swarm_x.Dag.Invariant.{DagsOk}

-- A stage that is not completed is changed into one that is not.
is_done-set :
    (stages : Dict DagStage) (i d : Ident) (s s' : DagStage)
    → get i stages ≡ some s
    → is_completed s.status ≡ false
    → is_completed s'.status ≡ false
    → is_done (set i s' stages) d ≡ is_done stages d
is_done-set stages i d s s' there undone undone' = ground (arith, get-set i d s' stages)

module _ (dags : Dags) (dag_id stage_id worker : Ident) (error : Text) (st : DagState)
    (s : DagStage) where
  -- The stage after the failure, and after the assignment.
  abbrev readied : DagStage
  readied = record s {
    error = some error;
    status = DagStageStatus.ready;
    assigned_worker_id = none;
  }

  abbrev started : DagStage
  started = record readied {
    status = DagStageStatus.running;
    assigned_worker_id = some worker;
    attempt_number = s.attempt_number + 1;
  }

  abbrev failed_st : DagState
  failed_st = with_stage st stage_id readied

  abbrev started_st : DagState
  started_st = with_stage failed_st stage_id started

  fail_stage-readied :
      get dag_id dags ≡ some st
      → get stage_id st.stages ≡ some s
      → s.status ≡ DagStageStatus.pending
      → s.attempt_number < max_stage_attempts
      → (fail_stage dags dag_id stage_id error).0 ≡ set dag_id failed_st dags
  unfolding fail_stage
  fail_stage-readied has_dag has_stage waits left = ground arith

  assign_stage-started :
      st.is_cancelled ≡ false
      → assign_stage (set dag_id failed_st dags) dag_id stage_id worker
        ≡ ok (set dag_id started_st (set dag_id failed_st dags), started)
  unfolding assign_stage
  assign_stage-started alive =
      ground
        (arith, get-set dag_id dag_id failed_st dags, get-set stage_id stage_id readied st.stages)

  all_done-started :
      get stage_id st.stages ≡ some s
      → s.status ≡ DagStageStatus.pending
      → all_done started_st.stages s.dependencies ≡ all_done st.stages s.dependencies
  all_done-started has_stage waits =
      let undone : is_completed s.status ≡ false = rw waits refl in
      let once = λ (d : Ident). is_done-set st.stages stage_id d s readied has_stage undone refl in
      let readied_there : get stage_id failed_st.stages ≡ some readied =
        ground (arith, get-set stage_id stage_id readied st.stages) in
      let twice = λ (d : Ident).
        is_done-set failed_st.stages stage_id d readied started readied_there refl refl in
      all_done-same st.stages started_st.stages s.dependencies (λ d. twice d ∙ once d)

-- A failure that is reported for a PENDING stage lets the stage run before its dependencies are
-- completed: it can be assigned after the failure, to any worker, and is RUNNING then while some
-- dependency of it is not completed. The invariant of the engine holds before the failure, and the
-- DAG is not cancelled.
pub assign_stage-fail_stage :
    (dags : Dags) (dag_id stage_id worker : Ident) (error : Text) (st : DagState) (s : DagStage)
    → DagsOk dags
    → get dag_id dags ≡ some st
    → st.is_cancelled ≡ false
    → get stage_id st.stages ≡ some s
    → s.status ≡ DagStageStatus.pending
    → (dags' : Dags) × (st' : DagState) × (s' : DagStage) × (assign_stage
          (fail_stage dags dag_id stage_id error).0
          dag_id
          stage_id
          worker
        ≡ ok (dags', s'))
      × (get dag_id dags' ≡ some st')
      × (get stage_id st'.stages ≡ some s')
      × (s'.status ≡ DagStageStatus.running)
      × (all_done st'.stages s'.dependencies ≡ false)
assign_stage-fail_stage dags dag_id stage_id worker error st s good has_dag alive has_stage waits =
    let stage_ok = good dag_id st has_dag stage_id s has_stage in
    let pending : is_pending s.status ≡ true = rw waits refl in
    let left : s.attempt_number < max_stage_attempts = omega (arith, stage_ok.untried pending) in
    let fresh = started dags dag_id stage_id worker error st s in
    let st' = started_st dags dag_id stage_id worker error st s in
    let mid = failed_st dags dag_id stage_id worker error st s in
    let readied_there =
      fail_stage-readied dags dag_id stage_id worker error st s has_dag has_stage waits left in
    let assigned = assign_stage-started dags dag_id stage_id worker error st s alive in
    (
      set dag_id st' (set dag_id mid dags),
      st',
      fresh,
      subst
          (λ d.
            assign_stage d dag_id stage_id worker
            ≡ ok (set dag_id st' (set dag_id mid dags), fresh))
          (sym readied_there) assigned,
      ground (arith, get-set dag_id dag_id st' (set dag_id mid dags)),
      ground (arith, get-set stage_id stage_id fresh mid.stages),
      refl,
      all_done-started dags dag_id stage_id worker error st s has_stage waits
          ∙ stage_ok.waits pending,
    )
