-- ===== src/Dag/Final.antt =====
-- A completed stage stays as it is.
use swarm_x.Common.{
  ℕ, ◌≡◌, sym, subst, ◌∙◌, Bool, true, false, Option, some, ◌==◌, arith, Option-cases, inl, inr, ok,
  >>=-eq-ok,
}
use native.Mathlib.Decide.{ℕ_discrete}
use swarm_x.Common.Dict.{get, set, get-set}
use swarm_x.Task.{Ident, Text}
use swarm_x.Chunk.Buffer.{Buffer}
use swarm_x.Dag.{DagStage, DagState, DagProgress, WorkloadDagDescriptor, is_completed}
use swarm_x.Dag.Validate.{validate_dag}
use swarm_x.Dag.Stages.{Dags, registered, register_dag}
use swarm_x.Dag.Steps.{get_stage, cancel_dag, map_values, cancel_stage, clean_up}
use swarm_x.Dag.Effects.{
  Holds, failed_stage, with_stage, assign_stage-eq-ok, complete_stage_cases, fail_stage_cases,
}
use swarm_x.Dag.Invariant.{get-map_values}
use swarm_x.Dag.System.{Step, registers, assigns, completes, fails, cancels}
use swarm_x.Dag.Once.{finish_stage-get}

-- A new registration under the id of the DAG.
abbrev pub registers_again :
    {sha256 : Buffer → Text} {is_certified : Ident → Bool} {dags dags' : Dags}
    → Ident
    → Step sha256 is_certified dags dags'
    → Bool
registers_again dag_id (registers dag _ _ _) = dag.dag_id == dag_id
registers_again dag_id _ = false

module _ (dags : Dags) (dag_id j : Ident) (s : DagStage) (there : get_stage dags dag_id j ≡ some s)
    (done : is_completed s.status ≡ true) where
  abbrev StillThere : Dags → Type 0
  StillThere dags' = get_stage dags' dag_id j ≡ some s

  -- Another state is set for a DAG, in which the stage is as it was if the DAG is the stage's.
  set-StillThere :
      (id : Ident) (st' : DagState)
      → ((st : DagState)
          → id ≡ dag_id
          → get dag_id dags ≡ some st
          → get j st.stages ≡ some s
          → get j st'.stages ≡ some s)
      → StillThere (set id st' dags)
  unfolding get_stage
  set-StillThere id st' keeps = elim (ℕ_discrete id dag_id) [
    | no other ↦ ground (arith, get-set id dag_id st' dags)
    | yes same ↦ elim (Option-cases (get dag_id dags)) [
      | inl missing ↦ ground arith
      | inr (st, has_dag) ↦
          ground (arith, get-set id dag_id st' dags, keeps st same has_dag (ground arith))
    ]
  ]

  -- One stage is changed that was not completed.
  with_stage-StillThere :
      {id stage_id : Ident} (h : Holds dags id stage_id) (stage' : DagStage) (dags' : Dags)
      → is_completed h.stage.status ≡ false
      → dags' ≡ set id (with_stage h.st stage_id stage') dags
      → StillThere dags'
  with_stage-StillThere {id} {stage_id} h stage' dags' undone is = subst StillThere (sym is) (
      set-StillThere id (with_stage h.st stage_id stage') (λ st same has_dag has_stage.
        ground (arith, h.has_dag, h.has_stage, get-set stage_id j stage' h.st.stages)))

  registers-StillThere :
      (sha256 : Buffer → Text) (is_certified : Ident → Bool) (dag : WorkloadDagDescriptor) (now : ℕ)
      (dags' : Dags) (progress : Option DagProgress)
      → register_dag sha256 is_certified dags dag now ≡ ok (dags', progress)
      → (dag.dag_id == dag_id) ≡ false
      → StillThere dags'
  unfolding register_dag
  registers-StillThere sha256 is_certified dag now dags' progress e other =
      let (_, _, later) = >>=-eq-ok (validate_dag is_certified dag) _ e in
      let is : set dag.dag_id (registered sha256 dag now) dags ≡ dags' = ground arith in
      subst StillThere is (
        set-StillThere dag.dag_id (registered sha256 dag now)
          (λ st same has_dag has_stage. ground arith))

  cancels-StillThere : (id : Ident) → StillThere (cancel_dag dags id).0
  unfolding cancel_dag
  cancels-StillThere id = elim (Option-cases (get id dags)) [
    | inl missing ↦
        let same : (cancel_dag dags id).0 ≡ dags = ground arith in subst StillThere (sym same) there
    | inr (st, has_dag) ↦
        let st' = record st {
          is_cancelled = true;
          stages = map_values cancel_stage st.stages;
          artifacts = map_values clean_up st.artifacts;
        } in
        let is : (cancel_dag dags id).0 ≡ set id st' dags = ground arith in
        subst StillThere (sym is) (
          set-StillThere id st' (λ st1 same has_dag1 has_stage.
            ground (arith, get-map_values cancel_stage j st.stages)))
  ]

-- A completed stage keeps its record, its worker and its attempt included, under every call but a new
-- registration of its DAG. The calls are those of the engine with the attempts that it hands out: a
-- completion names an attempt from 1 on, and a failure is of a stage that was assigned.
pub Step-completed :
    (sha256 : Buffer → Text) (is_certified : Ident → Bool) (dags dags' : Dags) (dag_id j : Ident)
    (s : DagStage) (step : Step sha256 is_certified dags dags')
    → get_stage dags dag_id j ≡ some s
    → is_completed s.status ≡ true
    → registers_again dag_id step ≡ false
    → get_stage dags' dag_id j ≡ some s
Step-completed sha256 is_certified dags dags' dag_id j s (registers dag now progress e) there done
      new =
    registers-StillThere dags dag_id j s there done sha256 is_certified dag now dags' progress e new
Step-completed sha256 is_certified dags dags' dag_id j s (assigns id stage_id worker stage e) there
      done new =
    let (h, _, is_ready, _, made) = assign_stage-eq-ok dags id stage_id worker dags' stage e in
    with_stage-StillThere dags dag_id j s there done h stage dags' (ground arith) made
Step-completed sha256 is_certified dags dags' dag_id j s
      (completes id stage_id buf worker attempt_number execution_time_ms now pos is) there done
      new =
    elim (complete_stage_cases sha256 dags id stage_id buf worker attempt_number execution_time_ms
      now) [
        | inl same ↦ subst (StillThere dags dag_id j s there done) (sym (is ∙ same)) there
        | inr (h, undone, _, _, made) ↦
            subst (StillThere dags dag_id j s there done) (sym (is ∙ made)) (
              set-StillThere dags dag_id j s there done id _ (λ st same has_dag has_stage.
                finish_stage-get sha256 h.st h.stage stage_id buf execution_time_ms now j s
                  (ground (arith, h.has_dag)) done (λ e. ground (arith, h.has_dag, h.has_stage))))
      ]
Step-completed sha256 is_certified dags dags' dag_id j s (fails id stage_id error tried is) there
      done new =
    elim (fail_stage_cases dags id stage_id error) [
      | inl same ↦ subst (StillThere dags dag_id j s there done) (sym (is ∙ same)) there
      | inr (h, undone, made) ↦
          with_stage-StillThere dags dag_id j s there done h (failed_stage h.stage error) dags'
            undone (is ∙ made)
    ]
Step-completed sha256 is_certified dags dags' dag_id j s (cancels id is) there done new =
    subst (StillThere dags dag_id j s there done) (sym is)
      (cancels-StillThere dags dag_id j s there done id)
