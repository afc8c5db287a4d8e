-- ===== src/Dag/Progress.antt =====
-- The counts of `getDagProgress`.
use swarm_x.Common.{
  ◌+◌, ◌≤◌, ◌≡◌, refl, Bool, true, false, ◌||◌, some, List, [], ◌∷◌, ◌==◌, arith, length,
}
use swarm_x.Common.Dict.{get, values}
use swarm_x.Task.{Ident}
use swarm_x.Dag.{
  DagStageStatus, DagStage, DagState, DagProgress, is_pending, is_ready, is_running, is_completed,
  is_failed,
}
use swarm_x.Dag.Stages.{Dags, count_stages, progress_of, get_dag_progress}
use swarm_x.Dag.Loops.{all_completed}

abbrev pub is_cancelled_stage : DagStage → Bool
is_cancelled_stage s = elim s.status [ DagStageStatus.cancelled ↦ true | _ ↦ false ]

count_stages-total :
    (stages : List DagStage)
    → count_stages (λ s. is_completed s.status) stages
        + count_stages (λ s. is_running s.status) stages
        + count_stages (λ s. is_pending s.status || is_ready s.status) stages
        + count_stages (λ s. is_failed s.status) stages
        + count_stages is_cancelled_stage stages
      ≡ length stages
count_stages-total [] = refl
count_stages-total (s ∷ stages) = ground (arith, count_stages-total stages)

count_stages-le :
    (stages : List DagStage) → count_stages (λ s. is_completed s.status) stages ≤ length stages
count_stages-le [] = omega arith
count_stages-le (s ∷ stages) = ground (arith, count_stages-le stages)

count_stages-all :
    (stages : List DagStage)
    → (count_stages (λ s. is_completed s.status) stages == length stages) ≡ all_completed stages
count_stages-all [] = ground arith
count_stages-all (s ∷ stages) = ground (arith, count_stages-all stages, count_stages-le stages)

-- For a DAG of the engine there is progress to report. Its counts, with the cancelled stages, add up to
-- the number of stages, and it is completed exactly when the test of `complete_stage` for the end of
-- the DAG holds.
pub get_dag_progress-total :
    (dags : Dags) (dag_id : Ident) (st : DagState)
    → get dag_id dags ≡ some st
    → (p : DagProgress) × (get_dag_progress dags dag_id ≡ some p)
      × (p.completed_stages
            + p.running_stages
            + p.pending_stages
            + p.failed_stages
            + count_stages is_cancelled_stage (values st.stages)
          ≡ p.total_stages)
      × (p.is_completed ≡ all_completed (values st.stages))
unfolding get_dag_progress
get_dag_progress-total dags dag_id st there = (
  progress_of dag_id st,
  ground (arith, there),
  count_stages-total (values st.stages),
  count_stages-all (values st.stages),
)
