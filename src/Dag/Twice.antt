-- ===== src/Dag/Twice.antt =====
-- A stage is completed once, whatever is called in between.
use swarm_x.Common.{
  ℕ, ◌≡◌, refl, sym, subst, Bool, true, false, some, List, arith, Option-cases, inl, inr, ◌||◌,
}
use swarm_x.Common.Dict.{get, get-set}
use swarm_x.Task.{Ident, Text}
use swarm_x.Chunk.Buffer.{Buffer}
use swarm_x.Dag.{DagStage, is_completed}
use swarm_x.Dag.Stages.{Dags}
use swarm_x.Dag.Steps.{get_stage, complete_stage, finish_stage, succeeded, duplicate_result}
use swarm_x.Dag.Effects.{Holds}
use swarm_x.Dag.System.{Run, done, more}
use swarm_x.Dag.Once.{finish_stage-done, complete_stage-done, complete_stage-succeeded}
use swarm_x.Dag.Final.{registers_again, Step-completed}

abbrev pub registered_within :
    {sha256 : Buffer → Text} {is_certified : Ident → Bool} {dags dags' : Dags}
    → Ident
    → Run sha256 is_certified dags dags'
    → Bool
registered_within dag_id done = false
registered_within dag_id (more run step) =
    registered_within dag_id run || registers_again dag_id step

Run-completed :
    (sha256 : Buffer → Text) (is_certified : Ident → Bool) (dags dags' : Dags) (dag_id j : Ident)
    (s : DagStage) (run : Run sha256 is_certified dags dags')
    → get_stage dags dag_id j ≡ some s
    → is_completed s.status ≡ true
    → registered_within dag_id run ≡ false
    → get_stage dags' dag_id j ≡ some s
Run-completed sha256 is_certified dags dags' dag_id j s done there is new = there
Run-completed sha256 is_certified dags dags' dag_id j s (more {dags' = mid} run step) there is new =
    Step-completed sha256 is_certified mid dags' dag_id j s step
      (Run-completed sha256 is_certified dags mid dag_id j s run there is (ground arith)) is
      (ground arith)

get_stage-Holds :
    (dags : Dags) (dag_id j : Ident) (s : DagStage)
    → get_stage dags dag_id j ≡ some s
    → (h : Holds dags dag_id j) × (h.stage ≡ s)
unfolding get_stage
get_stage-Holds dags dag_id j s e = elim (Option-cases (get dag_id dags)) [
  | inl missing ↦ ground arith
  | inr (st, has_dag) ↦
      (record { st = st; stage = s; has_dag = has_dag; has_stage = ground arith }, refl)
]

complete_stage-completed :
    (sha256 : Buffer → Text) (dags : Dags) (dag_id stage_id : Ident) (buf : Buffer) (worker : Ident)
    (attempt_number execution_time_ms now : ℕ) (dags' : Dags) (fresh : List DagStage)
    → complete_stage sha256 dags dag_id stage_id buf worker attempt_number execution_time_ms now
      ≡ (dags', succeeded fresh)
    → (s : DagStage) × (get_stage dags' dag_id stage_id ≡ some s) × (is_completed s.status ≡ true)
unfolding get_stage
complete_stage-completed sha256 dags dag_id stage_id buf worker attempt_number execution_time_ms now
      dags' fresh e =
    let (h, current, is) =
      complete_stage-succeeded sha256 dags dag_id stage_id buf worker attempt_number
        execution_time_ms now dags' fresh e in
    let (s, there, done_now) =
      finish_stage-done sha256 h.st h.stage stage_id buf execution_time_ms now in
    let st' = (finish_stage sha256 h.st h.stage stage_id buf execution_time_ms now).0 in
    (s, ground (arith, is, get-set dag_id dag_id st' dags, there), done_now)

-- A stage is completed once: after a completion that succeeds, and any calls but a new registration of
-- the DAG, a further completion of the same stage, by any worker, for any attempt and with any
-- output, is answered as a duplicate, and changes nothing. The calls between are with the attempts
-- that the engine hands out: a completion names an attempt from 1 on, and a failure is of a stage
-- that was assigned.
pub complete_stage-complete_stage :
    (sha256 : Buffer → Text) (is_certified : Ident → Bool) (dags : Dags) (dag_id stage_id : Ident)
    (buf buf' : Buffer) (worker worker' : Ident)
    (attempt_number attempt_number' execution_time_ms execution_time_ms' now now' : ℕ)
    (dags' dags'' : Dags) (fresh : List DagStage) (between : Run sha256 is_certified dags' dags'')
    → complete_stage sha256 dags dag_id stage_id buf worker attempt_number execution_time_ms now
      ≡ (dags', succeeded fresh)
    → registered_within dag_id between ≡ false
    → complete_stage sha256 dags'' dag_id stage_id buf' worker' attempt_number' execution_time_ms'
        now'
      ≡ (dags'', duplicate_result)
complete_stage-complete_stage sha256 is_certified dags dag_id stage_id buf buf' worker worker'
      attempt_number attempt_number' execution_time_ms execution_time_ms' now now' dags' dags''
      fresh between e new =
    let (s, there, is) =
      complete_stage-completed sha256 dags dag_id stage_id buf worker attempt_number
        execution_time_ms now dags' fresh e in
    let kept =
      Run-completed sha256 is_certified dags' dags'' dag_id stage_id s between there is new in
    let (h, same) = get_stage-Holds dags'' dag_id stage_id s kept in
    complete_stage-done sha256 dags'' dag_id stage_id buf' worker' attempt_number'
      execution_time_ms' now' h (subst (λ x. is_completed x.status ≡ true) (sym same) is)
