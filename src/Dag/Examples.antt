-- ===== src/Dag/Examples.antt =====
-- Tests of the DAG engine on two stages, and each theorem about it applied there.
use swarm_x.Common.{false, ◌≡◌, refl, Bool, true, none, some, List, [], ◌∷◌, arith, ok}
use swarm_x.Common.Dict.{get, set}
use swarm_x.Task.{Ident, Text}
use swarm_x.Chunk.Buffer.{Buffer}
use swarm_x.Graph.Search.{has_cycle, scan_parents, check_all}
use swarm_x.Graph.Reach.{here, step, Ends, IsOnCycle}
use swarm_x.Dag.{DagStageStatus, DagStage, WorkloadDagDescriptor, DagState}
use swarm_x.Dag.Validate.{
  stage_graph, validate_dag, collect_names, check_references, all_known, detect_cycles,
}
use swarm_x.Dag.Stages.{
  Dags, registered, register_dag, get_dag_progress, input_artifacts_of, count_all_references,
  initial_stages,
}
use swarm_x.Dag.Loops.{all_done, release, promote, newly_ready}
use swarm_x.Dag.Steps.{
  cancel_dag, get_stage, assign_stage, complete_stage, fail_stage, finish_stage, succeeded,
  duplicate_result,
}
use swarm_x.Dag.Invariant.{DagsOk}
use swarm_x.Dag.System.{Run, done, more, registers, assigns, completes, cancels, Run-DagsOk}
use swarm_x.Dag.Acyclic.{register_dag-acyclic}
use swarm_x.Dag.Failed.{assign_stage-fail_stage}
use swarm_x.Dag.Twice.{complete_stage-complete_stage}
use swarm_x.Dag.Final.{Step-completed}

abbrev sha256 : Buffer → Text
sha256 buf = 77

abbrev is_certified : Ident → Bool
is_certified kernel = true

abbrev stage_on : Ident → List Ident → List Ident → Ident → DagStage
stage_on id deps inputs output = record {
  stage_id = id;
  kernel_id = 3;
  parameters = 0;
  dependencies = deps;
  input_artifact_refs = inputs;
  output_artifact_ref = output;
  status = DagStageStatus.pending;
  assigned_worker_id = none;
  attempt_number = 0;
  execution_time_ms = none;
  error = none;
}

abbrev dag_of : List DagStage → WorkloadDagDescriptor
dag_of stages = record {
  dag_id = 5;
  version = 1;
  stages = stages;
  input_artifacts = [];
  output_artifact_refs = [];
}

-- The second stage works on what the first makes.
abbrev chain : WorkloadDagDescriptor
chain = dag_of (stage_on 1 [] [] 11 ∷ stage_on 2 (1 ∷ []) (11 ∷ []) 12 ∷ [])

abbrev circle : WorkloadDagDescriptor
circle = dag_of (stage_on 1 (2 ∷ []) [] 11 ∷ stage_on 2 (1 ∷ []) [] 12 ∷ [])

abbrev at_start : Dags
at_start = set 5 (registered sha256 chain 10) []

-- The first stage is with the worker 7.
abbrev first_running : DagStage
first_running = record (stage_on 1 [] [] 11) {
  status = DagStageStatus.running;
  assigned_worker_id = some 7;
  attempt_number = 1;
}

abbrev first_completed : DagStage
first_completed = record first_running {
  status = DagStageStatus.completed;
  execution_time_ms = some 40;
}

registers_chain :
    register_dag sha256 is_certified [] chain 10 ≡ ok (at_start, get_dag_progress at_start 5)
unfolding register_dag validate_dag collect_names check_references all_known detect_cycles has_cycle
    scan_parents check_all
registers_chain = refl

register_dag-acyclic_example :
    Ends (stage_graph chain.stages) 1 × ¬ IsOnCycle (stage_graph chain.stages) 1
register_dag-acyclic_example =
    register_dag-acyclic sha256 is_certified [] chain 10 at_start (get_dag_progress at_start 5) 2 1
      registers_chain refl (step {m = 2} here refl)

abbrev with_first : DagStage → Dags
with_first stage =
    set 5
      (record (registered sha256 chain 10) {
        stages = set 1 stage (registered sha256 chain 10).stages;
      })
      []

assigns_first : assign_stage at_start 5 1 7 ≡ ok (with_first first_running, first_running)
unfolding assign_stage registered initial_stages
assigns_first = refl

-- The engine after the completion of the first stage.
abbrev at_end : Dags
at_end = (complete_stage sha256 (with_first first_running) 5 1 (8 ∷ 9 ∷ []) 7 1 40 50).0

abbrev state_at_end : DagState
state_at_end =
    (finish_stage sha256
      (record (registered sha256 chain 10) {
        stages = set 1 first_running (registered sha256 chain 10).stages;
      })
      first_running 1 (8 ∷ 9 ∷ []) 40 50).0

abbrev second_ready : DagStage
second_ready = record (stage_on 2 (1 ∷ []) (11 ∷ []) 12) { status = DagStageStatus.ready }

completes_first :
    complete_stage sha256 (with_first first_running) 5 1 (8 ∷ 9 ∷ []) 7 1 40 50
    ≡ (at_end, succeeded (second_ready ∷ []))
unfolding complete_stage finish_stage release promote newly_ready registered initial_stages
    count_all_references input_artifacts_of
completes_first = refl

abbrev first_calls : Run sha256 is_certified [] (with_first first_running)
first_calls =
    more (more done (registers chain 10 (get_dag_progress at_start 5) registers_chain))
      (assigns 5 1 7 first_running assigns_first)

abbrev calls : Run sha256 is_certified [] at_end
calls = more first_calls (completes 5 1 (8 ∷ 9 ∷ []) 7 1 40 50 (omega arith) refl)

-- The DAG is cancelled after the completion.
abbrev cancelled : Dags
cancelled = (cancel_dag at_end 5).0

abbrev cancellation : Run sha256 is_certified at_end cancelled
cancellation = more done (cancels 5 refl)

Run-DagsOk_example : DagsOk at_end
Run-DagsOk_example = Run-DagsOk sha256 is_certified at_end calls

complete_stage-complete_stage_example :
    complete_stage sha256 cancelled 5 1 (6 ∷ []) 8 1 41 60 ≡ (cancelled, duplicate_result)
complete_stage-complete_stage_example =
    complete_stage-complete_stage sha256 is_certified (with_first first_running) 5 1 (8 ∷ 9 ∷ [])
      (6 ∷ []) 7 8 1 1 40 41 50 60 at_end cancelled (second_ready ∷ []) cancellation completes_first
      refl

-- The second stage is PENDING when the failure is reported, and the first is not completed.
assign_stage-fail_stage_example :
    let before = with_first first_running in
    (dags' : Dags) × (st' : DagState) × (s' : DagStage) × (assign_stage
        (fail_stage before 5 2 4).0
        5
        2
        9
      ≡ ok (dags', s'))
    × (get 5 dags' ≡ some st')
    × (get 2 st'.stages ≡ some s')
    × (s'.status ≡ DagStageStatus.running)
    × (all_done st'.stages s'.dependencies ≡ false)
unfolding registered initial_stages
assign_stage-fail_stage_example =
    assign_stage-fail_stage (with_first first_running) 5 2 9 4
      (record (registered sha256 chain 10) {
        stages = set 1 first_running (registered sha256 chain 10).stages;
      })
      (stage_on 2 (1 ∷ []) (11 ∷ []) 12)
      (Run-DagsOk sha256 is_certified (with_first first_running) first_calls) refl refl refl refl

Step-completed_example :
    get_stage (cancel_dag (with_first first_completed) 5).0 5 1 ≡ some first_completed
unfolding get_stage registered initial_stages
Step-completed_example =
    Step-completed sha256 is_certified (with_first first_completed)
      (cancel_dag (with_first first_completed) 5).0 5 1 first_completed (cancels 5 refl) refl refl
      refl
