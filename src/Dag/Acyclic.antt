-- ===== src/Dag/Acyclic.antt =====
-- `validateDag` accepts no cycle, and always comes to an end.
use swarm_x.Common.{
  ◌⊎◌, ℕ, ◌≡◌, ◌≢◌, refl, Bool, true, Option, some, List, [], ◌∷◌, ◌==◌, includes, arith,
  Bool-cases, inl, inr, ok, err, >>=-eq-ok, >>=-eq-err,
}
use swarm_x.Common.Dict.{Dict, get, set, get-set}
use swarm_x.Task.{Ident, Text}
use swarm_x.Chunk.Buffer.{Buffer}
use swarm_x.Graph.Search.{Verdict, cycle, clear, out_of_fuel, check_all, set_all}
use swarm_x.Graph.Reach.{Ends, Reach, IsOnCycle, Ends-Reach, Ends-not_cyclic}
use swarm_x.Graph.Complete.{check_all-Ends}
use swarm_x.Graph.Sound.{check_all-SomeCycle}
use swarm_x.Graph.Fuel.{check_all_lasts, nodes_of-key}
use swarm_x.Dag.{DagStage, DagProgress, WorkloadDagDescriptor}
use swarm_x.Dag.Validate.{
  cyclic_stages, search_unfinished, stage_entries, stage_ids_of, stage_graph, cycle_result,
  detect_cycles, validate_dag,
}
use swarm_x.Dag.Stages.{Dags, register_dag}
use swarm_x.Dag.Errors.{validate_dag-eq-err, validate_dag-eq-ok}

-- The keys of the graph are the ids of the stages.
get-set_all :
    (stages : List DagStage) (adj : Dict (List Ident)) (n : Ident)
    → (includes (stage_ids_of stages) n ≡ true) ⊎ ((ps : List Ident) × (get n adj ≡ some ps))
    → (ps : List Ident) × (get n (set_all (stage_entries stages) adj) ≡ some ps)
get-set_all [] adj n (inl h) = cc
get-set_all [] adj n (inr h) = h
get-set_all (stage ∷ stages) adj n h =
    get-set_all stages (set stage.stage_id stage.dependencies adj) n
      (elim (Bool-cases (stage.stage_id == n)) [
        | inl here ↦
            inr
              (stage.dependencies, ground (arith, get-set stage.stage_id n stage.dependencies adj))
        | inr other ↦ elim h [
          | inl later ↦ inl (ground arith)
          | inr (ps, before) ↦
              inr (ps, ground (arith, get-set stage.stage_id n stage.dependencies adj))
        ]
      ])

pub detect_cycles_finishes : (stages : List DagStage) → detect_cycles stages ≢ err search_unfinished
unfolding detect_cycles
detect_cycles_finishes stages e =
    let adj = stage_graph stages in
    ground (
      arith,
      check_all_lasts adj (stage_ids_of stages) []
          (λ n h. let (ps, there) = get-set_all stages [] n (inl h) in nodes_of-key adj n ps there),
    )

cycle_result-eq-ok :
    (v : Verdict) → cycle_result v ≡ ok tt → (visited : List Ident) × (v ≡ clear visited)
cycle_result-eq-ok (cycle path) e = cc
cycle_result-eq-ok (clear visited) e = (visited, refl)
cycle_result-eq-ok out_of_fuel e = cc

cycle_result-eq-cycle :
    (v : Verdict) (path : List Ident) → cycle_result v ≡ err (cyclic_stages path) → v ≡ cycle path
cycle_result-eq-cycle (cycle path) _ e = cc
cycle_result-eq-cycle (clear visited) _ e = cc
cycle_result-eq-cycle out_of_fuel _ e = cc

-- When `register_dag` succeeds, then from every node that can be reached from a stage of the DAG along
-- dependencies all walks end; so it is on no cycle.
pub register_dag-acyclic :
    (sha256 : Buffer → Text) (is_certified : Ident → Bool) (dags : Dags)
    (dag : WorkloadDagDescriptor) (now : ℕ) (dags' : Dags) (progress : Option DagProgress)
    (stage n : Ident)
    → register_dag sha256 is_certified dags dag now ≡ ok (dags', progress)
    → includes (stage_ids_of dag.stages) stage ≡ true
    → Reach (stage_graph dag.stages) stage n
    → Ends (stage_graph dag.stages) n × ¬ IsOnCycle (stage_graph dag.stages) n
unfolding register_dag detect_cycles
register_dag-acyclic sha256 is_certified dags dag now dags' progress stage n e listed r =
    let (_, valid, _) = >>=-eq-ok (validate_dag is_certified dag) _ e in
    let adj = stage_graph dag.stages in
    let ids = stage_ids_of dag.stages in
    let (visited, answer) =
      cycle_result-eq-ok (check_all adj ids []) (validate_dag-eq-ok is_certified dag valid) in
    let end = Ends-Reach (check_all-Ends adj ids visited answer stage listed) r in
    (end, Ends-not_cyclic end)

-- When `register_dag` reports a cycle, the graph of the stages has one.
register_dag-cycle :
    (sha256 : Buffer → Text) (is_certified : Ident → Bool) (dags : Dags)
    (dag : WorkloadDagDescriptor) (now : ℕ) (path : List Ident)
    → register_dag sha256 is_certified dags dag now ≡ err (cyclic_stages path)
    → (n : Ident) × IsOnCycle (stage_graph dag.stages) n
unfolding register_dag detect_cycles
register_dag-cycle sha256 is_certified dags dag now path e =
    let adj = stage_graph dag.stages in
    let ids = stage_ids_of dag.stages in
    elim (>>=-eq-err (validate_dag is_certified dag) _ e) [
      | inr (_, _, later) ↦ cc
      | inl refused ↦ elim (validate_dag-eq-err is_certified dag (cyclic_stages path) refused) [
        | inl (_, other) ↦ absurd (other path refl)
        | inr found ↦
            check_all-SomeCycle adj ids [] path
              (cycle_result-eq-cycle (check_all adj ids []) path found)
      ]
    ]

-- The search for cycles always ends: `register_dag` reports an unfinished search for no DAG.
register_dag_finishes :
    (sha256 : Buffer → Text) (is_certified : Ident → Bool) (dags : Dags)
    (dag : WorkloadDagDescriptor) (now : ℕ)
    → register_dag sha256 is_certified dags dag now ≢ err search_unfinished
unfolding register_dag
register_dag_finishes sha256 is_certified dags dag now e =
    elim (>>=-eq-err (validate_dag is_certified dag) _ e) [
      | inr (_, _, later) ↦ cc
      | inl refused ↦ elim (validate_dag-eq-err is_certified dag search_unfinished refused) [
        | inl (other, _) ↦ other refl
        | inr unfinished ↦ detect_cycles_finishes dag.stages unfinished
      ]
    ]
