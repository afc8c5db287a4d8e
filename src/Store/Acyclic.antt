-- ===== src/Store/Acyclic.antt =====
-- `createTask` keeps the dependencies free of cycles.
use swarm_x.Common.{
  ℕ, ◌≡◌, ◌≢◌, refl, ◌∙◌, ap, inl, inr, none, some, List, [], ◌∷◌, arith, includes, ok, err,
  >>=-eq-ok, >>=-eq-err, ==_refl,
}
use swarm_x.Common.Dict.{get, get-set}
use swarm_x.Task.{Ident, Task}
use swarm_x.Graph.Search.{
  Verdict, cycle, clear, out_of_fuel, has_cycle, enough, parents_of, set_all,
}
use swarm_x.Graph.Reach.{Ends, ends, Reach, IsOnCycle, Ends-Reach, Ends-not_cyclic}
use swarm_x.Graph.Complete.{has_cycle-Ends}
use swarm_x.Graph.Sound.{has_cycle-SomeCycle}
use swarm_x.Graph.Fuel.{has_cycle_lasts, nodes_of-key}
use swarm_x.Store.Table.{Table, list_tasks, cyclic_dependency, search_unfinished}
use swarm_x.Store.Create.{
  adjacency, validate_dag_cycle, verdict_result, NewTask, create_task, dependency_entries,
}

parents_of-adjacency :
    (t : Table) (id : Ident) (deps : List Ident) → parents_of (adjacency t id deps) id ≡ deps
unfolding adjacency
parents_of-adjacency t id deps =
    ground (arith, get-set id id deps (set_all (dependency_entries (list_tasks none t)) []))

get-adjacency :
    (t : Table) (id : Ident) (deps : List Ident) → get id (adjacency t id deps) ≡ some deps
unfolding adjacency
get-adjacency t id deps =
    get-set id id deps (set_all (dependency_entries (list_tasks none t)) []) ∙ rw (==_refl id)

verdict_result-eq-ok :
    (v : Verdict) (id : Ident)
    → verdict_result v id ≡ ok tt
    → (visited : List Ident) × (v ≡ clear visited)
verdict_result-eq-ok (cycle path) id e = cc
verdict_result-eq-ok (clear visited) id e = (visited, refl)
verdict_result-eq-ok out_of_fuel id e = cc

verdict_result-eq-cycle :
    (v : Verdict) (id : Ident) (path : List Ident)
    → verdict_result v id ≡ err (cyclic_dependency path)
    → v ≡ cycle path
verdict_result-eq-cycle (cycle path) id _ e = cc
verdict_result-eq-cycle (clear visited) id _ e = cc
verdict_result-eq-cycle out_of_fuel id _ e = cc

-- The search has enough fuel in every table.
validate_finishes :
    (t : Table) (id other : Ident) (deps : List Ident)
    → validate_dag_cycle t id deps ≢ err (search_unfinished other)
unfolding validate_dag_cycle
validate_finishes t id other [] e = cc
validate_finishes t id other (dep ∷ deps) e =
    let adj = adjacency t id (dep ∷ deps) in
    ground (
      arith,
      has_cycle_lasts adj id [] (nodes_of-key adj id (dep ∷ deps) (get-adjacency t id (dep ∷ deps)))
          refl,
    )

no_dependencies-Ends : (t : Table) (id : Ident) → Ends (adjacency t id []) id
no_dependencies-Ends t id =
    ends λ m h. let e = parents_of-adjacency t id [] in cc (ap (λ ps. includes ps m) e)

validate-Ends :
    (t : Table) (id : Ident) (deps : List Ident)
    → validate_dag_cycle t id deps ≡ ok tt
    → Ends (adjacency t id deps) id
unfolding validate_dag_cycle
validate-Ends t id [] e = no_dependencies-Ends t id
validate-Ends t id (dep ∷ deps) e =
    let adj = adjacency t id (dep ∷ deps) in
    let (visited, answer) =
      verdict_result-eq-ok (has_cycle adj (enough adj) [] id []) id (ground arith) in
    has_cycle-Ends adj (enough adj) id visited answer

validate-cycle :
    (t : Table) (id : Ident) (deps path : List Ident)
    → validate_dag_cycle t id deps ≡ err (cyclic_dependency path)
    → (n : Ident) × IsOnCycle (adjacency t id deps) n
unfolding validate_dag_cycle
validate-cycle t id [] path e = cc
validate-cycle t id (dep ∷ deps) path e =
    let adj = adjacency t id (dep ∷ deps) in
    has_cycle-SomeCycle adj (enough adj) id [] path
      (verdict_result-eq-cycle (has_cycle adj (enough adj) [] id []) id path (ground arith))

-- When `create_task` succeeds, then from every node that can be reached from the new task, in the
-- graph of the old tasks and the new one, all walks along dependencies end; so it is on no cycle.
pub create_task-acyclic :
    (t : Table) (new : NewTask) (now : ℕ) (t' : Table) (task : Task) (n : Ident)
    → create_task t new now ≡ ok (t', task)
    → Reach (adjacency t new.id new.dependencies) new.id n
    → Ends (adjacency t new.id new.dependencies) n
      × ¬ IsOnCycle (adjacency t new.id new.dependencies) n
unfolding create_task
create_task-acyclic t new now t' task n e r =
    let (_, valid, _) = >>=-eq-ok (validate_dag_cycle t new.id new.dependencies) _ e in
    let end = Ends-Reach (validate-Ends t new.id new.dependencies valid) r in
    (end, Ends-not_cyclic end)

-- When `create_task` reports a cyclic dependency other than of the task on itself, the graph of
-- the old tasks and the new one has a node on a cycle.
pub create_task-cycle :
    (t : Table) (new : NewTask) (now : ℕ) (path : List Ident)
    → create_task t new now ≡ err (cyclic_dependency path)
    → (n : Ident) × IsOnCycle (adjacency t new.id new.dependencies) n
unfolding create_task
create_task-cycle t new now path e =
    elim (>>=-eq-err (validate_dag_cycle t new.id new.dependencies) _ e) [
      | inl refused ↦ validate-cycle t new.id new.dependencies path refused
      | inr (_, _, later) ↦ ground arith
    ]

-- The search for cycles always ends: no input makes `create_task` run out of fuel.
pub create_task_finishes :
    (t : Table) (new : NewTask) (now : ℕ) (id : Ident)
    → create_task t new now ≢ err (search_unfinished id)
unfolding create_task
create_task_finishes t new now id e =
    elim (>>=-eq-err (validate_dag_cycle t new.id new.dependencies) _ e) [
      | inl unfinished ↦ validate_finishes t new.id id new.dependencies unfinished
      | inr (_, _, later) ↦ ground arith
    ]
