-- ===== src/Store/Create.antt =====
-- core/src/db/task_store.ts: `validateDagCycle` and `createTask`.
use swarm_x.Common.{
  ℕ, Option, none, some, List, [], ◌∷◌, ◌++◌, if◌then◌else◌, includes, Result, ok, err, ◌>>=◌, ◌>>◌,
}
use swarm_x.Common.Dict.{Dict, set}
use swarm_x.Task.{Ident, Text, Task, TaskResources, TaskStatus, or_undefined, or_default}
use swarm_x.Graph.Search.{Verdict, cycle, clear, out_of_fuel, set_all, has_cycle, enough}
use swarm_x.Store.Table.{
  Table, StoreError, self_dependency, cyclic_dependency, duplicate_key, search_unfinished, find_row,
  list_tasks,
}

-- The entries that the loop over `listTasks()` sets.
abbrev pub dependency_entries : List Task → List (Ident × List Ident)
dependency_entries [] = []
dependency_entries (task ∷ tasks) = (task.id, task.dependencies) ∷ dependency_entries tasks

-- `adj`: child to parents, with the new task set last.
unfoldable pub adjacency : Table → Ident → List Ident → Dict (List Ident)
adjacency t new_id deps = set new_id deps (set_all (dependency_entries (list_tasks none t)) [])

-- A throw of the search carries the path. Running out of fuel does not happen (`Acyclic`).
abbrev pub verdict_result : Verdict → Ident → Result StoreError (Unit {0})
verdict_result (cycle path) id = err (cyclic_dependency path)
verdict_result (clear visited) id = ok tt
verdict_result out_of_fuel id = err (search_unfinished id)

unfoldable pub validate_dag_cycle : Table → Ident → List Ident → Result StoreError (Unit {0})
validate_dag_cycle t new_id [] = ok tt
validate_dag_cycle t new_id (dep ∷ deps) =
    if includes (dep ∷ deps) new_id
    then err (self_dependency new_id)
    else let adj = adjacency t new_id (dep ∷ deps) in
      verdict_result (has_cycle adj (enough adj) [] new_id []) new_id

-- The argument of `createTask`. A list or a record that may be left out is given here as the
-- empty one that stands for it.
pub record NewTask : Type 0 where
  pub id : Ident
  pub input_ref : Text
  pub computation_descriptor : Text
  pub required_resources : TaskResources
  pub dependencies : List Ident
  pub execution_constraints : List (Text × Text)
  pub result_destination : Option Text
  pub status : Option TaskStatus
  pub assigned_worker_id : Option Ident

abbrev pub status_or_pending : Option TaskStatus → TaskStatus
status_or_pending none = TaskStatus.pending
status_or_pending (some s) = s

unfoldable pub full_task : NewTask → ℕ → Task
full_task new now = record {
  id = new.id;
  input_ref = new.input_ref;
  computation_descriptor = new.computation_descriptor;
  required_resources = new.required_resources;
  dependencies = new.dependencies;
  execution_constraints = new.execution_constraints;
  result_destination = or_default new.result_destination 0;
  retry_count = 0;
  attempt_history = [];
  status = status_or_pending new.status;
  assigned_worker_id = new.assigned_worker_id;
  lease_expires_at_ms = none;
  created_at_ms = now;
  updated_at_ms = now;
}

-- `INSERT INTO tasks`, whose primary key is `id`. The worker column gets `assignedWorkerId || null`.
unfoldable pub insert_row : Table → Task → Result StoreError Table
insert_row t task = elim (find_row task.id t) [
  | some _ ↦ err (duplicate_key task.id)
  | none ↦ ok (t ++ record task { assigned_worker_id = or_undefined task.assigned_worker_id } ∷ [])
]

unfoldable pub create_task : Table → NewTask → ℕ → Result StoreError (Table × Task)
unfolding validate_dag_cycle full_task insert_row
create_task t new now = do
  validate_dag_cycle t new.id new.dependencies
  t' ← insert_row t (full_task new now)
  ok (t', full_task new now)
