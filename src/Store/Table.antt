-- ===== src/Store/Table.antt =====
-- core/src/db/task_store.ts: the table `tasks` and its statements. A row is a `Task`; a column
-- that is NULL is `none`.
use swarm_x.Common.{
  ℕ, suc, Bool, true, false, ◌&&◌, Option, none, some, List, [], ◌∷◌, ◌==◌, if◌then◌else◌, length,
  select, includes, Result, ok, err,
}
use swarm_x.Common.Sorting.{sort_by}
use swarm_x.Task.{Ident, Task, TaskStatus, is_completed, same_status, or_undefined}

abbrev pub Table : Type 0
Table = List Task

abbrev pub default_max_retries : ℕ
default_max_retries = 3

abbrev pub default_lease_duration_ms : ℕ
default_lease_duration_ms = 30000

pub data StoreError : Type 0 where
  not_found : Ident → StoreError
  cannot_assign cannot_start cannot_complete cannot_fail cannot_abandon : TaskStatus → StoreError
  dependencies_not_satisfied collision : Ident → StoreError
  self_dependency duplicate_key search_unfinished : Ident → StoreError
  cyclic_dependency : List Ident → StoreError

-- `mapRowToTask`: the JSON columns are read back as they were written.
unfoldable pub map_row_to_task : Task → Task
map_row_to_task row = record row {
  assigned_worker_id = or_undefined row.assigned_worker_id;
  lease_expires_at_ms = or_undefined row.lease_expires_at_ms;
}

-- `SELECT * FROM tasks WHERE id = ?`, whose `get` returns the first row.
abbrev pub find_row : Ident → Table → Option Task
find_row id [] = none
find_row id (row ∷ t) = if row.id == id then some row else find_row id t

unfoldable pub get_task : Table → Ident → Option Task
get_task t id = elim (find_row id t) [ none ↦ none | some row ↦ some (map_row_to_task row) ]

-- `UPDATE tasks SET … WHERE …`: every row that the test picks is replaced.
abbrev pub update_where : (Task → Bool) → (Task → Task) → Table → Table
update_where p f [] = []
update_where p f (row ∷ t) = (if p row then f row else row) ∷ update_where p f t

-- `result.changes`, and `SELECT count(*)`.
abbrev pub count_where : (Task → Bool) → Table → ℕ
count_where p [] = 0
count_where p (row ∷ t) = if p row then suc (count_where p t) else count_where p t

map_rows : List Task → List Task
unfolding map_row_to_task
map_rows [] = []
map_rows (row ∷ rows) = map_row_to_task row ∷ map_rows rows

unfoldable pub list_tasks : Option TaskStatus → Table → List Task
unfolding map_rows
list_tasks none t = map_rows (sort_by (λ row. row.created_at_ms) t)
list_tasks (some s) t =
    map_rows (sort_by (λ row. row.created_at_ms) (select (λ row. same_status row.status s) t))

unfoldable pub are_dependencies_satisfied : Table → Ident → Bool
are_dependencies_satisfied t id = elim (get_task t id) [
  | none ↦ false
  | some task ↦
      if length task.dependencies == 0
      then true
      else count_where (λ row. includes task.dependencies row.id && is_completed row.status) t
        == length task.dependencies
]

-- `getTask`, and the throw where there is none.
unfoldable pub task_or_throw : Table → Ident → Result StoreError Task
task_or_throw t id = elim (get_task t id) [ none ↦ err (not_found id) | some task ↦ ok task ]

-- What an operation that throws on failure returns: the table, and `getTask(taskId)!` on it.
abbrev pub Outcome : Type 0
Outcome = Result StoreError (Table × Option Task)
