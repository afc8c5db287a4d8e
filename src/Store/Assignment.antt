-- ===== src/Store/Assignment.antt =====
-- When an assignment succeeds, and that it excludes every other one.
use swarm_x.Common.{ℕ, ◌+◌, ◌≡◌, refl, subst, ◌↔◌, true, ◌&&◌, Option, some, arith, ok, err, ◌==◌}
use swarm_x.Task.{Ident, Task, TaskStatus, is_pending}
use swarm_x.Store.Table.{
  Table, cannot_assign, find_row, map_row_to_task, update_where, get_task,
  are_dependencies_satisfied,
}
use swarm_x.Store.Ops.{assign_task, set_assigned}
use swarm_x.Store.Rows.{
  find_row-id, find_row-update_where, get_task-eq-some, get_task-of_row, count_where-id,
}
use swarm_x.Store.Effects.{assigned_table, DidUpdate, assign_task-eq-ok}

-- What a successful assignment found, and the table that it made.
pub record Assigned (t : Table) (id worker : Ident) (lease_ms now : ℕ) (t' : Table) : Type 0 where
  pub row : Task
  pub found : find_row id t ≡ some row
  pub waiting : row.status ≡ TaskStatus.pending
  pub satisfied : are_dependencies_satisfied t id ≡ true
  pub written : find_row id t' ≡ some (set_assigned worker (now + lease_ms) now row)

assign_task-Assigned :
    (t : Table) (id worker : Ident) (lease_ms now : ℕ) (t' : Table) (r : Option Task)
    → assign_task t id worker lease_ms now ≡ ok (t', r)
    → Assigned t id worker lease_ms now t'
unfolding map_row_to_task
assign_task-Assigned t id worker lease_ms now t' r e =
    inspect (get_task-eq-some t id did.task did.read)
  where
    did :
        DidUpdate t id
          (λ task. is_pending task.status && are_dependencies_satisfied t id)
          (assigned_table t id worker lease_ms now)
          t'
    did = assign_task-eq-ok t id worker lease_ms now t' r e

    inspect :
        (row : Task) × (find_row id t ≡ some row) × (did.task ≡ map_row_to_task row)
        → Assigned t id worker lease_ms now t'
    inspect (row, found, is) =
        let fit : is_pending row.status && are_dependencies_satisfied t id ≡ true =
          subst (λ task. is_pending task.status && are_dependencies_satisfied t id ≡ true) is
            did.fit in
        record {
          row = row;
          found = found;
          waiting = ground arith;
          satisfied = ground arith;
          written = ground (
            arith,
            did.after,
            find_row-id id t row,
            find_row-update_where (λ r. r.id == id && is_pending r.status)
                (set_assigned worker (now + lease_ms) now) (λ _. refl) id t,
          );
        }

-- `assign_task` succeeds exactly when the table has the task, it is pending, and its dependencies
-- are satisfied.
assign_task_iff :
    (t : Table) (id worker : Ident) (lease_ms now : ℕ)
    → ((t' : Table) × (r : Option Task) × (assign_task t id worker lease_ms now ≡ ok (t', r))) ↔ (
        (row : Task) × (find_row id t ≡ some row)
        × (row.status ≡ TaskStatus.pending)
        × (are_dependencies_satisfied t id ≡ true))
unfolding assign_task map_row_to_task
assign_task_iff t id worker lease_ms now = (
  λ (t', r, e).
      let did = assign_task-Assigned t id worker lease_ms now t' r e in
      (did.row, did.found, did.waiting, did.satisfied),
  λ (row, found, waiting, satisfied).
      let t' =
        update_where (λ r. r.id == id && is_pending r.status)
          (set_assigned worker (now + lease_ms) now) t in
      (
        t',
        get_task t' id,
        ground (
          arith,
          get_task-of_row t id row found,
          count_where-id (λ r. is_pending r.status) id t row,
        ),
      ),
)

-- After a successful assignment the row of the task differs in its status, which is assigned, its
-- worker, its lease, which ends after the given time, and the time of the update.
pub assign_task-row :
    (t : Table) (id worker : Ident) (lease_ms now : ℕ) (t' : Table) (r : Option Task)
    → assign_task t id worker lease_ms now ≡ ok (t', r)
    → (row : Task) × (find_row id t ≡ some row)
      × (find_row id t' ≡ some (set_assigned worker (now + lease_ms) now row))
assign_task-row t id worker lease_ms now t' r e =
    let did = assign_task-Assigned t id worker lease_ms now t' r e in
    (did.row, did.found, did.written)

-- Two workers cannot both get a task from two assignments with no call in between: on the table that a
-- successful assignment leaves, an assignment of the same task to any worker is refused for the
-- status that it has, at whatever time and with whatever lease.
pub assign_task-assign_task :
    (t : Table) (id worker other : Ident) (lease_ms lease_ms' now now' : ℕ) (t' : Table)
    (r : Option Task)
    → assign_task t id worker lease_ms now ≡ ok (t', r)
    → assign_task t' id other lease_ms' now' ≡ err (cannot_assign TaskStatus.assigned)
unfolding assign_task map_row_to_task
assign_task-assign_task t id worker other lease_ms lease_ms' now now' t' r e =
    let did = assign_task-Assigned t id worker lease_ms now t' r e in
    ground
      (arith, get_task-of_row t' id (set_assigned worker (now + lease_ms) now did.row) did.written)
