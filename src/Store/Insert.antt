-- ===== src/Store/Insert.antt =====
-- A task that `createTask` inserts keeps the invariant of the table.
use swarm_x.Common.{
  ℕ, ◌<◌, ◌≡◌, refl, sym, subst, false, none, some, [], ◌∷◌, ◌++◌, arith, All-append, ok, inl, inr,
  >>=-eq-ok, Option-cases, ◌==◌, if◌then◌else◌,
}
use swarm_x.Task.{Ident, Task, is_in_flight, pending, or_undefined}
use swarm_x.Store.Table.{Table, find_row}
use swarm_x.Store.Create.{NewTask, create_task, full_task, status_or_pending, validate_dag_cycle}
use swarm_x.Store.Rows.{Unique}
use swarm_x.Store.Invariant.{RowOk, IsValid}

-- A new task that is not in flight already and, if it is to wait, belongs to no worker yet.
pub record IsFresh (new : NewTask) : Type 0 where
  pub idle : is_in_flight (status_or_pending new.status) ≡ false
  pub free : status_or_pending new.status ≡ pending → or_undefined new.assigned_worker_id ≡ none

find_row-append :
    (id : Ident) (t : Table) (row : Task)
    → find_row id t ≡ none
    → find_row id (t ++ row ∷ []) ≡ (if row.id == id then some row else none)
find_row-append id [] row h = refl
find_row-append id (r ∷ t) row h = ground (arith, find_row-append id t row)

Unique-append :
    (t : Table) (row : Task) → Unique t → find_row row.id t ≡ none → Unique (t ++ row ∷ [])
Unique-append [] row u h = (refl, tt)
Unique-append (r ∷ t) row u h =
    (ground (arith, find_row-append r.id t row), Unique-append t row u.1 (ground arith))

-- The row that the INSERT writes.
abbrev pub stored : NewTask → ℕ → Task
stored new now = record (full_task new now) {
  assigned_worker_id = or_undefined new.assigned_worker_id;
}

pub create_task-eq-ok :
    (t : Table) (new : NewTask) (now : ℕ) (t' : Table) (task : Task)
    → create_task t new now ≡ ok (t', task)
    → (find_row new.id t ≡ none) × (t' ≡ t ++ stored new now ∷ []) × (task ≡ full_task new now)
unfolding create_task
create_task-eq-ok t new now t' task e =
    let (_, _, inserted) = >>=-eq-ok (validate_dag_cycle t new.id new.dependencies) _ e in
    elim (Option-cases (find_row new.id t)) [
      | inr (row, there) ↦ ground arith
      | inl free ↦ (free, ground arith, ground arith)
    ]

pub create_task-IsValid :
    {m : ℕ} (t : Table) (new : NewTask) (now : ℕ) (t' : Table) (task : Task)
    → 0 < m
    → IsFresh new
    → create_task t new now ≡ ok (t', task)
    → IsValid m t
    → IsValid m t'
unfolding full_task
create_task-IsValid {m} t new now t' task pos fresh e h =
    let (free, is, _) = create_task-eq-ok t new now t' task e in
    let good : RowOk m (stored new now) = ground arith in
    subst (IsValid m) (sym is) (record {
      unique = Unique-append t (stored new now) h.unique free;
      rows = All-append (RowOk m) t (stored new now ∷ []) h.rows (good, tt);
    })
