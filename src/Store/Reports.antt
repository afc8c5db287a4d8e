-- ===== src/Store/Reports.antt =====
-- Reported failures: whom they exclude, and that they ask for no status.
use swarm_x.Common.{
  ℕ, ◌+◌, ◌<◌, ◌≡◌, refl, Bool, false, ◌&&◌, ◌||◌, Option, none, some, List, [], ◌∷◌, arith, ok,
  ◌==◌,
}
use swarm_x.Task.{Ident, Task, TaskAttempt, Reason, Details, pending, completed}
use swarm_x.Store.Table.{Table, find_row, map_row_to_task, update_where, get_task}
use swarm_x.Store.Ops.{log_attempt}
use swarm_x.Store.Recovery.{excludes, record_task_failure, set_reclaimed}
use swarm_x.Store.Rows.{find_row-update_where, get_task-of_row, find_row-id}

-- An attempt counts against a worker: it names the worker, and failed validation or execution.
abbrev pub blames : Ident → TaskAttempt → Bool
blames worker attempt =
    elim attempt.worker_id [ none ↦ false | some w ↦ w == worker ] && excludes attempt.reason

abbrev pub any_blames : Ident → List TaskAttempt → Bool
any_blames worker [] = false
any_blames worker (attempt ∷ history) = blames worker attempt || any_blames worker history

-- A reported failure always succeeds on a task of the table, whatever the task's status. The task
-- gets one more retry and is pending again, or failed if its retries are used up; it is in no
-- worker's hands.
pub record_task_failure_lem :
    (t : Table) (id worker : Ident) (why : Reason) (details : Details) (max_retries now : ℕ)
    (row : Task)
    → find_row id t ≡ some row
    → (t' : Table) × (r : Option Task) × (record_task_failure t id worker why details max_retries
          now
        ≡ ok (t', r))
      × (find_row id t'
          ≡ some (
              set_reclaimed row
                (log_attempt row now (some worker) why details)
                max_retries
                now
                row))
unfolding record_task_failure map_row_to_task
record_task_failure_lem t id worker why details max_retries now row found =
    let task = map_row_to_task row in
    let new = set_reclaimed task (log_attempt task now (some worker) why details) max_retries now in
    let t' = update_where (λ r. r.id == id) new t in
    (
      t',
      get_task t' id,
      ground (arith, get_task-of_row t id row found),
      ground (
        arith,
        find_row-id id t row,
        find_row-update_where (λ r. r.id == id) new (λ _. refl) id t,
      ),
    )

-- A failure that is reported for a completed task with a retry left takes it out of its final
-- state: the report succeeds, and the task is pending.
pub record_task_failure-reopens :
    (t : Table) (id worker : Ident) (why : Reason) (details : Details) (max_retries now : ℕ)
    (row : Task)
    → find_row id t ≡ some row
    → row.status ≡ completed
    → row.retry_count + 1 < max_retries
    → (t' : Table) × (r : Option Task) × (row' : Task) × (record_task_failure t id worker why
          details max_retries now
        ≡ ok (t', r))
      × (find_row id t' ≡ some row')
      × (row'.status ≡ pending)
record_task_failure-reopens t id worker why details max_retries now row found done left =
    let (t', r, e, written) =
      record_task_failure_lem t id worker why details max_retries now row found in
    (
      t',
      r,
      set_reclaimed row (log_attempt row now (some worker) why details) max_retries now row,
      e,
      written,
      ground arith,
    )
