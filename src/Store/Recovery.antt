-- ===== src/Store/Recovery.antt =====
-- core/src/db/task_store.ts: recovery after a lost worker, an expired lease or a crash of the host,
-- failures that the pipeline reports, and the queries about workers. The three recoveries have the
-- same loop over the rows that they read first; it is written once, with the reason.
use swarm_x.Common.{
  ℕ, ◌+◌, Bool, true, false, ◌&&◌, Option, none, some, List, [], ◌∷◌, ◌++◌, ◌==◌, leb, ltb,
  if◌then◌else◌, select, includes, ok, ◌>>=◌,
}
use swarm_x.Task.{
  Ident, Task, TaskAttempt, TaskStatus, Reason, Details, is_in_flight, blank, worker_disconnected,
  lease_expired, host_crash_recovery, validation_tolerance_exceeded, execution_error,
  tolerance_mismatch,
}
use swarm_x.Store.Table.{
  Table, Outcome, map_row_to_task, get_task, update_where, count_where, task_or_throw,
}
use swarm_x.Store.Ops.{log_attempt, held_by}

-- `newRetryCount >= maxRetries` decides between FAILED and PENDING.
abbrev pub status_after : ℕ → ℕ → TaskStatus
status_after retries max_retries =
    if leb max_retries retries then TaskStatus.failed else TaskStatus.pending

-- The UPDATE of the recoveries and of `recordTaskFailure`, for a task as it was read.
abbrev pub set_reclaimed : Task → List TaskAttempt → ℕ → ℕ → Task → Task
set_reclaimed task history max_retries now row = record row {
  status = status_after (task.retry_count + 1) max_retries;
  retry_count = task.retry_count + 1;
  attempt_history = history;
  assigned_worker_id = none;
  lease_expires_at_ms = none;
  updated_at_ms = now;
}

-- What is done for one row of the SELECT.
abbrev pub reclaim : Reason → ℕ → ℕ → Task → Task → Task
reclaim why max_retries now seen row =
    let task = map_row_to_task seen in
    set_reclaimed task (log_attempt task now task.assigned_worker_id why blank) max_retries now row

-- `{ recovered, failed }`.
pub record Reclaimed : Type 0 where
  pub recovered : List (Option Task)
  pub failed : List (Option Task)

-- The body of the loop: one UPDATE, and the task as it is read back at the end of one of the lists.
abbrev pub reclaim_one : Reason → ℕ → ℕ → Task → Table × Reclaimed → Table × Reclaimed
reclaim_one why max_retries now seen (t, r) =
    let t' = update_where (λ row. row.id == seen.id) (reclaim why max_retries now seen) t in
    (
      t',
      if leb max_retries (seen.retry_count + 1)
          then record r { failed = r.failed ++ get_task t' seen.id ∷ [] }
          else record r { recovered = r.recovered ++ get_task t' seen.id ∷ [] },
    )

unfoldable pub reclaim_rows : Reason → ℕ → ℕ → List Task → Table × Reclaimed → Table × Reclaimed
reclaim_rows why max_retries now [] s = s
reclaim_rows why max_retries now (seen ∷ rows) s =
    reclaim_rows why max_retries now rows (reclaim_one why max_retries now seen s)

abbrev pub nothing_reclaimed : Reclaimed
nothing_reclaimed = record { recovered = []; failed = [] }

-- `open` is `this.db.open`.
unfoldable pub recover_worker_loss : Bool → Table → Ident → ℕ → ℕ → Table × Reclaimed
recover_worker_loss is_open t worker max_retries now =
    if is_open
    then reclaim_rows worker_disconnected max_retries now (select (held_by worker) t)
        (t, nothing_reclaimed)
    else (t, nothing_reclaimed)

abbrev pub has_expired : ℕ → Task → Bool
has_expired now row =
    is_in_flight row.status && elim row.lease_expires_at_ms [ none ↦ false | some l ↦ ltb l now ]

unfoldable pub recover_expired_leases : Bool → Table → ℕ → ℕ → Table × Reclaimed
recover_expired_leases is_open t now max_retries =
    if is_open
    then reclaim_rows lease_expired max_retries now (select (has_expired now) t)
        (t, nothing_reclaimed)
    else (t, nothing_reclaimed)

unfoldable pub recover_in_flight_tasks : Table → ℕ → ℕ → Table × Reclaimed
recover_in_flight_tasks t max_retries now =
    reclaim_rows host_crash_recovery max_retries now (select (λ row. is_in_flight row.status) t)
      (t, nothing_reclaimed)

unfoldable pub get_active_task_count_for_worker : Table → Ident → ℕ
get_active_task_count_for_worker t worker = count_where (held_by worker) t

abbrev pub excludes : Reason → Bool
excludes validation_tolerance_exceeded = true
excludes execution_error = true
excludes tolerance_mismatch = true
excludes _ = false

-- `excluded.add(workerId)`.
abbrev pub add_id : List Ident → Ident → List Ident
add_id ids id = if includes ids id then ids else ids ++ id ∷ []

abbrev pub exclude : TaskAttempt → List Ident → List Ident
exclude attempt ids = elim attempt.worker_id [
  | none ↦ ids
  | some w ↦ if w == 0 then ids else if excludes attempt.reason then add_id ids w else ids
]

unfoldable pub excluded_from : List TaskAttempt → List Ident → List Ident
excluded_from [] ids = ids
excluded_from (attempt ∷ history) ids = excluded_from history (exclude attempt ids)

unfoldable pub get_excluded_worker_ids : Table → Ident → List Ident
unfolding excluded_from
get_excluded_worker_ids t id = elim (get_task t id) [
  | none ↦ []
  | some task ↦ excluded_from task.attempt_history []
]

unfoldable pub record_task_failure : Table → Ident → Ident → Reason → Details → ℕ → ℕ → Outcome
unfolding task_or_throw
record_task_failure t id worker why details max_retries now = do
  task ← task_or_throw t id
  let history = log_attempt task now (some worker) why details
  let t' = update_where (λ row. row.id == id) (set_reclaimed task history max_retries now) t
  ok (t', get_task t' id)
