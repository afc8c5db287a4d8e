-- ===== src/Store/Effects.antt =====
-- What a successful operation did: the task that it read, the guards that held, and the UPDATE that
-- made the new table.
use swarm_x.Common.{
  Bool-cases, ◌⊎◌, ℕ, ◌+◌, ◌≡◌, inl, inr, Bool, true, ◌&&◌, not, Option, some, arith, ◌==◌, ok,
  Option-cases,
}
use swarm_x.Task.{
  Ident, Text, Task, TaskStatus, Reason, Details, is_pending, is_assigned, is_in_flight,
  is_terminal, or_default,
}
use swarm_x.Store.Table.{Table, get_task, update_where, are_dependencies_satisfied}
use swarm_x.Store.Ops.{
  set_stolen, steal_task, assign_task, set_assigned, start_task, set_running, complete_task,
  set_completed, fail_task, abandon_task, set_ended, log_attempt,
}
use swarm_x.Store.Recovery.{record_task_failure, set_reclaimed}

-- The task of that id was read, and was fit for the operation; the table is the given update.
pub record DidUpdate (t : Table) (id : Ident) (fits : Task → Bool) (next : Task → Table)
    (t' : Table) : Type 0 where
  pub task : Task
  pub read : get_task t id ≡ some task
  pub fit : fits task ≡ true
  pub after : t' ≡ next task

abbrev pub assigned_table : Table → Ident → Ident → ℕ → ℕ → Task → Table
assigned_table t id worker lease_ms now task =
    update_where (λ row. row.id == id && is_pending row.status)
      (set_assigned worker (now + lease_ms) now) t

pub assign_task-eq-ok :
    (t : Table) (id worker : Ident) (lease_ms now : ℕ) (t' : Table) (r : Option Task)
    → assign_task t id worker lease_ms now ≡ ok (t', r)
    → DidUpdate t id
        (λ task. is_pending task.status && are_dependencies_satisfied t id)
        (assigned_table t id worker lease_ms now)
        t'
unfolding assign_task
assign_task-eq-ok t id worker lease_ms now t' r e = elim (Option-cases (get_task t id)) [
  | inl missing ↦ ground arith
  | inr (task, found) ↦ record {
    task = task;
    read = found;
    fit = ground arith;
    after = ground arith;
  }
]

abbrev pub started_table : Table → Ident → ℕ → ℕ → Task → Table
started_table t id lease_ms now task =
    update_where (λ row. row.id == id && is_assigned row.status) (set_running (now + lease_ms) now)
      t

pub start_task-eq-ok :
    (t : Table) (id : Ident) (lease_ms now : ℕ) (t' : Table) (r : Option Task)
    → start_task t id lease_ms now ≡ ok (t', r)
    → DidUpdate t id (λ task. is_assigned task.status) (started_table t id lease_ms now) t'
unfolding start_task
start_task-eq-ok t id lease_ms now t' r e = elim (Option-cases (get_task t id)) [
  | inl missing ↦ ground arith
  | inr (task, found) ↦ record {
    task = task;
    read = found;
    fit = ground arith;
    after = ground arith;
  }
]

abbrev pub completed_table : Table → Ident → Option Text → ℕ → Task → Table
completed_table t id destination now task =
    update_where (λ row. row.id == id && is_in_flight row.status)
      (set_completed (or_default destination task.result_destination) now) t

pub complete_task-eq-ok :
    (t : Table) (id : Ident) (destination : Option Text) (now : ℕ) (t' : Table) (r : Option Task)
    → complete_task t id destination now ≡ ok (t', r)
    → DidUpdate t id (λ task. is_in_flight task.status) (completed_table t id destination now) t'
unfolding complete_task
complete_task-eq-ok t id destination now t' r e = elim (Option-cases (get_task t id)) [
  | inl missing ↦ ground arith
  | inr (task, found) ↦ record {
    task = task;
    read = found;
    fit = ground arith;
    after = ground arith;
  }
]

abbrev pub failed_table : Table → Ident → Reason → ℕ → Task → Table
failed_table t id why now task =
    update_where (λ row. row.id == id) (set_ended task TaskStatus.failed why now) t

pub fail_task-eq-ok :
    (t : Table) (id : Ident) (why : Reason) (now : ℕ) (t' : Table) (r : Option Task)
    → fail_task t id why now ≡ ok (t', r)
    → DidUpdate t id (λ task. not (is_terminal task.status)) (failed_table t id why now) t'
unfolding fail_task
fail_task-eq-ok t id why now t' r e = elim (Option-cases (get_task t id)) [
  | inl missing ↦ ground arith
  | inr (task, found) ↦ record {
    task = task;
    read = found;
    fit = ground arith;
    after = ground arith;
  }
]

abbrev pub abandoned_table : Table → Ident → Reason → ℕ → Task → Table
abandoned_table t id why now task =
    update_where (λ row. row.id == id) (set_ended task TaskStatus.abandoned why now) t

pub abandon_task-eq-ok :
    (t : Table) (id : Ident) (why : Reason) (now : ℕ) (t' : Table) (r : Option Task)
    → abandon_task t id why now ≡ ok (t', r)
    → DidUpdate t id (λ task. not (is_terminal task.status)) (abandoned_table t id why now) t'
unfolding abandon_task
abandon_task-eq-ok t id why now t' r e = elim (Option-cases (get_task t id)) [
  | inl missing ↦ ground arith
  | inr (task, found) ↦ record {
    task = task;
    read = found;
    fit = ground arith;
    after = ground arith;
  }
]

abbrev pub recorded_table : Table → Ident → Ident → Reason → Details → ℕ → ℕ → Task → Table
recorded_table t id worker why details max_retries now task =
    let history = log_attempt task now (some worker) why details in
    update_where (λ row. row.id == id) (set_reclaimed task history max_retries now) t

pub record_task_failure-eq-ok :
    (t : Table) (id worker : Ident) (why : Reason) (details : Details) (max_retries now : ℕ)
    (t' : Table) (r : Option Task)
    → record_task_failure t id worker why details max_retries now ≡ ok (t', r)
    → DidUpdate t id (λ task. true) (recorded_table t id worker why details max_retries now) t'
unfolding record_task_failure
record_task_failure-eq-ok t id worker why details max_retries now t' r e =
    elim (Option-cases (get_task t id)) [
      | inl missing ↦ ground arith
      | inr (task, found) ↦ record {
        task = task;
        read = found;
        fit = ground arith;
        after = ground arith;
      }
    ]

abbrev pub stolen_table : Table → Ident → Ident → ℕ → ℕ → Task → Table
stolen_table t id thief lease_ms now task =
    update_where (λ row. row.id == id && is_in_flight row.status)
      (set_stolen task thief (now + lease_ms) now) t

-- `stealTask` throws nothing: it leaves the table, or it makes one UPDATE.
pub steal_task_cases :
    (t : Table) (id thief : Ident) (lease_ms now : ℕ)
    → ((steal_task t id thief lease_ms now).0 ≡ t)
      ⊎ DidUpdate t id
          (λ task. is_in_flight task.status)
          (stolen_table t id thief lease_ms now)
          (steal_task t id thief lease_ms now).0
unfolding steal_task
steal_task_cases t id thief lease_ms now = elim (Option-cases (get_task t id)) [
  | inl missing ↦ inl (ground arith)
  | inr (task, found) ↦ elim (Bool-cases (is_in_flight task.status)) [
    | inl fit ↦ inr (record { task = task; read = found; fit = fit; after = ground arith })
    | inr no_fit ↦ inl (ground arith)
  ]
]
