-- ===== src/Store/Preserved.antt =====
-- Every operation on one task keeps the invariant of the table.
use swarm_x.Common.{ℕ, ◌+◌, ◌≡◌, refl, sym, subst, true, Option, some, arith, ok, inl, inr}
use swarm_x.Task.{
  Ident, Text, Task, TaskStatus, Reason, Details, is_terminal, or_default, blank, stolen,
  work_stolen_by_scheduler,
}
use swarm_x.Store.Table.{Table, map_row_to_task}
use swarm_x.Store.Ops.{
  set_assigned, set_running, set_stolen, set_lease, set_completed, set_ended, log_attempt,
  assign_task, start_task, complete_task, fail_task, abandon_task, steal_task, renew_lease,
  renew_worker_leases, held_by,
}
use swarm_x.Store.Recovery.{record_task_failure, set_reclaimed}
use swarm_x.Store.Invariant.{
  RowOk, IsValid, update_where-IsValid, DidUpdate-IsValid, length-log_attempt,
}
use swarm_x.Store.Effects.{
  assign_task-eq-ok, start_task-eq-ok, complete_task-eq-ok, fail_task-eq-ok, abandon_task-eq-ok,
  record_task_failure-eq-ok, steal_task_cases,
}

pub set_ended-RowOk :
    {m : ℕ} (status : TaskStatus) (why : Reason) (now : ℕ) (row : Task)
    → is_terminal status ≡ true
    → RowOk m row
    → RowOk m (set_ended (map_row_to_task row) status why now row)
unfolding map_row_to_task
set_ended-RowOk status why now row ended good =
    let task = map_row_to_task row in
    ground (arith, length-log_attempt task now task.assigned_worker_id why blank)

pub set_reclaimed-RowOk :
    {m : ℕ} (worker : Option Ident) (why : Reason) (details : Details) (now : ℕ) (row : Task)
    → RowOk m row
    → RowOk m (
        set_reclaimed
          (map_row_to_task row)
          (log_attempt (map_row_to_task row) now worker why details)
          m
          now
          row)
unfolding map_row_to_task
set_reclaimed-RowOk worker why details now row good =
    ground (arith, length-log_attempt (map_row_to_task row) now worker why details)

set_stolen-RowOk :
    {m : ℕ} (thief : Ident) (lease now : ℕ) (row : Task)
    → RowOk m row
    → RowOk m (set_stolen (map_row_to_task row) thief lease now row)
unfolding map_row_to_task
set_stolen-RowOk thief lease now row good =
    let task = map_row_to_task row in
    ground (
      arith,
      length-log_attempt task now task.assigned_worker_id work_stolen_by_scheduler
          (stolen thief (task.retry_count + 1) (task.retry_count + 1 + 1)),
    )

module _ {m : ℕ} (t t' : Table) (r : Option Task) (id : Ident) (now : ℕ) where
  pub assign_task-IsValid :
      (worker : Ident) (lease_ms : ℕ)
      → assign_task t id worker lease_ms now ≡ ok (t', r)
      → IsValid m t
      → IsValid m t'
  assign_task-IsValid worker lease_ms e =
      DidUpdate-IsValid _ (λ _. set_assigned worker (now + lease_ms) now) id _ t t'
        (λ row hit. ground arith) (λ _ _. refl) (λ row good hit. ground arith)
        (assign_task-eq-ok t id worker lease_ms now t' r e)

  pub start_task-IsValid :
      (lease_ms : ℕ) → start_task t id lease_ms now ≡ ok (t', r) → IsValid m t → IsValid m t'
  start_task-IsValid lease_ms e =
      DidUpdate-IsValid _ (λ _. set_running (now + lease_ms) now) id _ t t'
        (λ row hit. ground arith) (λ _ _. refl) (λ row good hit. ground arith)
        (start_task-eq-ok t id lease_ms now t' r e)

  pub complete_task-IsValid :
      (destination : Option Text)
      → complete_task t id destination now ≡ ok (t', r)
      → IsValid m t
      → IsValid m t'
  complete_task-IsValid destination e =
      DidUpdate-IsValid _
        (λ task. set_completed (or_default destination task.result_destination) now) id _ t t'
        (λ row hit. ground arith) (λ _ _. refl) (λ row good hit. ground arith)
        (complete_task-eq-ok t id destination now t' r e)

  pub fail_task-IsValid :
      (why : Reason) → fail_task t id why now ≡ ok (t', r) → IsValid m t → IsValid m t'
  fail_task-IsValid why e =
      DidUpdate-IsValid _ (λ task. set_ended task TaskStatus.failed why now) id _ t t'
        (λ row hit. ground arith) (λ _ _. refl)
        (λ row good hit. set_ended-RowOk TaskStatus.failed why now row refl good)
        (fail_task-eq-ok t id why now t' r e)

  pub abandon_task-IsValid :
      (why : Reason) → abandon_task t id why now ≡ ok (t', r) → IsValid m t → IsValid m t'
  abandon_task-IsValid why e =
      DidUpdate-IsValid _ (λ task. set_ended task TaskStatus.abandoned why now) id _ t t'
        (λ row hit. ground arith) (λ _ _. refl)
        (λ row good hit. set_ended-RowOk TaskStatus.abandoned why now row refl good)
        (abandon_task-eq-ok t id why now t' r e)

  pub record_task_failure-IsValid :
      (worker : Ident) (why : Reason) (details : Details)
      → record_task_failure t id worker why details m now ≡ ok (t', r)
      → IsValid m t
      → IsValid m t'
  record_task_failure-IsValid worker why details e =
      DidUpdate-IsValid _
        (λ task. set_reclaimed task (log_attempt task now (some worker) why details) m now) id _ t
        t' (λ row hit. ground arith) (λ _ _. refl)
        (λ row good hit. set_reclaimed-RowOk (some worker) why details now row good)
        (record_task_failure-eq-ok t id worker why details m now t' r e)

module _ {m : ℕ} (t : Table) where
  -- Whatever `stealTask` returns, its table is the old one or the one with the thief as the owner.
  pub steal_task-IsValid :
      (id thief : Ident) (lease_ms now : ℕ)
      → IsValid m t
      → IsValid m (steal_task t id thief lease_ms now).0
  steal_task-IsValid id thief lease_ms now h = elim (steal_task_cases t id thief lease_ms now) [
    | inl same ↦ subst (IsValid m) (sym same) h
    | inr did ↦
        DidUpdate-IsValid _ (λ task. set_stolen task thief (now + lease_ms) now) id _ t _
          (λ row hit. ground arith) (λ _ _. refl)
          (λ row good hit. set_stolen-RowOk thief (now + lease_ms) now row good) did h
  ]

  pub renew_lease-IsValid :
      (id : Ident) (lease_ms now : ℕ) → IsValid m t → IsValid m (renew_lease t id lease_ms now).0
  unfolding renew_lease
  renew_lease-IsValid id lease_ms now h =
      update_where-IsValid _ (set_lease (now + lease_ms) now) t (λ _. refl)
        (λ row good hit. ground arith) h

  pub renew_worker_leases-IsValid :
      (worker : Ident) (lease_ms from_time : ℕ)
      → IsValid m t
      → IsValid m (renew_worker_leases t worker lease_ms from_time).0
  unfolding renew_worker_leases
  renew_worker_leases-IsValid worker lease_ms from_time h =
      update_where-IsValid (held_by worker) (set_lease (from_time + lease_ms) from_time) t
        (λ _. refl) (λ row good hit. ground arith) h
