-- ===== src/Store/System.antt =====
-- The store over time: any sequence of calls, each at the time of its clock.
use swarm_x.Common.{
  ℕ, ◌<◌, ◌≡◌, refl, sym, subst, Bool, true, Option, List, [], ◌∷◌, All, Result, ok, err, select,
}
use swarm_x.Task.{Ident, Text, Task, Reason, Details, is_in_flight}
use swarm_x.Store.Table.{Table, StoreError}
use swarm_x.Store.Ops.{
  assign_task, start_task, steal_task, renew_lease, renew_worker_leases, complete_task, fail_task,
  abandon_task, held_by,
}
use swarm_x.Store.Recovery.{
  recover_worker_loss, recover_expired_leases, recover_in_flight_tasks, record_task_failure,
  reclaim, reclaim_rows, has_expired, nothing_reclaimed,
}
use swarm_x.Store.Insert.{IsFresh, create_task-IsValid}
use swarm_x.Store.Create.{NewTask, create_task}
use swarm_x.Store.Reclaim.{reclaim_rows-reclaim_where}
use swarm_x.Store.Invariant.{IsValid, update_where-IsValid}
use swarm_x.Store.Preserved.{
  assign_task-IsValid, start_task-IsValid, complete_task-IsValid, fail_task-IsValid,
  abandon_task-IsValid, record_task_failure-IsValid, steal_task-IsValid, renew_lease-IsValid,
  renew_worker_leases-IsValid, set_reclaimed-RowOk,
}

-- The calls that change the table.
pub data Op : Type 0 where
  create : NewTask → Op
  assign : (id worker : Ident) (lease_ms : ℕ) → Op
  start : (id : Ident) (lease_ms : ℕ) → Op
  steal : (id thief : Ident) (lease_ms : ℕ) → Op
  renew : (id : Ident) (lease_ms : ℕ) → Op
  renew_worker : (worker : Ident) (lease_ms : ℕ) → Op
  complete : (id : Ident) (destination : Option Text) → Op
  fail abandon : (id : Ident) (why : Reason) → Op
  record_failure : (id worker : Ident) (why : Reason) (details : Details) → Op
  lose_worker : (worker : Ident) → Op
  expire : Op
  crash : Op

-- The table after a call: a transaction that throws leaves the old one.
abbrev pub after {ℓ} : {R : Type ℓ} → Table → Result StoreError (Table × R) → Table
after t (ok (t', _)) = t'
after t (err _) = t

module _ (max_retries : ℕ) where
  unfoldable pub apply : Table → ℕ → Op → Table
  apply t now (create new) = after t (create_task t new now)
  apply t now (assign id worker lease_ms) = after t (assign_task t id worker lease_ms now)
  apply t now (start id lease_ms) = after t (start_task t id lease_ms now)
  apply t now (steal id thief lease_ms) = (steal_task t id thief lease_ms now).0
  apply t now (renew id lease_ms) = (renew_lease t id lease_ms now).0
  apply t now (renew_worker worker lease_ms) = (renew_worker_leases t worker lease_ms now).0
  apply t now (complete id destination) = after t (complete_task t id destination now)
  apply t now (fail id why) = after t (fail_task t id why now)
  apply t now (abandon id why) = after t (abandon_task t id why now)
  apply t now (record_failure id worker why details) =
      after t (record_task_failure t id worker why details max_retries now)
  apply t now (lose_worker worker) = (recover_worker_loss true t worker max_retries now).0
  apply t now expire = (recover_expired_leases true t now max_retries).0
  apply t now crash = (recover_in_flight_tasks t max_retries now).0

  unfoldable pub run : Table → List (ℕ × Op) → Table
  run t [] = t
  run t ((now, op) ∷ calls) = run (apply t now op) calls

abbrev pub OpOk : Op → Type 0
OpOk (create new) = IsFresh new
OpOk _ = Unit

module _ {m : ℕ} (t : Table) (now : ℕ) (h : IsValid m t) where
  reclaim_rows-IsValid :
      (why : Reason) (p : Task → Bool)
      → IsValid m (reclaim_rows why m now (select p t) (t, nothing_reclaimed)).0
  reclaim_rows-IsValid why p =
      subst (IsValid m) (sym (reclaim_rows-reclaim_where why m now p t nothing_reclaimed h.unique))
        (update_where-IsValid p (λ row. reclaim why m now row row) t (λ _. refl)
          (λ row good hit. set_reclaimed-RowOk _ why _ now row good) h)

  Outcome-IsValid :
      {R : Type 0} (r : Result StoreError (Table × R))
      → ((t' : Table) (x : R) → r ≡ ok (t', x) → IsValid m t')
      → IsValid m (after t r)
  Outcome-IsValid (ok (t', x)) good = good t' x refl
  Outcome-IsValid (err e) good = h

  apply-IsValid : (op : Op) → 0 < m → OpOk op → IsValid m (apply m t now op)
  unfolding apply recover_worker_loss recover_expired_leases recover_in_flight_tasks
  apply-IsValid (create new) pos fresh =
      Outcome-IsValid (create_task t new now)
        (λ t' x e. create_task-IsValid t new now t' x pos fresh e h)
  apply-IsValid (assign id worker lease_ms) pos _ =
      Outcome-IsValid (assign_task t id worker lease_ms now)
        (λ t' x e. assign_task-IsValid t t' x id now worker lease_ms e h)
  apply-IsValid (start id lease_ms) pos _ =
      Outcome-IsValid (start_task t id lease_ms now)
        (λ t' x e. start_task-IsValid t t' x id now lease_ms e h)
  apply-IsValid (steal id thief lease_ms) pos _ = steal_task-IsValid t id thief lease_ms now h
  apply-IsValid (renew id lease_ms) pos _ = renew_lease-IsValid t id lease_ms now h
  apply-IsValid (renew_worker worker lease_ms) pos _ =
      renew_worker_leases-IsValid t worker lease_ms now h
  apply-IsValid (complete id destination) pos _ =
      Outcome-IsValid (complete_task t id destination now)
        (λ t' x e. complete_task-IsValid t t' x id now destination e h)
  apply-IsValid (fail id why) pos _ =
      Outcome-IsValid (fail_task t id why now) (λ t' x e. fail_task-IsValid t t' x id now why e h)
  apply-IsValid (abandon id why) pos _ =
      Outcome-IsValid (abandon_task t id why now)
        (λ t' x e. abandon_task-IsValid t t' x id now why e h)
  apply-IsValid (record_failure id worker why details) pos _ =
      Outcome-IsValid (record_task_failure t id worker why details m now)
        (λ t' x e. record_task_failure-IsValid t t' x id now worker why details e h)
  apply-IsValid (lose_worker worker) pos _ = reclaim_rows-IsValid _ (held_by worker)
  apply-IsValid expire pos _ = reclaim_rows-IsValid _ (has_expired now)
  apply-IsValid crash pos _ = reclaim_rows-IsValid _ (λ row. is_in_flight row.status)

-- Any sequence of calls, from a valid table, leads to a valid table: no id stands twice; a task
-- has a lease exactly while it is in flight, it has a worker while it is in flight and none while
-- it is pending; a pending task has retries left; and the history of a task has at least as many
-- entries as it has retries. The limit on retries is positive and the same in all calls, and new
-- tasks are not in flight, and without a worker if they are pending.
pub run-IsValid :
    (m : ℕ) (t : Table) (calls : List (ℕ × Op))
    → 0 < m
    → All (λ call. OpOk call.1) calls
    → IsValid m t
    → IsValid m (run m t calls)
unfolding run
run-IsValid m t [] pos good h = h
run-IsValid m t ((now, op) ∷ calls) pos good h =
    run-IsValid m (apply m t now op) calls pos good.1 (apply-IsValid t now h op pos good.0)
