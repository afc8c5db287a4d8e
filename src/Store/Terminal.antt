-- ===== src/Store/Terminal.antt =====
-- What a call may do to a row that is completed, failed or abandoned.
use swarm_x.Common.{
  ap, ℕ, ◌+◌, ◌≡◌, refl, sym, subst, ◌∙◌, Bool, true, false, some, [], ◌∷◌, ◌++◌, arith, Result, ok,
  err, inl, inr, ◌==◌, select,
}
use swarm_x.Task.{Ident, Task, Reason, is_in_flight, is_terminal}
use swarm_x.Store.Table.{Table, StoreError, find_row, map_row_to_task, update_where}
use swarm_x.Store.Ops.{
  assign_task, start_task, renew_lease, renew_worker_leases, complete_task, fail_task, abandon_task,
  held_by, set_lease,
}
use swarm_x.Store.Recovery.{
  recover_worker_loss, recover_expired_leases, recover_in_flight_tasks, record_task_failure,
  reclaim, reclaim_rows, has_expired, nothing_reclaimed,
}
use swarm_x.Store.Create.{create_task}
use swarm_x.Store.Rows.{Unique, KeepsId, find_row-update_where, get_task-eq-some, find_row-id}
use swarm_x.Store.Effects.{
  DidUpdate, assign_task-eq-ok, start_task-eq-ok, complete_task-eq-ok, fail_task-eq-ok,
  abandon_task-eq-ok, steal_task_cases, record_task_failure-eq-ok,
}
use swarm_x.Store.Insert.{create_task-eq-ok, stored}
use swarm_x.Store.Reclaim.{reclaim_rows-reclaim_where}
use swarm_x.Store.System.{
  Op, create, assign, start, steal, renew, renew_worker, complete, fail, abandon, record_failure,
  lose_worker, expire, crash, after, apply,
}

-- An UPDATE whose test a row fails leaves that row.
update_where-kept :
    (p : Task → Bool) (f : Task → Task) (j : Ident) (t : Table) (row : Task)
    → KeepsId f
    → find_row j t ≡ some row
    → p row ≡ false
    → find_row j (update_where p f t) ≡ some row
update_where-kept p f j t row keeps found miss = ground (arith, find_row-update_where p f keeps j t)

-- An operation read the row that the table has.
pub DidUpdate-task :
    (id : Ident) (fits : Task → Bool) (next : Task → Table) (t t' : Table) (row : Task)
    → find_row id t ≡ some row
    → (did : DidUpdate t id fits next t') → did.task ≡ map_row_to_task row
DidUpdate-task id fits next t t' row found did =
    let (read, there, is) = get_task-eq-some t id did.task did.read in
    is ∙ ap map_row_to_task (ground (arith, there, found))

-- The same for an operation that read the task `id` and found it fit.
DidUpdate-kept :
    (p : Task → Bool) (f : Task → Task → Task) (id j : Ident) (fits : Task → Bool) (t t' : Table)
    (row : Task)
    → ((task : Task) → KeepsId (f task))
    → find_row j t ≡ some row
    → ((j ≡ id → fits (map_row_to_task row) ≡ true) → p row ≡ false)
    → DidUpdate t id fits (λ task. update_where p (f task) t) t'
    → find_row j t' ≡ some row
DidUpdate-kept p f id j fits t t' row keeps found miss did =
    let fit : j ≡ id → fits (map_row_to_task row) ≡ true = λ same.
      subst (λ task. fits task ≡ true)
        (DidUpdate-task id fits _ t t' row (subst (λ i. find_row i t ≡ some row) same found) did)
        did.fit in
    subst (λ v. find_row j v ≡ some row) (sym did.after)
      (update_where-kept p (f did.task) j t row (keeps did.task) found (miss fit))

pub find_row-append_some :
    (j : Ident) (t u : Table) (row : Task)
    → find_row j t ≡ some row
    → find_row j (t ++ u) ≡ some row
find_row-append_some j [] u row h = cc
find_row-append_some j (r ∷ t) u row h = ground (arith, find_row-append_some j t u row)

module _ (m : ℕ) (t : Table) (now : ℕ) (j : Ident) (row : Task) (unique : Unique t)
    (found : find_row j t ≡ some row) (ended : is_terminal row.status ≡ true) where
  abbrev Kept : Table → Type 0
  Kept t' = find_row j t' ≡ some row

  Outcome-Kept :
      {R : Type 0} (r : Result StoreError (Table × R))
      → ((t' : Table) (x : R) → r ≡ ok (t', x) → Kept t')
      → Kept (after t r)
  Outcome-Kept (ok (t', x)) good = good t' x refl
  Outcome-Kept (err e) good = found

  reclaim_rows-Kept :
      (why : Reason) (p : Task → Bool)
      → p row ≡ false
      → Kept (reclaim_rows why m now (select p t) (t, nothing_reclaimed)).0
  reclaim_rows-Kept why p miss =
      subst Kept (sym (reclaim_rows-reclaim_where why m now p t nothing_reclaimed unique))
        (update_where-kept p (λ r. reclaim why m now r r) j t row (λ _. refl) found miss)

-- The late report of a failure, for the task `j`.
abbrev pub reports : Ident → Op → Bool
reports j (record_failure id _ _ _) = id == j
reports j _ = false

-- In a table where no id stands twice, a task that is completed, failed or abandoned keeps its
-- row under every call but a `recordTaskFailure` for that very task.
pub apply-terminal :
    (m : ℕ) (t : Table) (now : ℕ) (op : Op) (j : Ident) (row : Task)
    → Unique t
    → find_row j t ≡ some row
    → is_terminal row.status ≡ true
    → reports j op ≡ false
    → find_row j (apply m t now op) ≡ some row
unfolding apply recover_worker_loss recover_expired_leases recover_in_flight_tasks renew_lease
    renew_worker_leases map_row_to_task
apply-terminal m t now (create new) j row u found ended _ =
    Outcome-Kept m t now j row u found ended (create_task t new now) (λ t' x e.
      let (_, is, _) = create_task-eq-ok t new now t' x e in
      subst (λ v. find_row j v ≡ some row) (sym is)
        (find_row-append_some j t (stored new now ∷ []) row found))
apply-terminal m t now (assign id worker lease_ms) j row u found ended _ =
    Outcome-Kept m t now j row u found ended (assign_task t id worker lease_ms now) (λ t' x e.
      DidUpdate-kept _ _ id j _ t t' row (λ _ _. refl) found (λ fit. ground arith)
        (assign_task-eq-ok t id worker lease_ms now t' x e))
apply-terminal m t now (start id lease_ms) j row u found ended _ =
    Outcome-Kept m t now j row u found ended (start_task t id lease_ms now) (λ t' x e.
      DidUpdate-kept _ _ id j _ t t' row (λ _ _. refl) found (λ fit. ground arith)
        (start_task-eq-ok t id lease_ms now t' x e))
apply-terminal m t now (steal id thief lease_ms) j row u found ended _ =
    elim (steal_task_cases t id thief lease_ms now) [
      | inl same ↦ subst (λ v. find_row j v ≡ some row) (sym same) found
      | inr did ↦ DidUpdate-kept _ _ id j _ t _ row (λ _ _. refl) found (λ fit. ground arith) did
    ]
apply-terminal m t now (renew id lease_ms) j row u found ended _ =
    update_where-kept _ (set_lease (now + lease_ms) now) j t row (λ _. refl) found (ground arith)
apply-terminal m t now (renew_worker worker lease_ms) j row u found ended _ =
    update_where-kept (held_by worker) (set_lease (now + lease_ms) now) j t row (λ _. refl) found
      (ground arith)
apply-terminal m t now (complete id destination) j row u found ended _ =
    Outcome-Kept m t now j row u found ended (complete_task t id destination now) (λ t' x e.
      DidUpdate-kept _ _ id j _ t t' row (λ _ _. refl) found (λ fit. ground arith)
        (complete_task-eq-ok t id destination now t' x e))
apply-terminal m t now (fail id why) j row u found ended _ =
    Outcome-Kept m t now j row u found ended (fail_task t id why now) (λ t' x e.
      DidUpdate-kept _ _ id j _ t t' row (λ _ _. refl) found
        (λ fit. ground (arith, find_row-id j t row)) (fail_task-eq-ok t id why now t' x e))
apply-terminal m t now (abandon id why) j row u found ended _ =
    Outcome-Kept m t now j row u found ended (abandon_task t id why now) (λ t' x e.
      DidUpdate-kept _ _ id j _ t t' row (λ _ _. refl) found
        (λ fit. ground (arith, find_row-id j t row)) (abandon_task-eq-ok t id why now t' x e))
apply-terminal m t now (record_failure id worker why details) j row u found ended other =
    Outcome-Kept m t now j row u found ended (record_task_failure t id worker why details m now)
      (λ t' x e.
        DidUpdate-kept _ _ id j _ t t' row (λ _ _. refl) found
          (λ fit. ground (arith, find_row-id j t row))
          (record_task_failure-eq-ok t id worker why details m now t' x e))
apply-terminal m t now (lose_worker worker) j row u found ended _ =
    reclaim_rows-Kept m t now j row u found ended _ (held_by worker) (ground arith)
apply-terminal m t now expire j row u found ended _ =
    reclaim_rows-Kept m t now j row u found ended _ (has_expired now) (ground arith)
apply-terminal m t now crash j row u found ended _ =
    reclaim_rows-Kept m t now j row u found ended _ (λ r. is_in_flight r.status) (ground arith)
