-- ===== src/Store/Life.antt =====
-- How every call of the store moves a row.
use swarm_x.Common.{ℕ, ◌+◌, ◌≡◌, refl, sym, subst, false, some, [], ◌∷◌, arith, inl, inr}
use swarm_x.Task.{Ident, Task, is_in_flight}
use swarm_x.Store.Table.{Table, find_row, map_row_to_task}
use swarm_x.Store.Ops.{
  renew_worker_leases, renew_lease, assign_task, start_task, complete_task, fail_task, abandon_task,
  held_by, set_lease,
}
use swarm_x.Store.Recovery.{
  recover_worker_loss, recover_expired_leases, recover_in_flight_tasks, record_task_failure,
  has_expired,
}
use swarm_x.Store.Create.{create_task}
use swarm_x.Store.Rows.{Unique, find_row-id}
use swarm_x.Store.Effects.{
  assign_task-eq-ok, start_task-eq-ok, complete_task-eq-ok, fail_task-eq-ok, abandon_task-eq-ok,
  steal_task_cases, record_task_failure-eq-ok,
}
use swarm_x.Store.Insert.{create_task-eq-ok, stored}
use swarm_x.Store.System.{
  Op, create, assign, start, steal, renew, renew_worker, complete, fail, abandon, record_failure,
  lose_worker, expire, crash, apply,
}
use swarm_x.Store.Moves.{
  EvolvesIn, Evolves-self, Evolves-move, Evolves-log, Outcome-Evolves, DidUpdate-Evolves,
  update_where-Evolves, reclaim_rows-Evolves, stay, completes, fails, abandons, assigns_if,
  starts_if, steals_if,
}
use swarm_x.Store.Terminal.{reports, find_row-append_some}

-- In a table where no id stands twice, every call but a `recordTaskFailure` for the task itself
-- leaves the status of a task's row or changes it from PENDING to ASSIGNED, from ASSIGNED to
-- RUNNING, from RUNNING to ASSIGNED, from one in flight to COMPLETED or PENDING, or from one that
-- is not final to FAILED or ABANDONED. Its retries never fall, its history is only added to, and
-- its computation and its dependencies stay.
pub apply-Evolves :
    (m : ℕ) (t : Table) (now : ℕ) (op : Op) (j : Ident) (row : Task)
    → Unique t
    → find_row j t ≡ some row
    → reports j op ≡ false
    → EvolvesIn j row (apply m t now op)
unfolding apply recover_worker_loss recover_expired_leases recover_in_flight_tasks renew_lease
    renew_worker_leases map_row_to_task
apply-Evolves m t now (create new) j row u found _ =
    Outcome-Evolves m t now j row u found (create_task t new now) (λ t' x e.
      let (_, is, _) = create_task-eq-ok t new now t' x e in
      subst (EvolvesIn j row) (sym is)
        (row, find_row-append_some j t (stored new now ∷ []) row found, Evolves-self row))
apply-Evolves m t now (assign id worker lease_ms) j row u found _ =
    Outcome-Evolves m t now j row u found (assign_task t id worker lease_ms now) (λ t' x e.
      DidUpdate-Evolves _ _ id j _ t t' row (λ _ hit. ground arith) (λ _ _. refl) found
        (λ fit hit. Evolves-move row _ (assigns_if row.status (ground arith)) refl refl refl refl)
        (assign_task-eq-ok t id worker lease_ms now t' x e))
apply-Evolves m t now (start id lease_ms) j row u found _ =
    Outcome-Evolves m t now j row u found (start_task t id lease_ms now) (λ t' x e.
      DidUpdate-Evolves _ _ id j _ t t' row (λ _ hit. ground arith) (λ _ _. refl) found
        (λ fit hit. Evolves-move row _ (starts_if row.status (ground arith)) refl refl refl refl)
        (start_task-eq-ok t id lease_ms now t' x e))
apply-Evolves m t now (steal id thief lease_ms) j row u found _ =
    elim (steal_task_cases t id thief lease_ms now) [
      | inl same ↦ subst (EvolvesIn j row) (sym same) (row, found, Evolves-self row)
      | inr did ↦
          DidUpdate-Evolves _ _ id j _ t _ row (λ _ hit. ground arith) (λ _ _. refl) found
            (λ fit hit.
              Evolves-log row _ _ (steals_if row.status (ground arith)) (omega arith) refl refl
                refl)
            did
    ]
apply-Evolves m t now (renew id lease_ms) j row u found _ =
    update_where-Evolves _ (set_lease (now + lease_ms) now) j t row (λ _. refl) found
      (λ hit. Evolves-move row _ stay refl refl refl refl)
apply-Evolves m t now (renew_worker worker lease_ms) j row u found _ =
    update_where-Evolves (held_by worker) (set_lease (now + lease_ms) now) j t row (λ _. refl) found
      (λ hit. Evolves-move row _ stay refl refl refl refl)
apply-Evolves m t now (complete id destination) j row u found _ =
    Outcome-Evolves m t now j row u found (complete_task t id destination now) (λ t' x e.
      DidUpdate-Evolves _ _ id j _ t t' row (λ _ hit. ground arith) (λ _ _. refl) found
        (λ fit hit. Evolves-move row _ (completes (ground arith)) refl refl refl refl)
        (complete_task-eq-ok t id destination now t' x e))
apply-Evolves m t now (fail id why) j row u found _ =
    Outcome-Evolves m t now j row u found (fail_task t id why now) (λ t' x e.
      DidUpdate-Evolves _ _ id j _ t t' row (λ _ hit. ground arith) (λ _ _. refl) found
        (λ fit hit. Evolves-log row _ _ (fails (ground arith)) (omega arith) refl refl refl)
        (fail_task-eq-ok t id why now t' x e))
apply-Evolves m t now (abandon id why) j row u found _ =
    Outcome-Evolves m t now j row u found (abandon_task t id why now) (λ t' x e.
      DidUpdate-Evolves _ _ id j _ t t' row (λ _ hit. ground arith) (λ _ _. refl) found
        (λ fit hit. Evolves-log row _ _ (abandons (ground arith)) (omega arith) refl refl refl)
        (abandon_task-eq-ok t id why now t' x e))
apply-Evolves m t now (record_failure id worker why details) j row u found other =
    Outcome-Evolves m t now j row u found (record_task_failure t id worker why details m now)
      (λ t' x e.
        DidUpdate-Evolves _ _ id j _ t t' row (λ _ hit. ground arith) (λ _ _. refl) found
          (λ fit hit. absurd (ground (arith, find_row-id j t row)))
          (record_task_failure-eq-ok t id worker why details m now t' x e))
apply-Evolves m t now (lose_worker worker) j row u found _ =
    reclaim_rows-Evolves m t now j row u found _ (held_by worker) (λ hit. ground arith)
apply-Evolves m t now expire j row u found _ =
    reclaim_rows-Evolves m t now j row u found _ (has_expired now) (λ hit. ground arith)
apply-Evolves m t now crash j row u found _ =
    reclaim_rows-Evolves m t now j row u found _ (λ r. is_in_flight r.status) (λ hit. hit)
