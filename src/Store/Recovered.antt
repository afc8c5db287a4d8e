-- ===== src/Store/Recovered.antt =====
-- What the recoveries leave behind: no task in flight that they should have taken back, and no
-- other row changed.
use swarm_x.Common.{ℕ, ◌+◌, ◌≡◌, refl, ap, ◌∙◌, Bool, true, false, [], ◌∷◌, arith, select, length}
use swarm_x.Task.{
  Ident, Task, Reason, is_in_flight, worker_disconnected, lease_expired, host_crash_recovery,
}
use swarm_x.Store.Table.{Table, find_row, update_where, count_where}
use swarm_x.Store.Ops.{held_by}
use swarm_x.Store.Recovery.{
  recover_worker_loss, recover_expired_leases, recover_in_flight_tasks, reclaim, reclaim_rows,
  has_expired, nothing_reclaimed, get_active_task_count_for_worker,
}
use swarm_x.Store.Rows.{Unique, updated, find_row-update_where}
use swarm_x.Store.Reclaim.{reclaim_rows-reclaim_where, reclaim_rows-count}

-- No row that the test picks is left by an UPDATE whose new rows the test does not pick.
count_where-update_where :
    (p : Task → Bool) (f : Task → Task) (t : Table)
    → ((row : Task) → p row ≡ true → p (f row) ≡ false)
    → count_where p (update_where p f t) ≡ 0
count_where-update_where p f [] clears = refl
count_where-update_where p f (row ∷ t) clears =
    ground (arith, clears row, count_where-update_where p f t clears)

-- The rows of a recovery: those that its SELECT picks are reclaimed, each with the status that its
-- retries allow, and the others are as they were.
module _ (t : Table) (max_retries now : ℕ) (u : Unique t) where
  reclaim_rows-row :
      (why : Reason) (p : Task → Bool) (j : Ident)
      → find_row j (reclaim_rows why max_retries now (select p t) (t, nothing_reclaimed)).0
        ≡ updated p (λ row. reclaim why max_retries now row row) (find_row j t)
  reclaim_rows-row why p j =
      ap (find_row j) (reclaim_rows-reclaim_where why max_retries now p t nothing_reclaimed u)
      ∙ find_row-update_where p (λ row. reclaim why max_retries now row row) (λ _. refl) j t

  reclaim_rows-clears :
      (why : Reason) (p : Task → Bool)
      → ((row : Task) → p row ≡ true → p (reclaim why max_retries now row row) ≡ false)
      → count_where p (reclaim_rows why max_retries now (select p t) (t, nothing_reclaimed)).0 ≡ 0
  reclaim_rows-clears why p clears =
      ap (count_where p) (reclaim_rows-reclaim_where why max_retries now p t nothing_reclaimed u)
      ∙ count_where-update_where p (λ row. reclaim why max_retries now row row) t clears

  length-select : (p : Task → Bool) (v : Table) → length (select p v) ≡ count_where p v
  length-select p [] = refl
  length-select p (row ∷ v) = ground (arith, length-select p v)

  -- In a table where no id stands twice: after a crash of the host no task is in flight; each row
  -- that was gets one more retry and an entry in its history, and is pending, or failed if its
  -- retries are used up; every other row is as it was; and the two lists that are returned have
  -- as many tasks as there were in flight.
  pub recover_in_flight_tasks_lem :
      let (t', r) = recover_in_flight_tasks t max_retries now in
      (count_where (λ row. is_in_flight row.status) t' ≡ 0)
      × ((j : Ident)
          → find_row j t'
            ≡ updated
                (λ row. is_in_flight row.status)
                (λ row. reclaim host_crash_recovery max_retries now row row)
                (find_row j t))
      × (length r.recovered + length r.failed ≡ count_where (λ row. is_in_flight row.status) t)
  unfolding recover_in_flight_tasks
  recover_in_flight_tasks_lem =
      let p = λ (row : Task). is_in_flight row.status in
      (
        reclaim_rows-clears host_crash_recovery p (λ row h. ground arith),
        reclaim_rows-row host_crash_recovery p,
        omega (
          arith,
          reclaim_rows-count host_crash_recovery max_retries now (select p t) t nothing_reclaimed,
          length-select p t,
        ),
      )

  -- In a table where no id stands twice, with the database open: after the loss of a worker it
  -- has no active task, the rows that it held are reclaimed as after a crash, with their own
  -- reason, every other row is as it was, and the two lists that are returned have as many tasks
  -- as the worker had.
  pub recover_worker_loss_lem :
      (worker : Ident)
      → let (t', r) = recover_worker_loss true t worker max_retries now in
        (get_active_task_count_for_worker t' worker ≡ 0)
        × ((j : Ident)
            → find_row j t'
              ≡ updated
                  (held_by worker)
                  (λ row. reclaim worker_disconnected max_retries now row row)
                  (find_row j t))
        × (length r.recovered + length r.failed ≡ get_active_task_count_for_worker t worker)
  unfolding recover_worker_loss get_active_task_count_for_worker
  recover_worker_loss_lem worker =
      let p = held_by worker in
      (
        reclaim_rows-clears worker_disconnected p (λ row h. ground arith),
        reclaim_rows-row worker_disconnected p,
        omega (
          arith,
          reclaim_rows-count worker_disconnected max_retries now (select p t) t nothing_reclaimed,
          length-select p t,
        ),
      )

  -- In a table where no id stands twice, with the database open: after the watchdog no task in
  -- flight has a lease that ended before now, the rows whose lease had ended are reclaimed as
  -- after a crash, with their own reason, every other row is as it was, and the two lists that
  -- are returned have as many tasks as leases had ended.
  recover_expired_leases_lem :
      let (t', r) = recover_expired_leases true t now max_retries in
      (count_where (has_expired now) t' ≡ 0)
      × ((j : Ident)
          → find_row j t'
            ≡ updated
                (has_expired now)
                (λ row. reclaim lease_expired max_retries now row row)
                (find_row j t))
      × (length r.recovered + length r.failed ≡ count_where (has_expired now) t)
  unfolding recover_expired_leases
  recover_expired_leases_lem =
      let p = has_expired now in
      (
        reclaim_rows-clears lease_expired p (λ row h. ground arith),
        reclaim_rows-row lease_expired p,
        omega (
          arith,
          reclaim_rows-count lease_expired max_retries now (select p t) t nothing_reclaimed,
          length-select p t,
        ),
      )
