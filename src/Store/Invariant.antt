-- ===== src/Store/Invariant.antt =====
-- What holds of every row between two calls of the store, and when an UPDATE keeps it.
use swarm_x.Common.{
  ℕ, ◌+◌, ◌≤◌, ◌<◌, ◌≡◌, sym, subst, Bool, true, false, Option, none, some, All, length,
  length-append,
}
use swarm_x.Task.{Ident, Task, Reason, Details, is_in_flight, pending}
use swarm_x.Store.Table.{Table, map_row_to_task, update_where}
use swarm_x.Store.Ops.{log_attempt}
use swarm_x.Store.Rows.{
  OnlyId, All-update_one, Unique, KeepsId, Unique-update_where, All-update_where, get_task-eq-some,
}
use swarm_x.Store.Effects.{DidUpdate}

abbrev pub is_some : Option ℕ → Bool
is_some none = false
is_some (some _) = true

-- With `max_retries` as the limit that all calls use.
pub record RowOk (max_retries : ℕ) (row : Task) : Type 0 where
  pub retries_left : row.status ≡ pending → row.retry_count < max_retries
  pub history_long : row.retry_count ≤ length row.attempt_history
  pub lease_held : is_some row.lease_expires_at_ms ≡ is_in_flight row.status
  pub owned : is_in_flight row.status ≡ true → is_some row.assigned_worker_id ≡ true
  pub unowned : row.status ≡ pending → row.assigned_worker_id ≡ none

pub record IsValid (max_retries : ℕ) (t : Table) : Type 0 where
  pub unique : Unique t
  pub rows : All (RowOk max_retries) t

-- An UPDATE that leaves ids alone and makes good rows of the rows that it picks.
pub update_where-IsValid :
    {m : ℕ} (p : Task → Bool) (f : Task → Task) (t : Table)
    → KeepsId f
    → ((row : Task) → RowOk m row → p row ≡ true → RowOk m (f row))
    → IsValid m t
    → IsValid m (update_where p f t)
update_where-IsValid p f t keeps good h = record {
  unique = Unique-update_where p f keeps t h.unique;
  rows = All-update_where (RowOk _) p f t good h.rows;
}

-- The same for an operation on one task, whose row is known to be good. What the operation read is
-- that row.
pub DidUpdate-IsValid :
    {m : ℕ} (p : Task → Bool) (f : Task → Task → Task) (id : Ident) (fits : Task → Bool)
    (t t' : Table)
    → OnlyId id p
    → ((task : Task) → KeepsId (f task))
    → ((row : Task) → RowOk m row → p row ≡ true → RowOk m (f (map_row_to_task row) row))
    → DidUpdate t id fits (λ task. update_where p (f task) t) t'
    → IsValid m t
    → IsValid m t'
DidUpdate-IsValid {m} p f id fits t t' only keeps good did h =
    let (row, found, is) = get_task-eq-some t id did.task did.read in
    let step = λ (ok : RowOk m row) (hit : p row ≡ true).
      subst (λ task. RowOk m (f task row)) (sym is) (good row ok hit) in
    subst (IsValid m) (sym did.after) (record {
      unique = Unique-update_where p (f did.task) (keeps did.task) t h.unique;
      rows = All-update_one (RowOk m) p (f did.task) id t row h.unique only found step h.rows;
    })

pub length-log_attempt :
    (task : Task) (now : ℕ) (worker : Option Ident) (why : Reason) (details : Details)
    → length (log_attempt task now worker why details) ≡ length task.attempt_history + 1
length-log_attempt task now worker why details = length-append task.attempt_history _
