-- ===== src/Store/Stolen.antt =====
-- When a steal of a task succeeds, and what it writes.
use swarm_x.Common.{
  Bool, none, false, ap, ◌∙◌, subst, ℕ, ◌+◌, ◌≡◌, refl, inl, inr, true, ◌&&◌, some, arith, ◌==◌,
  Option-cases, Bool-cases,
}
use swarm_x.Task.{Ident, Task, is_in_flight}
use swarm_x.Store.Table.{Table, find_row, map_row_to_task, get_task}
use swarm_x.Store.Ops.{steal_task, set_stolen, stolen_task, steal_not_found, not_in_flight}
use swarm_x.Store.Rows.{
  get_task-of_row, find_row-id, find_row-update_where, get_task-eq-some, count_where-id,
}

-- What a steal found and wrote: the row of the task was in flight and is assigned to the thief.
pub record Stolen (t : Table) (id thief : Ident) (lease_ms now : ℕ) (t' : Table) : Type 0 where
  pub row : Task
  pub task : Task
  pub found : find_row id t ≡ some row
  pub in_flight : is_in_flight row.status ≡ true
  pub written : find_row id t' ≡ some (set_stolen task thief (now + lease_ms) now row)

-- The table has the task, and in flight.
abbrev pub is_flying : Table → Ident → Bool
is_flying t id = elim (find_row id t) [ none ↦ false | some row ↦ is_in_flight row.status ]

module _ (t : Table) (id thief : Ident) (lease_ms now : ℕ) where
  steal_task-in_flight :
      (task row : Task)
      → get_task t id ≡ some task
      → find_row id t ≡ some row
      → is_in_flight task.status ≡ true
      → is_in_flight row.status ≡ true
      → Stolen t id thief lease_ms now (steal_task t id thief lease_ms now).0
  unfolding steal_task
  steal_task-in_flight task row read found fit fit' = record {
    row = row;
    task = task;
    found = found;
    in_flight = fit';
    written = ground (
      arith,
      read,
      fit,
      find_row-id id t row found,
      count_where-id (λ r. is_in_flight r.status) id t row found fit',
      find_row-update_where (λ r. r.id == id && is_in_flight r.status)
          (set_stolen task thief (now + lease_ms) now) (λ _. refl) id t,
    );
  }

  -- A steal takes the task and returns it as it is now, or it leaves the table and says why.
  pub data StealEnds : Type 0 where
    did_take :
        (r : Task)
        → (steal_task t id thief lease_ms now).1 ≡ stolen_task (some r)
        → get_task (steal_task t id thief lease_ms now).0 id ≡ some r
        → Stolen t id thief lease_ms now (steal_task t id thief lease_ms now).0
        → StealEnds
    is_missing :
        (steal_task t id thief lease_ms now).1 ≡ steal_not_found
        → (steal_task t id thief lease_ms now).0 ≡ t
        → is_flying t id ≡ false
        → StealEnds
    is_settled :
        (task : Task)
        → (steal_task t id thief lease_ms now).1 ≡ not_in_flight task.status
        → (steal_task t id thief lease_ms now).0 ≡ t
        → is_flying t id ≡ false
        → StealEnds

  steal_task-taken :
      (task row : Task)
      → get_task t id ≡ some task
      → find_row id t ≡ some row
      → is_in_flight task.status ≡ true
      → is_in_flight row.status ≡ true
      → (steal_task t id thief lease_ms now).1
        ≡ stolen_task (get_task (steal_task t id thief lease_ms now).0 id)
  unfolding steal_task
  steal_task-taken task row read found fit fit' =
      ground (arith, read, fit, count_where-id (λ r. is_in_flight r.status) id t row found fit')

  grounded : get_task t id ≡ none → is_flying t id ≡ false
  unfolding get_task
  grounded e = ground arith

  pub steal_task_ends : StealEnds
  unfolding steal_task map_row_to_task
  steal_task_ends = elim (Option-cases (get_task t id)) [
    | inl missing ↦ is_missing (ground arith) (ground arith) (grounded missing)
    | inr (task, read) ↦
        let (row, found, same) = get_task-eq-some t id task read in
        elim (Bool-cases (is_in_flight task.status)) [
          | inr unfit ↦
              is_settled task (ground arith) (ground arith)
                (rw (found, is_flying) (subst (λ x. is_in_flight x.status ≡ false) same unfit))
          | inl fit ↦
              let fit' : is_in_flight row.status ≡ true =
                subst (λ x. is_in_flight x.status ≡ true) same fit in
              let did = steal_task-in_flight task row read found fit fit' in
              let read' = get_task-of_row _ id _ did.written in
              did_take _ (steal_task-taken task row read found fit fit' ∙ ap stolen_task read')
                read' did
        ]
  ]
