-- ===== src/Store/Moves.antt =====
-- The life of a task: the edges of its state diagram, and what only grows along the way.
use swarm_x.Common.{
  ℕ, ◌+◌, ◌≤◌, ◌≡◌, refl, sym, subst, ◌∙◌, Bool, true, false, some, List, [], ◌++◌, arith, Result,
  ok, err, inl, inr, Bool-cases, leb, select, append-nil,
}
use swarm_x.Task.{
  Ident, Task, TaskAttempt, TaskStatus, Reason, pending, assigned, running, completed, abandoned,
  failed, is_in_flight, is_terminal, is_pending, is_assigned,
}
use swarm_x.Store.Table.{Table, StoreError, find_row, map_row_to_task, update_where}
use swarm_x.Store.Recovery.{reclaim, reclaim_rows, nothing_reclaimed}
use swarm_x.Store.Rows.{Unique, KeepsId, OnlyId, find_row-update_where, find_row-id}
use swarm_x.Store.Effects.{DidUpdate}
use swarm_x.Store.Reclaim.{reclaim_rows-reclaim_where}
use swarm_x.Store.System.{after}
use swarm_x.Store.Terminal.{DidUpdate-task}

infix 40 ◌⟶◌
pub data ◌⟶◌ : TaskStatus → TaskStatus → Type 0 where
  stay : {s : TaskStatus} → s ⟶ s
  assigns : pending ⟶ assigned
  starts : assigned ⟶ running
  steals : running ⟶ assigned
  completes : {s : TaskStatus} → is_in_flight s ≡ true → s ⟶ completed
  fails : {s : TaskStatus} → is_terminal s ≡ false → s ⟶ failed
  abandons : {s : TaskStatus} → is_terminal s ≡ false → s ⟶ abandoned
  reclaims : {s : TaskStatus} → is_in_flight s ≡ true → s ⟶ pending

-- One call's effect on a row: a move along an edge, retries that only grow, a history that is only
-- added to, and the same work and dependencies.
pub record Evolves (row row' : Task) : Type 0 where
  pub moved : row.status ⟶ row'.status
  pub retries : row.retry_count ≤ row'.retry_count
  pub more : List TaskAttempt
  pub history : row'.attempt_history ≡ row.attempt_history ++ more
  pub same_work : row'.computation_descriptor ≡ row.computation_descriptor
  pub same_dependencies : row'.dependencies ≡ row.dependencies

pub Evolves-self : (row : Task) → Evolves row row
Evolves-self row = record {
  moved = stay;
  retries = omega arith;
  more = [];
  history = sym (append-nil row.attempt_history);
  same_work = refl;
  same_dependencies = refl;
}

-- A call that writes an entry at the end of the history.
pub Evolves-log :
    (row row' : Task) (log : List TaskAttempt)
    → row.status ⟶ row'.status
    → row.retry_count ≤ row'.retry_count
    → row'.attempt_history ≡ row.attempt_history ++ log
    → row'.computation_descriptor ≡ row.computation_descriptor
    → row'.dependencies ≡ row.dependencies
    → Evolves row row'
Evolves-log row row' log moved retries history work deps = record {
  moved = moved;
  retries = retries;
  more = log;
  history = history;
  same_work = work;
  same_dependencies = deps;
}

-- The row of `j` after a call.
abbrev pub EvolvesIn : Ident → Task → Table → Type 0
EvolvesIn j row t' = (row' : Task) × (find_row j t' ≡ some row') × Evolves row row'

-- An UPDATE that writes neither the retries nor the history.
pub Evolves-move :
    (row row' : Task)
    → row.status ⟶ row'.status
    → row'.retry_count ≡ row.retry_count
    → row'.attempt_history ≡ row.attempt_history
    → row'.computation_descriptor ≡ row.computation_descriptor
    → row'.dependencies ≡ row.dependencies
    → Evolves row row'
Evolves-move row row' moved retries history work deps = record {
  moved = moved;
  retries = omega arith;
  more = [];
  history = history ∙ sym (append-nil row.attempt_history);
  same_work = work;
  same_dependencies = deps;
}

pub assigns_if : (s : TaskStatus) → is_pending s ≡ true → s ⟶ assigned
assigns_if pending h = assigns
assigns_if _ h = cc

pub starts_if : (s : TaskStatus) → is_assigned s ≡ true → s ⟶ running
starts_if assigned h = starts
starts_if _ h = cc

-- A stolen task is assigned to the thief, also if it was not yet running.
pub steals_if : (s : TaskStatus) → is_in_flight s ≡ true → s ⟶ assigned
steals_if assigned h = stay
steals_if running h = steals
steals_if _ h = cc

pub update_where-Evolves :
    (p : Task → Bool) (f : Task → Task) (j : Ident) (t : Table) (row : Task)
    → KeepsId f
    → find_row j t ≡ some row
    → (p row ≡ true → Evolves row (f row))
    → EvolvesIn j row (update_where p f t)
update_where-Evolves p f j t row keeps found evolves = elim (Bool-cases (p row)) [
  | inl hit ↦ (f row, ground (arith, find_row-update_where p f keeps j t), evolves hit)
  | inr miss ↦ (row, ground (arith, find_row-update_where p f keeps j t), Evolves-self row)
]

pub DidUpdate-Evolves :
    (p : Task → Bool) (f : Task → Task → Task) (id j : Ident) (fits : Task → Bool) (t t' : Table)
    (row : Task)
    → OnlyId id p
    → ((task : Task) → KeepsId (f task))
    → find_row j t ≡ some row
    → (fits (map_row_to_task row) ≡ true → p row ≡ true → Evolves row (f (map_row_to_task row) row))
    → DidUpdate t id fits (λ task. update_where p (f task) t) t'
    → EvolvesIn j row t'
DidUpdate-Evolves p f id j fits t t' row only keeps found evolves did =
    subst (EvolvesIn j row) (sym did.after) (
      update_where-Evolves p (f did.task) j t row (keeps did.task) found (λ hit.
        let named : j ≡ id = sym (find_row-id j t row found) ∙ only row hit in
        let is =
          DidUpdate-task id fits _ t t' row (subst (λ i. find_row i t ≡ some row) named found)
            did in
        subst (λ task. Evolves row (f task row)) (sym is)
          (evolves (subst (λ task. fits task ≡ true) is did.fit) hit)))

module _ (m : ℕ) (t : Table) (now : ℕ) (j : Ident) (row : Task) (unique : Unique t)
    (found : find_row j t ≡ some row) where
  pub Outcome-Evolves :
      {R : Type 0} (r : Result StoreError (Table × R))
      → ((t' : Table) (x : R) → r ≡ ok (t', x) → EvolvesIn j row t')
      → EvolvesIn j row (after t r)
  Outcome-Evolves (ok (t', x)) good = good t' x refl
  Outcome-Evolves (err e) good = (row, found, Evolves-self row)

  pub reclaim_rows-Evolves :
      (why : Reason) (p : Task → Bool)
      → (p row ≡ true → is_in_flight row.status ≡ true)
      → EvolvesIn j row (reclaim_rows why m now (select p t) (t, nothing_reclaimed)).0
  unfolding map_row_to_task
  reclaim_rows-Evolves why p busy =
      subst (EvolvesIn j row)
        (sym (reclaim_rows-reclaim_where why m now p t nothing_reclaimed unique))
        (update_where-Evolves p (λ r. reclaim why m now r r) j t row (λ _. refl) found
          (λ hit. record {
            moved = elim (Bool-cases (leb m (row.retry_count + 1))) [
              | inl used_up ↦ rw used_up (fails (ground (arith, busy hit)))
              | inr left ↦ rw left (reclaims (busy hit))
            ];
            retries = omega arith;
            more = _;
            history = refl;
            same_work = refl;
            same_dependencies = refl;
          }))
