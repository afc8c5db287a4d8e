-- ===== src/Store/Examples.antt =====
-- Tests of the task store on a small table, and each theorem about it applied there.
use swarm_x.Common.{
  Option, ℕ, ◌+◌, ◌≡◌, ◌≢◌, refl, ◌↔◌, true, false, none, some, List, [], ◌∷◌, ◌++◌, arith, ok, err,
  All, length,
}
use swarm_x.Task.{
  Ident, Task, TaskStatus, pending, running, completed, execution_error, lease_expired,
  worker_disconnected, blank,
}
use swarm_x.Common.Sorting.{sort_by}
use swarm_x.Graph.Search.{has_cycle, scan_parents}
use swarm_x.Graph.Reach.{here, step, Ends, IsOnCycle}
use swarm_x.Store.Table.{
  Table, find_row, map_row_to_task, get_task, list_tasks, are_dependencies_satisfied, cannot_assign,
  search_unfinished,
}
use swarm_x.Store.Ops.{assign_task, set_assigned, held_by}
use swarm_x.Store.Recovery.{
  recover_worker_loss, get_active_task_count_for_worker, record_task_failure, reclaim,
}
use swarm_x.Store.Create.{NewTask, create_task, adjacency, full_task}
use swarm_x.Store.Rows.{Unique, updated}
use swarm_x.Store.Invariant.{IsValid}
use swarm_x.Store.Insert.{stored}
use swarm_x.Store.System.{
  Op, create, assign, start, steal, complete, fail, lose_worker, crash, apply, run, run-IsValid,
}
use swarm_x.Store.Acyclic.{create_task-acyclic, create_task-cycle, create_task_finishes}
use swarm_x.Store.Terminal.{apply-terminal}
use swarm_x.Store.Moves.{EvolvesIn}
use swarm_x.Store.Life.{apply-Evolves}
use swarm_x.Store.Assignment.{assign_task-assign_task}
use swarm_x.Store.Dependencies.{Distinct, has_completed, are_dependencies_satisfied_iff}
use swarm_x.Store.Recovered.{recover_worker_loss_lem}
use swarm_x.Store.Reports.{record_task_failure-reopens}

-- The worker 7 did the first task and runs the third; the second waits for the first.
abbrev base : Ident → List Ident → Task
base id deps = record {
  id = id;
  input_ref = 0;
  computation_descriptor = 90;
  required_resources = record {
    min_cpu_cores = none;
    min_ram_mb = none;
    requires_gpu = false;
    min_battery_level = none;
  };
  dependencies = deps;
  execution_constraints = [];
  result_destination = 0;
  retry_count = 0;
  attempt_history = [];
  status = pending;
  assigned_worker_id = none;
  lease_expires_at_ms = none;
  created_at_ms = id;
  updated_at_ms = id;
}

abbrev done : Task
done = record (base 1 []) { status = completed; assigned_worker_id = some 7 }

abbrev waiting : Task
waiting = base 2 (1 ∷ [])

abbrev busy : Task
busy = record (base 3 []) {
  status = running;
  retry_count = 1;
  assigned_worker_id = some 7;
  lease_expires_at_ms = some 500;
  attempt_history =
      record {
        timestamp_ms = 50;
        worker_id = some 8;
        previous_status = running;
        reason = execution_error;
        details = blank;
      }
      ∷ [];
}

abbrev table : Table
table = done ∷ waiting ∷ busy ∷ []

abbrev new_task : Ident → List Ident → NewTask
new_task id deps = record {
  id = id;
  input_ref = 0;
  computation_descriptor = 91;
  required_resources = (base id []).required_resources;
  dependencies = deps;
  execution_constraints = [];
  result_destination = none;
  status = none;
  assigned_worker_id = none;
}

table-Unique : Unique table
table-Unique = (refl, (refl, (refl, tt)))

table-IsValid : IsValid 3 table
table-IsValid = record { unique = table-Unique; rows = ground arith }

-- An old task names the new one before it is there: then the new one closes a cycle.
abbrev forward : Table
forward = base 1 (4 ∷ []) ∷ []

abbrev calls : List (ℕ × Op)
calls =
    (10, create (new_task 4 (2 ∷ [])))
    ∷ (20, assign 2 8 100)
    ∷ (30, start 2 100)
    ∷ (35, steal 2 9 100)
    ∷ (40, complete 2 none)
    ∷ (50, lose_worker 7)
    ∷ (60, crash)
    ∷ []

-- The ids in the order of their creation.
ids : List Task → List Ident
ids [] = []
ids (task ∷ tasks) = task.id ∷ ids tasks

list_tasks_test : ids (list_tasks none (busy ∷ waiting ∷ done ∷ [])) ≡ 1 ∷ 2 ∷ 3 ∷ []
unfolding list_tasks ids sort_by
list_tasks_test = refl

create_task-acyclic_example :
    Ends (adjacency table 4 (2 ∷ [])) 1 × ¬ IsOnCycle (adjacency table 4 (2 ∷ [])) 1
unfolding create_task has_cycle scan_parents adjacency list_tasks sort_by full_task
create_task-acyclic_example =
    create_task-acyclic table (new_task 4 (2 ∷ [])) 10
      (table ++ stored (new_task 4 (2 ∷ [])) 10 ∷ []) (full_task (new_task 4 (2 ∷ [])) 10) 1 refl
      (step {m = 2} (step here refl) refl)

create_task-cycle_example : (n : Ident) × IsOnCycle (adjacency forward 4 (1 ∷ [])) n
unfolding create_task has_cycle scan_parents adjacency list_tasks sort_by full_task
create_task-cycle_example = create_task-cycle forward (new_task 4 (1 ∷ [])) 10 (4 ∷ 1 ∷ 4 ∷ []) refl

create_task_finishes_example :
    create_task forward (new_task 4 (1 ∷ [])) 10 ≢ err (search_unfinished 4)
create_task_finishes_example = create_task_finishes forward (new_task 4 (1 ∷ [])) 10 4

run-IsValid_example : IsValid 3 (run 3 table calls)
run-IsValid_example =
    run-IsValid 3 table calls (omega arith)
      (record { idle = refl; free = λ _. refl }, (tt, (tt, (tt, (tt, (tt, (tt, tt)))))))
      table-IsValid

-- A failure for a task that has ended, and a steal of one that runs.
apply-terminal_example : find_row 1 (apply 3 table 60 (fail 1 lease_expired)) ≡ some done
apply-terminal_example =
    apply-terminal 3 table 60 (fail 1 lease_expired) 1 done table-Unique refl refl refl

apply-Evolves_example : EvolvesIn 3 busy (apply 3 table 60 (steal 3 9 100))
apply-Evolves_example = apply-Evolves 3 table 60 (steal 3 9 100) 3 busy table-Unique refl refl

abbrev assigned_table : Table
assigned_table = done ∷ set_assigned 8 120 20 waiting ∷ busy ∷ []

assign_task-assign_task_example :
    assign_task assigned_table 2 9 50 21 ≡ err (cannot_assign TaskStatus.assigned)
unfolding assign_task get_task map_row_to_task
assign_task-assign_task_example =
    assign_task-assign_task table 2 8 9 100 50 20 21 assigned_table
      (some (set_assigned 8 120 20 waiting)) refl

are_dependencies_satisfied_iff_example :
    (are_dependencies_satisfied table 2 ≡ true)
    ↔ (Distinct (1 ∷ []) × All (λ d. has_completed table d ≡ true) (1 ∷ []))
are_dependencies_satisfied_iff_example =
    are_dependencies_satisfied_iff table 2 waiting table-Unique refl

-- A repeated dependency is never satisfied, though the task that it names is completed.
repeated_test : are_dependencies_satisfied (done ∷ base 2 (1 ∷ 1 ∷ []) ∷ []) 2 ≡ false
unfolding are_dependencies_satisfied get_task map_row_to_task
repeated_test = refl

recover_worker_loss_lem_example :
    let (t', r) = recover_worker_loss true table 7 3 600 in
    (get_active_task_count_for_worker t' 7 ≡ 0)
    × ((j : Ident)
        → find_row j t'
          ≡ updated
              (held_by 7)
              (λ row. reclaim worker_disconnected 3 600 row row)
              (find_row j table))
    × (length r.recovered + length r.failed ≡ get_active_task_count_for_worker table 7)
recover_worker_loss_lem_example = recover_worker_loss_lem table 3 600 table-Unique 7

record_task_failure-reopens_example :
    (t' : Table) × (r : Option Task) × (row' : Task) × (record_task_failure table 1 7
        execution_error blank 3 700
      ≡ ok (t', r))
    × (find_row 1 t' ≡ some row')
    × (row'.status ≡ pending)
record_task_failure-reopens_example =
    record_task_failure-reopens table 1 7 execution_error blank 3 700 done refl refl (omega arith)
