-- ===== src/Pipeline/Cancelled.antt =====
-- What `cancelWorkload` does to the listeners, and that it does nothing to the store.
use swarm_x.Common.{
  ==_iff, if◌then◌else◌, ◌&&◌, ◌≡◌, refl, sym, subst, ◌∙◌, Bool, true, false, ◌||◌, none, some,
  List, [], ◌∷◌, ◌==◌, includes, arith, Option-cases, Bool-cases, inl, inr,
}
use swarm_x.Common.Dict.{get, get-set}
use swarm_x.Task.{Ident, is_pending, is_in_flight}
use swarm_x.Store.Table.{Table, get_task}
use swarm_x.Pipeline.{ActiveWorkloadState, WorkloadPipeline, delete_id}
use swarm_x.Pipeline.Workloads.{cancel_task, cancel_tasks, cancel_workload}

includes-delete_id :
    (id j : Ident) (ids : List Ident)
    → includes (delete_id id ids) j ≡ (if id == j then false else includes ids j)
includes-delete_id id j [] = ground arith
includes-delete_id id j (x ∷ ids) = ground (arith, includes-delete_id id j ids)

-- The task is to be told of a cancellation: it is PENDING, ASSIGNED or RUNNING.
abbrev pub is_open : Table → Ident → Bool
is_open t id = elim (get_task t id) [
  | none ↦ false
  | some task ↦ is_pending task.status || is_in_flight task.status
]

-- One task: the store and the workloads are left alone, nobody begins to listen, and the task's own
-- listener is gone if the task is open.
record Cancels (id : Ident) (p p' : WorkloadPipeline) : Type 0 where
  same_table : p'.table ≡ p.table
  same_workloads : p'.active_workloads ≡ p.active_workloads
  silent :
      (j : Ident)
      → includes p.completion_listeners j ≡ false
      → includes p'.completion_listeners j ≡ false
  heard : is_open p.table id ≡ true → includes p'.completion_listeners id ≡ false

cancel_task-Cancels : (id : Ident) (p : WorkloadPipeline) → Cancels id p (cancel_task id p)
cancel_task-Cancels id p = elim (Option-cases (get_task p.table id)) [
  | inl missing ↦ ground arith
  | inr (task, found) ↦ elim (Bool-cases (is_pending task.status || is_in_flight task.status)) [
    | inr closed ↦ ground arith
    | inl waits ↦ elim (Bool-cases (includes p.completion_listeners id)) [
      | inr nobody ↦ ground arith
      | inl listens ↦ record {
        same_table = ground arith;
        same_workloads = ground arith;
        silent = λ j h. ground (arith, includes-delete_id id j p.completion_listeners);
        heard = λ h. ground (arith, includes-delete_id id id p.completion_listeners);
      }
    ]
  ]
]

record CancelsAll (ids : List Ident) (p p' : WorkloadPipeline) : Type 0 where
  same_table : p'.table ≡ p.table
  same_workloads : p'.active_workloads ≡ p.active_workloads
  silent :
      (j : Ident)
      → includes p.completion_listeners j ≡ false
      → includes p'.completion_listeners j ≡ false
  heard :
      (j : Ident)
      → includes ids j ≡ true
      → is_open p.table j ≡ true
      → includes p'.completion_listeners j ≡ false

cancel_tasks-CancelsAll :
    (ids : List Ident) (p : WorkloadPipeline) → CancelsAll ids p (cancel_tasks ids p)
unfolding cancel_tasks
cancel_tasks-CancelsAll [] p = record {
  same_table = refl;
  same_workloads = refl;
  silent = λ j h. h;
  heard = λ j h. ground arith;
}
cancel_tasks-CancelsAll (id ∷ ids) p =
    let one = cancel_task-Cancels id p in
    let rest = cancel_tasks-CancelsAll ids (cancel_task id p) in
    record {
      same_table = rest.same_table ∙ one.same_table;
      same_workloads = rest.same_workloads ∙ one.same_workloads;
      silent = λ j h. rest.silent j (one.silent j h);
      heard = λ j listed o. elim (Bool-cases (id == j)) [
        | inl here ↦ rest.silent j (
            subst (λ i. includes (cancel_task id p).completion_listeners i ≡ false)
              ((==_iff id j).0 here)
              (one.heard (subst (λ i. is_open p.table i ≡ true) (sym ((==_iff id j).0 here)) o)))
        | inr later ↦
            rest.heard j (ground arith) (subst (λ t. is_open t j ≡ true) (sym one.same_table) o)
      ];
    }

-- A workload that is cancelled has no task in flight any more and keeps its counts, and the listeners of
-- its tasks that were PENDING, ASSIGNED or RUNNING are taken off. The table of the store is as it was:
-- the tasks themselves are not abandoned.
pub cancel_workload_lem :
    (p : WorkloadPipeline) (workload_id : Ident) (w : ActiveWorkloadState)
    → get workload_id p.active_workloads ≡ some w
    → let p' = (cancel_workload p workload_id).0 in
      (p'.table ≡ p.table)
      × (get workload_id p'.active_workloads
          ≡ some (record w { is_cancelled = true; in_flight_task_ids = [] }))
      × ((j : Ident)
          → (includes w.in_flight_task_ids j
              && is_open p.table j
              && includes p'.completion_listeners j)
            ≡ false)
unfolding cancel_workload
cancel_workload_lem p workload_id w there =
    let all = cancel_tasks-CancelsAll w.in_flight_task_ids p in
    let w' = record w { is_cancelled = true; in_flight_task_ids = [] } in
    let p1 = cancel_tasks w.in_flight_task_ids p in
    (
      ground (arith, there, all.same_table),
      ground (arith, there, get-set workload_id workload_id w' p1.active_workloads),
      λ j. elim (Bool-cases (includes w.in_flight_task_ids j)) [
        | inr elsewhere ↦ ground arith
        | inl listed ↦ elim (Bool-cases (is_open p.table j)) [
          | inr closed ↦ ground arith
          | inl waits ↦ ground (arith, there, all.heard j listed waits)
        ]
      ],
    )
