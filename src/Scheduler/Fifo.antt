-- ===== src/Scheduler/Fifo.antt =====
-- core/src/scheduler.ts: class DeterministicFifoScheduler.
use swarm_x.Common.{
  number_or, Bool, false, not, ◌&&◌, ◌||◌, Option, none, some, List, [], ◌∷◌, leb, if◌then◌else◌,
}
use swarm_x.Task.{Task}
use swarm_x.Workers.{WorkerState}
use swarm_x.Scheduler.{SchedulingDecision, DecisionStatus, default_scheduler_weights}

-- The two tests of the loop.
abbrev pub is_taken : Task → WorkerState → Bool
is_taken task worker =
    let needs = task.required_resources in
    let profile = worker.capability_profile in
    if not worker.is_eligible
    then false
    else leb (number_or needs.min_cpu_cores 1) profile.cpu_cores
      && leb (number_or needs.min_ram_mb 0) profile.total_ram_mb
      && (not needs.requires_gpu || profile.has_gpu)

unfoldable pub select_worker : Task → List WorkerState → Option WorkerState
select_worker task [] = none
select_worker task (worker ∷ workers) =
    if is_taken task worker then some worker else select_worker task workers

unfoldable pub schedule_task : Task → List WorkerState → SchedulingDecision
unfolding select_worker
schedule_task task all_workers =
    let selected = select_worker task all_workers in
    record {
      task_id = task.id;
      selected_worker = selected;
      status = elim selected [
        | none ↦ DecisionStatus.waiting_for_eligible_worker
        | some w ↦ DecisionStatus.assigned
      ];
      weights = default_scheduler_weights;
      candidate_scores = [];
    }
