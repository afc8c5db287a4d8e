-- ===== src/Scheduler/Scored.antt =====
-- core/src/scheduler.ts: class ScoredScheduler but for the allocation. `score` is the formula of the
-- score in floating-point numbers, `ema` the average of two throughputs.
use swarm_x.Common.{
  ℕ, ◌+◌, ◌*◌, Bool, true, not, ◌&&◌, Option, none, some, List, [], ◌∷◌, ◌==◌, if◌then◌else◌,
  includes, select, every, length, ltb,
}
use swarm_x.Common.Sorting.Descending.{sort_down}
use swarm_x.Common.Dict.{get, set, delete}
use swarm_x.Task.{Ident, Text, Task}
use swarm_x.Store.Table.{Table}
use swarm_x.Store.Recovery.{get_excluded_worker_ids, get_active_task_count_for_worker}
use swarm_x.Workers.{WorkerState}
use swarm_x.Scheduler.Candidates.{is_fit}
use swarm_x.Scheduler.{
  SchedulerWeights, ScoreComponents, CandidateScore, SchedulingDecision, ScoredScheduler,
  ScoreInput, DecisionStatus,
}

unfoldable pub set_worker_throughput : ScoredScheduler → Ident → ℕ → ScoredScheduler
set_worker_throughput s worker_id rate = record s {
  worker_throughput_history = set worker_id rate s.worker_throughput_history;
}

unfoldable pub update_worker_throughput_ema :
    (ℕ → ℕ → ℕ) → ScoredScheduler → Ident → ℕ → ScoredScheduler
update_worker_throughput_ema ema s worker_id measured = record s {
  worker_throughput_history = elim (get worker_id s.worker_throughput_history) [
    | none ↦ set worker_id measured s.worker_throughput_history
    | some prev ↦ set worker_id (ema measured prev) s.worker_throughput_history
  ];
}

unfoldable pub reset_worker_failures : ScoredScheduler → Ident → ScoredScheduler
reset_worker_failures s worker_id = record s {
  worker_failure_counts = delete worker_id s.worker_failure_counts;
}

-- The store is optional.
abbrev pub excluded_ids : Option Table → Ident → List Ident
excluded_ids none id = []
excluded_ids (some t) id = get_excluded_worker_ids t id

abbrev pub in_flight_count : Option Table → Ident → ℕ
in_flight_count none id = 0
in_flight_count (some t) id = get_active_task_count_for_worker t id

abbrev pub score_input : ScoredScheduler → Option Table → WorkerState → ScoreInput
score_input s store worker = record {
  observed_throughput = get worker.device_id s.worker_throughput_history;
  nominal_throughput =
      worker.capability_profile.cpu_cores * 100
      + (if worker.capability_profile.has_gpu then 500 else 0);
  in_flight_count = in_flight_count store worker.device_id;
  cpu_utilization = elim worker.latest_telemetry [ none ↦ none | some t ↦ some t.cpu_utilization ];
  available_ram_mb = elim worker.latest_telemetry [
    | none ↦ none
    | some t ↦ some t.available_ram_mb
  ];
  total_ram_mb = worker.capability_profile.total_ram_mb;
  failure_count = elim (get worker.device_id s.worker_failure_counts) [ none ↦ 0 | some n ↦ n ];
}

-- `sort((a, b) => b.finalScore - a.finalScore)`, which is stable.
abbrev pub sort_by_score : List CandidateScore → List CandidateScore
sort_by_score cs = sort_down (λ c. c.final_score) cs

abbrev pub is_assignable : CandidateScore → Bool
is_assignable c = c.eligible && not c.is_excluded_for_task

-- `allWorkers.find(w => w.deviceId === id)`.
abbrev pub find_worker : Ident → List WorkerState → Option WorkerState
find_worker id [] = none
find_worker id (w ∷ ws) = if w.device_id == id then some w else find_worker id ws

-- The returns of `scheduleTask`, from all scores and the sorted ones that are assignable.
abbrev pub decided :
    Ident
    → SchedulerWeights
    → List CandidateScore
    → Option WorkerState
    → DecisionStatus
    → SchedulingDecision
decided task_id weights scores selected status = record {
  task_id = task_id;
  selected_worker = selected;
  status = status;
  weights = weights;
  candidate_scores = scores;
}

unfoldable pub decision :
    Ident
    → SchedulerWeights
    → List CandidateScore
    → List CandidateScore
    → List WorkerState
    → SchedulingDecision
decision task_id weights scores (top ∷ others) all_workers =
    decided task_id weights scores (find_worker top.worker_id all_workers) DecisionStatus.assigned
decision task_id weights scores [] all_workers =
    let eligible = select (λ c. c.eligible) scores in
    decided task_id weights scores none (
      if ltb 0 (length eligible) && every (λ c. c.is_excluded_for_task) eligible
      then DecisionStatus.no_eligible_worker_remaining
      else DecisionStatus.waiting_for_eligible_worker)

module _ (score : SchedulerWeights → ScoreInput → ℕ × ScoreComponents)
    (kernel_of : Text → Option Ident) (ignore_battery : Bool) where
  abbrev pub candidate : ScoredScheduler → Option Table → List Ident → WorkerState → CandidateScore
  candidate s store excluded worker =
      let (final_score, components) = score s.weights (score_input s store worker) in
      record {
        worker_id = worker.device_id;
        eligible = true;
        final_score = final_score;
        components = components;
        is_excluded_for_task = includes excluded worker.device_id;
      }

  -- The loop over all workers.
  unfoldable pub candidates :
      ScoredScheduler → Option Table → Task → List Ident → List WorkerState → List CandidateScore
  unfolding is_fit
  candidates s store task excluded [] = []
  candidates s store task excluded (worker ∷ workers) =
      let rest = candidates s store task excluded workers in
      if is_fit ignore_battery kernel_of task worker
      then candidate s store excluded worker ∷ rest
      else rest

  unfoldable pub schedule_task :
      ScoredScheduler → Task → List WorkerState → Option Table → SchedulingDecision
  unfolding candidates decision
  schedule_task s task all_workers store =
      let scores = candidates s store task (excluded_ids store task.id) all_workers in
      decision task.id s.weights scores (sort_by_score (select is_assignable scores)) all_workers

  unfoldable pub select_worker : ScoredScheduler → Task → List WorkerState → Option WorkerState
  unfolding schedule_task
  select_worker s task eligible_workers =
      (schedule_task s task eligible_workers none).selected_worker
