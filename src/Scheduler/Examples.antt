-- ===== src/Scheduler/Examples.antt =====
-- Tests of the schedulers on two workers, and the theorems applied to them.
use swarm_x.Common.{
  ℕ, Bool, true, false, Option, none, some, List, [], ◌∷◌, ◌≡◌, refl, arith, ◌+◌, ◌*◌, ◌/◌, select,
}
use swarm_x.Common.Sorting.Descending.{sort_down}
use swarm_x.Task.{Ident, Text, Task, TaskStatus}
use swarm_x.Workers.{CapabilityProfile, WorkerState, OsType}
use swarm_x.Scheduler.{
  SchedulerWeights, ScoreInput, ScoreComponents, ScoredScheduler, CandidateScore,
  default_scheduler_weights,
}
use swarm_x.Scheduler.Candidates.{is_fit}
use swarm_x.Scheduler.Scored.{schedule_task}
use swarm_x.Scheduler.Decides.{Decides}
use swarm_x.Scheduler.Chooses.{schedule_task-Decides}
use swarm_x.Scheduler.Allocation.{pos, negsuc, takes_part, allocate_multi_chunk_workload}
use swarm_x.Scheduler.Sums.{keys, gains, debts, worker_ids, allocate_multi_chunk_workload-total}

abbrev profile : Ident → ℕ → CapabilityProfile
profile id cores = record {
  capability_schema_version = 1;
  device_id = id;
  device_name = 0;
  os_type = OsType.linux;
  os_version = 6;
  cpu_arch = 64;
  cpu_cores = cores;
  total_ram_mb = 8000;
  has_gpu = false;
  gpu_model = none;
  gpu_acceleration_type = none;
  supported_kernels = some (90 ∷ []);
  transfer_bandwidth_bytes_per_sec = none;
}

abbrev worker : Ident → ℕ → Bool → WorkerState
worker id cores eligible = record {
  device_id = id;
  capability_profile = profile id cores;
  latest_telemetry = none;
  is_eligible = eligible;
  connected_at_ms = 1;
  last_heartbeat_ms = 2;
  live_state = none;
}

abbrev workers : List WorkerState
workers = worker 7 4 true ∷ worker 8 16 true ∷ worker 9 64 false ∷ []

abbrev task : Task
task = record {
  id = 3;
  input_ref = 0;
  computation_descriptor = 90;
  required_resources = record {
    min_cpu_cores = some 2;
    min_ram_mb = none;
    requires_gpu = false;
    min_battery_level = none;
  };
  dependencies = [];
  execution_constraints = [];
  result_destination = 0;
  retry_count = 0;
  attempt_history = [];
  status = TaskStatus.pending;
  assigned_worker_id = none;
  lease_expires_at_ms = none;
  created_at_ms = 1;
  updated_at_ms = 2;
}

abbrev scheduler : ScoredScheduler
scheduler = record {
  weights = default_scheduler_weights;
  worker_throughput_history = [];
  worker_failure_counts = [];
}

abbrev parts : ScoreComponents
parts = record {
  throughput_score = 0;
  capacity_score = 0;
  transfer_cost_score = 1000;
  instability_penalty = 0;
}

-- The throughput alone.
abbrev by_throughput : SchedulerWeights → ScoreInput → ℕ × ScoreComponents
by_throughput weights input = (weights.throughput * input.nominal_throughput, parts)

abbrev no_kernel : Text → Option Ident
no_kernel descriptor = none

selects_fastest :
    (schedule_task by_throughput no_kernel false scheduler task workers none).selected_worker
    ≡ some (worker 8 16 true)
unfolding schedule_task is_fit sort_down
selects_fastest = refl

schedule_task-Decides_example :
    Decides by_throughput no_kernel false scheduler none task workers
      (schedule_task by_throughput no_kernel false scheduler task workers none)
schedule_task-Decides_example =
    schedule_task-Decides by_throughput no_kernel false scheduler none task workers
      (refl, (refl, (refl, tt)))

abbrev candidate_with : Ident → ℕ → CandidateScore
candidate_with id score = record {
  worker_id = id;
  eligible = true;
  final_score = score;
  components = parts;
  is_excluded_for_task = false;
}

-- Rounding of the exact share, halves up.
abbrev exact_share : ℕ → ℕ → ℕ → ℕ
exact_share s t n = (2 * s * n + t) / (2 * t)

abbrev three : List CandidateScore
three = candidate_with 1 5000 ∷ candidate_with 2 3000 ∷ candidate_with 3 2000 ∷ []

divides :
    allocate_multi_chunk_workload exact_share 10 three ≡ (1, pos 5) ∷ (2, pos 3) ∷ (3, pos 2) ∷ []
unfolding allocate_multi_chunk_workload
divides = refl

allocate_multi_chunk_workload-total_example :
    (keys (allocate_multi_chunk_workload exact_share 10 three)
      ≡ worker_ids (select takes_part three))
    × (gains (allocate_multi_chunk_workload exact_share 10 three)
        ≡ 10 + debts (allocate_multi_chunk_workload exact_share 10 three))
allocate_multi_chunk_workload-total_example =
    allocate_multi_chunk_workload-total exact_share 10 three (omega arith) (λ e. cc)
      (refl, (refl, (refl, tt)))

-- Two items for four equal workers: each of the first three gets one, and the last gets minus one.
below_zero :
    allocate_multi_chunk_workload exact_share 2
      (candidate_with 1 9 ∷ candidate_with 2 9 ∷ candidate_with 3 9 ∷ candidate_with 4 9 ∷ [])
    ≡ (1, pos 1) ∷ (2, pos 1) ∷ (3, pos 1) ∷ (4, negsuc 0) ∷ []
unfolding allocate_multi_chunk_workload
below_zero = refl
