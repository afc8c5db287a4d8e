-- ===== src/Scheduler.antt =====
-- core/src/scheduler.ts: the types of the schedulers. A score is in ten-thousandths, as the code
-- rounds it, and a weight in hundredths; a throughput is a number that only the parameters of the
-- model compute with, as it is a double in the code.
pub mod Candidates
pub mod Scored
pub mod Fifo
mod Allocation
mod Decides
mod Chooses
pub mod Contract
mod Sums
mod Examples
use swarm_x.Common.{ℕ, Bool, Option, List}
use swarm_x.Common.Dict.{Dict}
use swarm_x.Task.{Ident}
use swarm_x.Workers.{WorkerState}

pub record SchedulerWeights : Type 0 where
  pub throughput : ℕ
  pub capacity : ℕ
  pub transfer_cost : ℕ
  pub instability : ℕ

abbrev pub default_scheduler_weights : SchedulerWeights
default_scheduler_weights = record {
  throughput = 40;
  capacity = 30;
  transfer_cost = 15;
  instability = 15;
}

pub record ScoreComponents : Type 0 where
  pub throughput_score : ℕ
  pub capacity_score : ℕ
  pub transfer_cost_score : ℕ
  pub instability_penalty : ℕ

pub record CandidateScore : Type 0 where
  pub worker_id : Ident
  pub eligible : Bool
  pub final_score : ℕ
  pub components : ScoreComponents
  pub is_excluded_for_task : Bool

pub data DecisionStatus : Type 0 where
  assigned waiting_for_eligible_worker no_eligible_worker_remaining : DecisionStatus

pub record SchedulingDecision : Type 0 where
  pub task_id : Ident
  pub selected_worker : Option WorkerState
  pub status : DecisionStatus
  pub weights : SchedulerWeights
  pub candidate_scores : List CandidateScore

pub record ScoredScheduler : Type 0 where
  pub weights : SchedulerWeights
  pub worker_throughput_history : Dict ℕ
  pub worker_failure_counts : Dict ℕ

-- What the formula of the score reads of a worker.
pub record ScoreInput : Type 0 where
  pub observed_throughput : Option ℕ
  pub nominal_throughput : ℕ
  pub in_flight_count : ℕ
  pub cpu_utilization : Option ℕ
  pub available_ram_mb : Option ℕ
  pub total_ram_mb : ℕ
  pub failure_count : ℕ
