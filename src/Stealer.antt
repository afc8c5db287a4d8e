-- ===== src/Stealer.antt =====
-- core/src/work_stealer.ts: the types of the detection of stragglers. A time is in milliseconds, the
-- multiplier and the weight of the average are in hundredths; an average and the mean of two
-- durations, doubles in the code, are numbers that only the parameters of the model compute.
pub mod Detector
pub mod Steal
mod Attempts
mod Steals
mod Bounds
mod Examples
use swarm_x.Common.{ℕ, Bool, true, Option, none, some, []}
use swarm_x.Common.Dict.{Dict}
use swarm_x.Task.{Ident, Task}
use swarm_x.Store.Ops.{StealOutcome}

pub record StragglerDetectorConfig : Type 0 where
  pub detection_threshold_multiplier : ℕ
  pub min_observations_before_declaration : ℕ
  pub min_duration_ms_threshold : ℕ
  pub straggler_ema_alpha : ℕ
  pub enable_work_stealing : Bool

abbrev pub default_straggler_config : StragglerDetectorConfig
default_straggler_config = record {
  detection_threshold_multiplier = 250;
  min_observations_before_declaration = 3;
  min_duration_ms_threshold = 50;
  straggler_ema_alpha = 20;
  enable_work_stealing = true;
}

-- `Partial<StragglerDetectorConfig>`.
pub record PartialConfig : Type 0 where
  pub detection_threshold_multiplier : Option ℕ
  pub min_observations_before_declaration : Option ℕ
  pub min_duration_ms_threshold : Option ℕ
  pub straggler_ema_alpha : Option ℕ
  pub enable_work_stealing : Option Bool

pub record InFlightTaskTracking : Type 0 where
  pub task_id : Ident
  pub worker_id : Ident
  pub start_time_ms : ℕ
  pub expected_duration_ms : ℕ

-- The reasons that `attemptSteal` gives: the last is the one of the store, or that of a collision.
pub data StealReason : Type 0 where
  is_disabled nothing_straggles : StealReason
  stole : Ident → Ident → StealReason
  store_refused : StealOutcome → StealReason

pub record StealResult : Type 0 where
  pub stolen : Bool
  pub task_id : Option Ident
  pub victim_worker_id : Option Ident
  pub thief_worker_id : Option Ident
  pub reason : StealReason
  pub task : Option Task

pub record WorkStealer : Type 0 where
  pub config : StragglerDetectorConfig
  pub worker_avg_duration_ms : Dict ℕ
  pub worker_observation_count : Dict ℕ
  pub in_flight_tasks : Dict InFlightTaskTracking
  pub total_steals_count : ℕ

-- `{ ...config, ...newConfig }`.
abbrev given {ℓ} : {A : Type ℓ} → Option A → A → A
given none old = old
given (some new) old = new

unfoldable pub merged : StragglerDetectorConfig → PartialConfig → StragglerDetectorConfig
merged c p = record {
  detection_threshold_multiplier =
      given p.detection_threshold_multiplier c.detection_threshold_multiplier;
  min_observations_before_declaration =
      given p.min_observations_before_declaration c.min_observations_before_declaration;
  min_duration_ms_threshold = given p.min_duration_ms_threshold c.min_duration_ms_threshold;
  straggler_ema_alpha = given p.straggler_ema_alpha c.straggler_ema_alpha;
  enable_work_stealing = given p.enable_work_stealing c.enable_work_stealing;
}

abbrev pub new_work_stealer : PartialConfig → WorkStealer
new_work_stealer p = record {
  config = merged default_straggler_config p;
  worker_avg_duration_ms = [];
  worker_observation_count = [];
  in_flight_tasks = [];
  total_steals_count = 0;
}

abbrev pub update_config : WorkStealer → PartialConfig → WorkStealer
update_config s p = record s { config = merged s.config p }
