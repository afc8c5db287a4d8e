-- ===== src/Decision.antt =====
-- core/src/kernel_registry.ts: class KernelRegistry, its map of kernels, and core/src/decision_engine.ts:
-- the state of class DistributionDecisionEngine, its reservations and its calibrations. A gain is in
-- hundredths; rates, doubles in the code, are whole bytes in a second.
pub mod Evaluate
mod Gains
mod Decides
mod Examples
use swarm_x.Common.{
  ℕ, ◌+◌, ◌-◌, ◌*◌, ◌/◌, max, Bool, true, false, Option, none, some, List, [], ◌∷◌, ltb, leb,
  if◌then◌else◌, number_or, ◌||◌,
}
use swarm_x.Common.Dict.{Dict, get, set, delete, values}
use swarm_x.Task.{Ident, Text}
use swarm_x.Workers.{OsType}

pub record KernelDefinition : Type 0 where
  pub kernel_id : Ident
  pub version : Text
  pub domain : Text
  pub description : Text
  pub input_format : Text
  pub output_format : Text
  pub min_beneficial_bytes : ℕ
  pub default_tolerance_validator : Text
  pub supported_platforms : List OsType
  pub estimated_complexity_flops_per_byte : ℕ

abbrev pub Kernels : Type 0
Kernels = Dict KernelDefinition

abbrev pub register_kernel : Kernels → KernelDefinition → Kernels
register_kernel kernels kernel = set kernel.kernel_id kernel kernels

abbrev pub get_kernel : Kernels → Ident → Option KernelDefinition
get_kernel kernels id = get id kernels

abbrev pub is_certified : Kernels → Ident → Bool
is_certified kernels id = elim (get id kernels) [ none ↦ false | some kernel ↦ true ]

abbrev pub same_os : OsType → OsType → Bool
same_os OsType.darwin OsType.darwin = true
same_os OsType.windows OsType.windows = true
same_os OsType.linux OsType.linux = true
same_os OsType.ios OsType.ios = true
same_os OsType.android OsType.android = true
same_os _ _ = false

abbrev has_os : List OsType → OsType → Bool
has_os [] os = false
has_os (o ∷ os') os = same_os o os || has_os os' os

abbrev pub is_platform_supported : Kernels → Ident → OsType → Bool
is_platform_supported kernels id os = elim (get id kernels) [
  | none ↦ false
  | some kernel ↦ has_os kernel.supported_platforms os
]

abbrev pub list_kernels : Kernels → List KernelDefinition
list_kernels kernels = values kernels

pub record DecisionEngineConfig : Type 0 where
  pub min_gain_threshold : ℕ
  pub default_lan_bandwidth_bytes_per_sec : ℕ
  pub default_local_throughput_bytes_per_sec : ℕ
  pub default_worker_throughput_bytes_per_sec : ℕ
  pub ipc_overhead_ms : ℕ
  pub coordination_overhead_ms : ℕ

abbrev pub default_decision_config : DecisionEngineConfig
default_decision_config = record {
  min_gain_threshold = 125;
  default_lan_bandwidth_bytes_per_sec = 25 * 1024 * 1024;
  default_local_throughput_bytes_per_sec = 12 * 1024 * 1024;
  default_worker_throughput_bytes_per_sec = 35 * 1024 * 1024;
  ipc_overhead_ms = 2;
  coordination_overhead_ms = 5;
}

pub record DistributionDecisionEngine : Type 0 where
  pub config : DecisionEngineConfig
  pub kernel_registry : Kernels
  pub local_kernel_calibration : Dict ℕ
  pub worker_kernel_calibration : Dict ℕ
  pub worker_in_flight : Dict ℕ

abbrev pub get_in_flight_count : DistributionDecisionEngine → Ident → ℕ
get_in_flight_count e device = number_or (get device e.worker_in_flight) 0

unfoldable pub acquire_reservation : DistributionDecisionEngine → Ident → DistributionDecisionEngine
acquire_reservation e device = record e {
  worker_in_flight = set device (get_in_flight_count e device + 1) e.worker_in_flight;
}

unfoldable pub release_reservation : DistributionDecisionEngine → Ident → DistributionDecisionEngine
release_reservation e device =
    let current = get_in_flight_count e device in
    record e {
      worker_in_flight =
          if leb current 1
          then delete device e.worker_in_flight
          else set device (current - 1) e.worker_in_flight;
    }

unfoldable pub record_local_calibration :
    DistributionDecisionEngine → Ident → ℕ → DistributionDecisionEngine
record_local_calibration e kernel measured = record e {
  local_kernel_calibration =
      if ltb 0 measured
      then set kernel measured e.local_kernel_calibration
      else e.local_kernel_calibration;
}

abbrev pub get_local_throughput : DistributionDecisionEngine → Ident → ℕ
get_local_throughput e kernel = elim (get kernel e.local_kernel_calibration) [
  | none ↦ e.config.default_local_throughput_bytes_per_sec
  | some rate ↦ rate
]

-- `Math.round((bytes / rate) * 1000)`, halves up, with exact quotients.
abbrev pub rounded_ms : ℕ → ℕ → ℕ
rounded_ms bytes rate = (2000 * bytes + rate) / (2 * rate)

-- `key_of` is the text `${deviceId}:${kernelId}`.
module _ (key_of : Ident → Ident → Ident) where
  unfoldable pub record_worker_calibration :
      DistributionDecisionEngine → Ident → Ident → ℕ → DistributionDecisionEngine
  record_worker_calibration e device kernel measured = record e {
    worker_kernel_calibration =
        if ltb 0 measured
        then set (key_of device kernel) measured e.worker_kernel_calibration
        else e.worker_kernel_calibration;
  }

  abbrev pub get_worker_throughput : DistributionDecisionEngine → Ident → Ident → Bool → ℕ
  get_worker_throughput e device kernel has_gpu =
      elim (get (key_of device kernel) e.worker_kernel_calibration) [
        | some rate ↦ rate
        | none ↦
            let base = e.config.default_worker_throughput_bytes_per_sec in
            if has_gpu then base * 3 / 2 else base
      ]

  unfoldable pub get_predicted_queue_time_ms : DistributionDecisionEngine → Ident → Ident → ℕ → ℕ
  get_predicted_queue_time_ms e device kernel bytes =
      rounded_ms (get_in_flight_count e device * bytes)
        (max 1 (get_worker_throughput e device kernel false))
