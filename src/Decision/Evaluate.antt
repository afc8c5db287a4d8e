-- ===== src/Decision/Evaluate.antt =====
-- core/src/decision_engine.ts: `evaluate`. Of the result the ratios in megabytes and the gain, which are
-- for display, are left out; a time of `Infinity` is `none`.
use swarm_x.Common.{
  ℕ, ◌+◌, ◌*◌, max, Bool, true, false, not, ◌&&◌, Option, none, some, List, [], ◌∷◌, ltb, leb,
  if◌then◌else◌, select, length, map,
}
use swarm_x.Common.Sorting.{sort_by}
use swarm_x.Task.{Ident}
use swarm_x.Workers.{CapabilityProfile, WorkerTelemetry}
use swarm_x.Decision.{
  DistributionDecisionEngine, KernelDefinition, get_in_flight_count, get_local_throughput,
  get_worker_throughput, get_kernel, is_platform_supported, rounded_ms,
}

pub record WorkerCandidateLoad : Type 0 where
  pub device_id : Ident
  pub capability_profile : Option CapabilityProfile
  pub telemetry : Option WorkerTelemetry
  pub in_flight_tasks : Option ℕ

pub record WorkerEvaluation : Type 0 where
  pub device_id : Ident
  pub compute_ms : ℕ
  pub queue_ms : ℕ
  pub transfer_ms : ℕ
  pub effective_swarm_ms : ℕ
  pub in_flight : ℕ
  pub worker_rate : ℕ

pub data Decision : Type 0 where
  swarm on_host : Decision

pub data DecisionReason : Type 0 where
  not_certified below_minimum no_eligible_workers : DecisionReason
  faster queue_saturation below_gain : DecisionReason

pub record DecisionResult : Type 0 where
  pub decision : Decision
  pub estimated_local_time_ms : ℕ
  pub estimated_swarm_time_ms : Option ℕ
  pub estimated_parts : Option WorkerEvaluation
  pub reason : DecisionReason
  pub selected_worker_count : ℕ
  pub selected_worker_id : Option Ident

abbrev pub stays : ℕ → Option ℕ → DecisionReason → DecisionResult
stays local_ms swarm_ms why = record {
  decision = on_host;
  estimated_local_time_ms = local_ms;
  estimated_swarm_time_ms = swarm_ms;
  estimated_parts = none;
  reason = why;
  selected_worker_count = 0;
  selected_worker_id = none;
}

abbrev pub telemetry_fits : Bool → Option WorkerTelemetry → Bool
telemetry_fits ignore_battery none = true
telemetry_fits ignore_battery (some t) =
    if leb 90 t.cpu_utilization
    then false
    else if leb 2 t.thermal_state
    then false
    else if not ignore_battery && not t.is_charging && ltb t.battery_level 20
    then false
    else true

-- `estimatedGain >= minGainThreshold`, where the gain is 0 if the time of the swarm is.
abbrev pub gains_enough : ℕ → ℕ → ℕ → Bool
gains_enough threshold local_ms swarm_ms =
    if ltb 0 swarm_ms then leb (threshold * swarm_ms) (local_ms * 100) else leb threshold 0

abbrev pub why_not : WorkerEvaluation → ℕ → DecisionReason
why_not best local_ms =
    if ltb 0 best.queue_ms && ltb local_ms (best.queue_ms + best.transfer_ms + best.compute_ms)
    then queue_saturation
    else below_gain

module _ (key_of : Ident → Ident → Ident) (ignore_battery : Bool) (e : DistributionDecisionEngine)
    (kernel_id : Ident) (bytes : ℕ) where
  abbrev pub fits : WorkerCandidateLoad → Bool
  fits w = telemetry_fits ignore_battery w.telemetry && elim w.capability_profile [
    | none ↦ true
    | some p ↦ is_platform_supported e.kernel_registry kernel_id p.os_type
  ]

  abbrev pub evaluation : WorkerCandidateLoad → WorkerEvaluation
  evaluation w =
      let rate =
        get_worker_throughput key_of e w.device_id kernel_id
          (elim w.capability_profile [ none ↦ false | some p ↦ p.has_gpu ]) in
      let compute = rounded_ms bytes (max 1 rate) in
      let in_flight : ℕ = elim w.in_flight_tasks [
        | none ↦ get_in_flight_count e w.device_id
        | some n ↦ n
      ] in
      let transfer = rounded_ms (2 * bytes) e.config.default_lan_bandwidth_bytes_per_sec in
      record {
        device_id = w.device_id;
        compute_ms = compute;
        queue_ms = in_flight * compute;
        transfer_ms = transfer;
        effective_swarm_ms =
            e.config.ipc_overhead_ms
            + transfer
            + in_flight * compute
            + compute
            + e.config.coordination_overhead_ms;
        in_flight = in_flight;
        worker_rate = rate;
      }

  abbrev pub local_time_ms : ℕ
  local_time_ms = rounded_ms bytes (get_local_throughput e kernel_id)

  -- The sorted evaluations are empty where no worker is eligible.
  unfoldable pub choose : ℕ → List WorkerEvaluation → DecisionResult
  choose count [] = stays local_time_ms none no_eligible_workers
  choose count (best ∷ others) =
      let gain = gains_enough e.config.min_gain_threshold local_time_ms best.effective_swarm_ms in
      record {
        decision = if gain then swarm else on_host;
        estimated_local_time_ms = local_time_ms;
        estimated_swarm_time_ms = some best.effective_swarm_ms;
        estimated_parts = some best;
        reason = if gain then faster else why_not best local_time_ms;
        selected_worker_count = count;
        selected_worker_id = some best.device_id;
      }

  abbrev pub sorted_evaluations : List WorkerCandidateLoad → List WorkerEvaluation
  sorted_evaluations workers =
      sort_by (λ v. v.effective_swarm_ms) (map evaluation (select fits workers))

  -- After the test that the kernel is certified.
  unfoldable pub evaluate_kernel : KernelDefinition → List WorkerCandidateLoad → DecisionResult
  unfolding choose
  evaluate_kernel kernel workers =
      if ltb bytes kernel.min_beneficial_bytes
      then stays local_time_ms (some (rounded_ms (2 * bytes) (get_local_throughput e kernel_id)))
          below_minimum
      else choose (length (select fits workers)) (sorted_evaluations workers)

  unfoldable pub evaluate : List WorkerCandidateLoad → DecisionResult
  unfolding evaluate_kernel
  evaluate workers = elim (get_kernel e.kernel_registry kernel_id) [
    | none ↦ stays 0 none not_certified
    | some kernel ↦ evaluate_kernel kernel workers
  ]
