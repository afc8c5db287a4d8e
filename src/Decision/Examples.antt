-- ===== src/Decision/Examples.antt =====
-- Tests of the reservations and of the decision, and the theorem applied to two workers.
use swarm_x.Common.{ℕ, ◌+◌, ◌*◌, false, Option, none, some, List, [], ◌∷◌, ◌≡◌, refl}
use swarm_x.Common.Sorting.{sort_by}
use swarm_x.Task.{Ident}
use swarm_x.Workers.{OsType}
use swarm_x.Decision.{
  DistributionDecisionEngine, KernelDefinition, default_decision_config, register_kernel,
  acquire_reservation, release_reservation, get_in_flight_count, get_predicted_queue_time_ms,
  is_platform_supported,
}
use swarm_x.Decision.Evaluate.{
  WorkerCandidateLoad, evaluate, evaluate_kernel, choose, swarm, on_host,
}
use swarm_x.Decision.Decides.{Decides, evaluate-Decides}

-- The box blur.
abbrev box_blur : KernelDefinition
box_blur = record {
  kernel_id = 5;
  version = 100;
  domain = 1;
  description = 2;
  input_format = 3;
  output_format = 3;
  min_beneficial_bytes = 65536;
  default_tolerance_validator = 4;
  supported_platforms = OsType.darwin ∷ OsType.windows ∷ [];
  estimated_complexity_flops_per_byte = 18;
}

abbrev engine : DistributionDecisionEngine
engine = record {
  config = default_decision_config;
  kernel_registry = register_kernel [] box_blur;
  local_kernel_calibration = (5, 1000000) ∷ [];
  worker_kernel_calibration = [];
  worker_in_flight = [];
}

abbrev paired : Ident → Ident → Ident
paired device kernel = device * 1000 + kernel

abbrev load : Ident → Option ℕ → WorkerCandidateLoad
load id tasks = record {
  device_id = id;
  capability_profile = none;
  telemetry = none;
  in_flight_tasks = tasks;
}

abbrev loads : List WorkerCandidateLoad
loads = load 7 (some 9) ∷ load 8 none ∷ []

abbrev reserved : DistributionDecisionEngine
reserved = acquire_reservation (acquire_reservation engine 8) 8

counts_two : get_in_flight_count reserved 8 ≡ 2
unfolding acquire_reservation
counts_two = refl

releases_all :
    get_in_flight_count
      (release_reservation (release_reservation (release_reservation reserved 8) 8) 8)
      8
    ≡ 0
unfolding acquire_reservation release_reservation
releases_all = refl

-- Two tasks of 35 MB at 35 MB in a second.
queues_two_seconds : get_predicted_queue_time_ms paired reserved 8 5 36700160 ≡ 2000
unfolding get_predicted_queue_time_ms acquire_reservation
queues_two_seconds = refl

picks_idle : (evaluate paired false engine 5 10000000 loads).selected_worker_id ≡ some 8
unfolding evaluate evaluate_kernel choose sort_by
picks_idle = refl

distributes : (evaluate paired false engine 5 10000000 loads).decision ≡ swarm
unfolding evaluate evaluate_kernel choose sort_by
distributes = refl

too_few_bytes : (evaluate paired false engine 5 60000 loads).decision ≡ on_host
unfolding evaluate evaluate_kernel choose sort_by
too_few_bytes = refl

no_linux : is_platform_supported engine.kernel_registry 5 OsType.linux ≡ false
no_linux = refl

evaluate-Decides_example :
    Decides paired false engine 5 10000000 loads (evaluate paired false engine 5 10000000 loads)
evaluate-Decides_example = evaluate-Decides paired false engine 5 10000000 loads
