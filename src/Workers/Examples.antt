-- ===== src/Workers/Examples.antt =====
-- Tests of the worker manager on one worker, and the theorem about all calls applied to them.
use swarm_x.Common.{ℕ, true, false, Option, none, some, List, [], ◌∷◌, ◌≡◌, refl}
use swarm_x.Common.Dict.{get}
use swarm_x.Workers.{CapabilityProfile, WorkerTelemetry, WorkerState, WorkerExecutionStage, OsType}
use swarm_x.Workers.Manager.{
  register_worker, registered, update_telemetry, evaluate_eligibility, new_live_state, no_stages,
}
use swarm_x.Workers.Stage.{update_worker_stage}
use swarm_x.Workers.Checklist.{step, Call, registers, reports, changes, run, WorkerOk, run-WorkerOk}

abbrev profile : CapabilityProfile
profile = record {
  capability_schema_version = 1;
  device_id = 7;
  device_name = 0;
  os_type = OsType.darwin;
  os_version = 14;
  cpu_arch = 64;
  cpu_cores = 8;
  total_ram_mb = 16000;
  has_gpu = false;
  gpu_model = none;
  gpu_acceleration_type = none;
  supported_kernels = none;
  transfer_bandwidth_bytes_per_sec = none;
}

abbrev telemetry : ℕ → WorkerTelemetry
telemetry battery = record {
  device_id = 7;
  timestamp_ms = 20;
  battery_level = battery;
  is_charging = false;
  thermal_state = 1;
  cpu_utilization = 30;
  available_ram_mb = 4000;
  is_eligible = none;
}

abbrev calls : List Call
calls =
    registers profile 10
    ∷ reports (telemetry 55) 20
    ∷ changes 7 WorkerExecutionStage.decoding none 30
    ∷ []

stage_after : Option WorkerState → Option WorkerExecutionStage
stage_after none = none
stage_after (some w) = elim w.live_state [ none ↦ none | some live ↦ some live.stage ]

-- The worker is decoding.
decodes : stage_after (get 7 (run false [] calls)) ≡ some WorkerExecutionStage.decoding
unfolding run stage_after step register_worker update_telemetry update_worker_stage
decodes = refl

-- The worker that the calls leave.
abbrev worker_after : WorkerState
worker_after = record (registered profile none 10) {
  latest_telemetry = some (record (telemetry 55) { is_eligible = some true });
  is_eligible = true;
  last_heartbeat_ms = 20;
  live_state = some (record (new_live_state 7 0 10 false) {
    stage = WorkerExecutionStage.decoding;
    stage_start_time_ms = some 30;
    pipeline_stages = record no_stages { fetching = true; decrypting = true; decoding = true };
    last_heartbeat_ms = 20;
    is_eligible = true;
  });
}

there : get 7 (run false [] calls) ≡ some worker_after
unfolding run step register_worker update_telemetry update_worker_stage evaluate_eligibility
there = refl

run-WorkerOk_example : WorkerOk false 7 worker_after
run-WorkerOk_example = run-WorkerOk false calls 7 worker_after there

-- A battery below a fifth closes the gate, unless batteries are ignored.
low_battery : evaluate_eligibility false (telemetry 19) ≡ false
unfolding evaluate_eligibility
low_battery = refl

ignored_battery : evaluate_eligibility true (telemetry 19) ≡ true
unfolding evaluate_eligibility
ignored_battery = refl

-- A worker that registers anew in the middle of a chunk is ready and still ticks off the chunk's steps.
registers_again :
    get 7 (
      run false [] (
        registers profile 10
        ∷ changes 7 WorkerExecutionStage.fetching none 20
        ∷ registers profile 30
        ∷ []))
    ≡ some (record (registered profile none 10) {
      last_heartbeat_ms = 30;
      live_state = some (record (new_live_state 7 0 30 false) {
        stage_start_time_ms = some 20;
        pipeline_stages = record no_stages { fetching = true };
      });
    })
unfolding run step register_worker update_worker_stage
registers_again = refl
