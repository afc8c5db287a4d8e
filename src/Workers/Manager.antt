-- ===== src/Workers/Manager.antt =====
-- core/src/worker_manager.ts: class WorkerManager but for `updateWorkerStage`. `now` is what
-- `Date.now()` returns, and `ignore_battery` what the three environment variables amount to.
use swarm_x.Common.{
  ℕ, Bool, true, false, not, ◌&&◌, ◌||◌, Option, none, some, List, [], ◌∷◌, ◌==◌, leb, ltb,
  if◌then◌else◌, select, Result, ok, err, throw_if, ◌>>◌,
}
use swarm_x.Common.Dict.{get, set, delete, values}
use swarm_x.Task.{Ident, Text}
use swarm_x.Workers.{
  CapabilityProfile, WorkerTelemetry, WorkerPipelineChecklist, WorkerLiveState, WorkerState,
  Workers, WorkerExecutionStage, ConnectionState, capability_schema_version,
}

pub data WorkerError : Type 0 where
  unsupported_schema : ℕ → WorkerError
  not_registered : Ident → WorkerError

abbrev pub no_stages : WorkerPipelineChecklist
no_stages = record {
  fetching = false;
  decrypting = false;
  decoding = false;
  executing = false;
  transmitting = false;
}

-- The literal that `registerWorker` and `getOrCreateLiveState` write.
abbrev pub new_live_state : Ident → Text → ℕ → Bool → WorkerLiveState
new_live_state device_id device_name now eligible = record {
  device_id = device_id;
  device_name = if device_name == 0 then device_id else device_name;
  connection_state = ConnectionState.connected;
  stage = WorkerExecutionStage.ready;
  current_task_id = none;
  current_chunk_index = none;
  total_chunks = none;
  start_frame_index = none;
  frame_count = none;
  execution_time_ms = none;
  stage_start_time_ms = none;
  completed_chunks = 0;
  failed_chunks = 0;
  retry_count = 0;
  pipeline_stages = no_stages;
  last_heartbeat_ms = now;
  is_eligible = eligible;
  last_completed_task_id = none;
}

-- `existing?.liveState`.
abbrev pub live_of : Option WorkerState → Option WorkerLiveState
live_of none = none
live_of (some worker) = worker.live_state

abbrev pub live_or : Option WorkerLiveState → WorkerLiveState → WorkerLiveState
live_or none live = live
live_or (some live) new = live

-- The state that `registerWorker` stores.
abbrev pub registered : CapabilityProfile → Option WorkerState → ℕ → WorkerState
registered profile existing now =
    let live =
      live_or (live_of existing) (new_live_state profile.device_id profile.device_name now false) in
    record {
      device_id = profile.device_id;
      capability_profile = profile;
      latest_telemetry = elim existing [ none ↦ none | some e ↦ e.latest_telemetry ];
      is_eligible = elim existing [ none ↦ false | some e ↦ e.is_eligible ];
      connected_at_ms = elim existing [ none ↦ now | some e ↦ e.connected_at_ms ];
      last_heartbeat_ms = now;
      live_state = some (record live {
        connection_state = ConnectionState.connected;
        stage = WorkerExecutionStage.ready;
        last_heartbeat_ms = now;
      });
    }

unfoldable pub register_worker :
    Workers → CapabilityProfile → ℕ → Result WorkerError (Workers × WorkerState)
register_worker workers profile now = do
  throw_if (not (profile.capability_schema_version == capability_schema_version))
      (unsupported_schema profile.capability_schema_version)
  let worker = registered profile (get profile.device_id workers) now
  ok (set profile.device_id worker workers, worker)

unfoldable pub evaluate_eligibility : Bool → WorkerTelemetry → Bool
evaluate_eligibility ignore_battery telemetry =
    (ignore_battery || leb 20 telemetry.battery_level || telemetry.is_charging)
    && ltb telemetry.thermal_state 2
    && ltb telemetry.cpu_utilization 90

-- What `getOrCreateLiveState` finds or makes; its callers store it in the worker.
unfoldable pub get_or_create_live_state : WorkerState → ℕ → WorkerLiveState
get_or_create_live_state worker now = live_or worker.live_state (
    new_live_state worker.device_id worker.capability_profile.device_name
      (if worker.last_heartbeat_ms == 0 then now else worker.last_heartbeat_ms) worker.is_eligible)

unfoldable pub update_telemetry :
    Bool → Workers → WorkerTelemetry → ℕ → Result WorkerError (Workers × WorkerState)
unfolding get_or_create_live_state
update_telemetry ignore_battery workers telemetry now = elim (get telemetry.device_id workers) [
  | none ↦ err (not_registered telemetry.device_id)
  | some worker ↦
      let eligible = evaluate_eligibility ignore_battery telemetry in
      let live = get_or_create_live_state worker now in
      let worker' : WorkerState = record worker {
        latest_telemetry = some (record telemetry { is_eligible = some eligible });
        is_eligible = eligible;
        last_heartbeat_ms = now;
        live_state = some (record live { is_eligible = eligible; last_heartbeat_ms = now });
      } in
      ok (set telemetry.device_id worker' workers, worker')
]

-- Whether `delete` found an entry.
unfoldable pub unregister_worker : Workers → Ident → Workers × Bool
unregister_worker workers device_id =
    (delete device_id workers, elim (get device_id workers) [ none ↦ false | some w ↦ true ])

unfoldable pub get_worker : Workers → Ident → Option WorkerState
get_worker workers device_id = get device_id workers

unfoldable pub list_workers : Workers → List WorkerState
list_workers workers = values workers

unfoldable pub list_eligible_workers : Workers → List WorkerState
list_eligible_workers workers = select (λ w. w.is_eligible) (values workers)

-- A live state that is missing is made and stored.
unfoldable pub list_live_states : Workers → ℕ → Workers × List WorkerLiveState
list_live_states [] now = ([], [])
list_live_states ((id, worker) ∷ workers) now =
    let live = get_or_create_live_state worker now in
    let (rest, lives) = list_live_states workers now in
    ((id, record worker { live_state = some live }) ∷ rest, live ∷ lives)
