-- ===== src/Transport/Messages.antt =====
-- core/src/transport_server.ts: `handleWorkerMessage`. A handler that throws returns the state that it
-- leaves. The result of a task is handled in one piece: nothing comes in at the `await`.
use swarm_x.Common.{
  ℕ, Bool, true, false, not, ◌&&◌, Option, none, some, [], ◌∷◌, ◌++◌, ◌==◌, if◌then◌else◌, Result,
  ok, err,
}
use swarm_x.Common.Dict.{get, set}
use swarm_x.Task.{Ident, Text}
use swarm_x.Store.Table.{default_lease_duration_ms}
use swarm_x.Store.Ops.{renew_worker_leases}
use swarm_x.Workers.{CapabilityProfile, WorkerTelemetry, WorkerExecutionStage}
use swarm_x.Workers.Manager.{register_worker, update_telemetry}
use swarm_x.Workers.Stage.{update_worker_stage}
use swarm_x.Pipeline.{TaskProcessingResult, completed_result}
use swarm_x.Pipeline.Results.{handle_task_result}
use swarm_x.Pairing.{ActiveSession, EncryptedEnvelope}
use swarm_x.Pairing.Bytes.{Buffer}
use swarm_x.Pairing.Envelope.{encrypt_envelope, decrypt_envelope}
use swarm_x.Pairing.Trust.{confirm_pairing}
use swarm_x.Transport.Peers.{add_discovered_worker, no_details}
use swarm_x.Transport.{
  Deferred, initiates, readies, Response, discovery_ack, pairing_success, encrypted_telemetry_ack,
  task_result_ack, TransportError, unreadable_payload, in_pairing, in_workers, in_store,
  ResultPayload, TransportServer, Host, Fresh,
}

abbrev pub Handled : Type 0
Handled = TransportServer × Result TransportError Response

-- `(ws as any)._workerDeviceId`, where 0 is none.
abbrev pub device_of : TransportServer → ℕ → Ident
device_of s ws = elim (get ws s.sockets) [
  | none ↦ 0
  | some socket ↦ elim socket.worker_device_id [ none ↦ 0 | some id ↦ id ]
]

-- `_workerDeviceId = id; workerSockets.set(id, ws)`.
abbrev pub bind_socket : TransportServer → ℕ → Ident → TransportServer
bind_socket s ws id = record s {
  sockets = elim (get ws s.sockets) [
    | none ↦ s.sockets
    | some socket ↦ set ws (record socket { worker_device_id = some id }) s.sockets
  ];
  worker_sockets = set id ws s.worker_sockets;
}

abbrev pub close_socket : TransportServer → ℕ → TransportServer
close_socket s ws = record s {
  sockets = elim (get ws s.sockets) [
    | none ↦ s.sockets
    | some socket ↦ set ws (record socket { is_open = false }) s.sockets
  ];
}

-- `value || other`.
abbrev pub either : ℕ → ℕ → ℕ
either v other = if v == 0 then other else v

abbrev pub is_loopback : TransportServer → ℕ → Bool
is_loopback s ws = elim (get ws s.sockets) [ none ↦ true | some socket ↦ socket.is_loopback ]

abbrev pub puts_off : TransportServer → Deferred → TransportServer
puts_off s callback = record s { deferred = s.deferred ++ callback ∷ [] }

unfoldable pub handle_beacon :
    Host
    → TransportServer
    → ℕ
    → (device : Ident) (device_name address : Text) (port : ℕ) (profile : Option CapabilityProfile)
      (now : ℕ)
    → Handled
unfolding add_discovered_worker
handle_beacon host s ws device device_name address port profile now =
    let s' =
      add_discovered_worker s
        (record {
          device_id = device;
          device_name = device_name;
          host = either address host.local_host;
          port = either port s.port;
          last_seen_ms = now;
          capability_profile = profile;
        })
        now in
    let known : Bool = elim (get device s.workers) [ none ↦ false | some w ↦ true ] in
    (if is_loopback s ws && not known then puts_off s' (initiates device) else s', ok discovery_ack)

unfoldable pub handle_confirm :
    Host
    → Fresh
    → TransportServer
    → ℕ
    → (device worker : Ident) (device_name : Text) (public_key_hex code : Buffer)
      (profile : Option CapabilityProfile) (initiation_id : Ident) (salt_hex : Buffer)
    → Handled
handle_confirm host fresh s ws device worker device_name public_key_hex code profile initiation_id
      salt_hex =
    let (pairing, outcome) =
      confirm_pairing host.crypto s.pairing worker device_name public_key_hex code initiation_id
        salt_hex fresh.session_id fresh.iv_salt fresh.now in
    let s' : TransportServer = record s { pairing = pairing } in
    let id = either worker device in
    let succeed : TransportServer → ActiveSession → Handled = λ t session. (
      if id == 0 then t else record t { worker_sockets = set id ws t.worker_sockets },
      ok (pairing_success session.session_id worker),
    ) in
    elim outcome [
      | err why ↦ (s', err (in_pairing why))
      | ok session ↦ elim profile [
        | none ↦ succeed s' session
        | some p ↦ elim (register_worker s.workers p fresh.now) [
          | err why ↦ (s', err (in_workers why))
          | ok (workers, worker_state) ↦ succeed (record s' { workers = workers }) session
        ]
      ]
    ]

-- The telemetry of a session, once it is read: the heartbeat renews the leases, and an encrypted answer
-- goes back.
unfoldable pub take_telemetry :
    Host → ℕ → TransportServer → ℕ → (session_id : Ident) → WorkerTelemetry → Handled
take_telemetry host now s ws session_id telemetry =
    let bound = if telemetry.device_id == 0 then s else bind_socket s ws telemetry.device_id in
    elim (update_telemetry host.ignore_battery bound.workers telemetry now) [
      | err why ↦ (bound, err (in_workers why))
      | ok (workers, worker) ↦
          let table =
            (renew_worker_leases bound.pipeline.table telemetry.device_id default_lease_duration_ms
              now).0 in
          let (pairing, sealed) =
            encrypt_envelope host.crypto bound.pairing session_id
              (host.telemetry_ack_text now worker.is_eligible) in
          let s' : TransportServer = record bound {
            workers = workers;
            pipeline = record bound.pipeline { table = table };
            pairing = pairing;
          } in
          elim sealed [
            | err why ↦ (s', err (in_pairing why))
            | ok envelope ↦ (s', ok (encrypted_telemetry_ack envelope))
          ]
    ]

unfoldable pub handle_telemetry : Host → ℕ → TransportServer → ℕ → EncryptedEnvelope → Handled
unfolding take_telemetry
handle_telemetry host now s ws envelope =
    let (pairing, opened) = decrypt_envelope host.crypto s.pairing envelope in
    let s' : TransportServer = record s { pairing = pairing } in
    elim opened [
      | err why ↦ (s', err (in_pairing why))
      | ok plaintext ↦ elim (host.parse_telemetry plaintext) [
        | none ↦ (s', err unreadable_payload)
        | some telemetry ↦ take_telemetry host now s' ws envelope.session_id telemetry
      ]
    ]

-- `processingResult.success`.
abbrev pub success_of : TaskProcessingResult → Bool
success_of (completed_result task output validation) = true
success_of _ = false

unfoldable pub take_result :
    Host → ℕ → TransportServer → (worker task_id : Ident) → ResultPayload → Handled
take_result host now s worker task_id payload =
    let done = either payload.task_id task_id in
    let shown : TransportServer =
      if worker == 0
      then s
      else puts_off
          (record s {
            workers =
                (update_worker_stage s.workers worker WorkerExecutionStage.completed
                  (some (record no_details {
                    last_completed_task_id = if done == 0 then none else some done;
                    execution_time_ms = payload.execution_time_ms;
                  }))
                  now).0;
          })
          (readies worker) in
    elim (handle_task_result host.memory_ref host.validate shown.pipeline
      (record {
        task_id = done;
        worker_id = worker;
        output_data = payload.output_data;
        attempt_number = payload.attempt_number;
      })
      now) [
        | err why ↦ (shown, err (in_store why))
        | ok (pipeline, result) ↦
            (record shown { pipeline = pipeline }, ok (task_result_ack task_id (success_of result)))
      ]

unfoldable pub handle_result :
    Host → ℕ → TransportServer → ℕ → (worker task_id : Ident) → EncryptedEnvelope → Handled
unfolding take_result
handle_result host now s ws worker task_id envelope =
    let (pairing, opened) = decrypt_envelope host.crypto s.pairing envelope in
    let s' : TransportServer = record s { pairing = pairing } in
    elim opened [
      | err why ↦ (s', err (in_pairing why))
      | ok plaintext ↦ elim (host.parse_result plaintext) [
        | none ↦ (s', err unreadable_payload)
        | some payload ↦ take_result host now s' (either worker (device_of s' ws)) task_id payload
      ]
    ]
