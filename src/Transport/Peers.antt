-- ===== src/Transport/Peers.antt =====
-- core/src/transport_server.ts: the discovered workers, what is sent to workers, and the loss of one.
use swarm_x.Common.{
  ℕ, ◌+◌, Bool, true, false, not, Option, none, some, List, [], ◌∷◌, ◌++◌, ◌==◌, ltb, if◌then◌else◌,
  includes, select, Result, ok, err,
}
use swarm_x.Common.Dict.{Dict, get, set, values}
use swarm_x.Task.{Ident, Text, Task}
use swarm_x.Store.Table.{default_max_retries}
use swarm_x.Store.Recovery.{recover_worker_loss}
use swarm_x.Workers.{WorkerState, WorkerExecutionStage, StageDetails}
use swarm_x.Workers.Manager.{unregister_worker}
use swarm_x.Workers.Stage.{update_worker_stage}
use swarm_x.Pairing.Envelope.{encrypt_envelope}
use swarm_x.Pairing.Trust.{create_pairing_initiation}
use swarm_x.Transport.{
  DiscoveredWorker, Deferred, initiates, readies, pairing_request, execute_task, TransportError,
  in_pairing, TransportServer, Host,
}

-- The caller gives all fields, a profile that is missing included.
unfoldable pub add_discovered_worker : TransportServer → DiscoveredWorker → ℕ → TransportServer
add_discovered_worker s worker now = record s {
  discovered_workers =
      set worker.device_id (record worker { last_seen_ms = now }) s.discovered_workers;
}

abbrev pub drop_stale : ℕ → Dict DiscoveredWorker → Dict DiscoveredWorker
drop_stale now [] = []
drop_stale now ((id, worker) ∷ d) =
    if ltb (worker.last_seen_ms + 30000) now
    then drop_stale now d
    else (id, worker) ∷ drop_stale now d

abbrev pub device_ids : List WorkerState → List Ident
device_ids [] = []
device_ids (w ∷ ws) = w.device_id ∷ device_ids ws

unfoldable pub get_discovered_workers :
    TransportServer → ℕ → TransportServer × List DiscoveredWorker
get_discovered_workers s now =
    let kept = drop_stale now s.discovered_workers in
    let connected = device_ids (values s.workers) in
    (
      record s { discovered_workers = kept },
      select (λ d. not (includes connected d.device_id)) (values kept),
    )

-- The open socket of a worker.
abbrev pub open_socket : TransportServer → Ident → Option ℕ
open_socket s worker = elim (get worker s.worker_sockets) [
  | none ↦ none
  | some ws ↦ elim (get ws s.sockets) [
    | none ↦ none
    | some socket ↦ if socket.is_open then some ws else none
  ]
]

unfoldable pub send_pairing_request :
    TransportServer
    → (worker initiation_id host : Ident) → (public_key_hex : List ℕ) → TransportServer × Bool
send_pairing_request s worker initiation_id host public_key_hex = elim (open_socket s worker) [
  | none ↦ (s, false)
  | some ws ↦ (
    record s { sent = s.sent ++ (ws, pairing_request initiation_id host public_key_hex) ∷ [] },
    true,
  )
]

abbrev pub no_details : StageDetails
no_details = record {
  current_task_id = none;
  current_chunk_index = none;
  total_chunks = none;
  start_frame_index = none;
  frame_count = none;
  execution_time_ms = none;
  last_completed_task_id = none;
  pipeline_stages = none;
}

-- An input that is missing, or the empty text, is 0, and so is a count.
unfoldable pub send_execute_task :
    Host
    → TransportServer
    → (worker : Ident) (task : Task) (input : Text) (count now : ℕ)
    → TransportServer × Result TransportError Bool
send_execute_task host s worker task input count now = elim (open_socket s worker) [
  | none ↦ (s, ok false)
  | some ws ↦
      let text =
        host.task_text task (if input == 0 then task.input_ref else input)
          (if count == 0 then 1 else count) in
      let (pairing, sealed) = encrypt_envelope host.crypto s.pairing worker text in
      elim sealed [
        | err why ↦ (record s { pairing = pairing }, err (in_pairing why))
        | ok envelope ↦ (
          record s {
            pairing = pairing;
            workers =
                (update_worker_stage s.workers worker WorkerExecutionStage.fetching
                  (some (record no_details { current_task_id = some task.id })) now).0;
            sent = s.sent ++ (ws, execute_task task.id envelope) ∷ [];
          },
          ok true,
        )
      ]
]

-- `unregisterWorker` and `recoverWorkerLoss`, with an open database.
unfoldable pub lose_worker : TransportServer → Ident → ℕ → TransportServer
unfolding unregister_worker
lose_worker s worker now = record s {
  workers = (unregister_worker s.workers worker).0;
  pipeline = record s.pipeline {
    table = (recover_worker_loss true s.pipeline.table worker default_max_retries now).0;
  };
}

-- One callback of `setImmediate`.
unfoldable pub run_deferred :
    Host
    → TransportServer
    → Deferred
    → (private_key : ℕ) (initiation_id : Ident) (now : ℕ) → TransportServer
run_deferred host s (initiates worker) private_key initiation_id now =
    let (pairing, public_key_hex) =
      create_pairing_initiation host.crypto s.pairing worker host.host_device_id private_key
        initiation_id now in
    (send_pairing_request (record s { pairing = pairing }) worker initiation_id host.host_device_id
      public_key_hex).0
run_deferred host s (readies worker) private_key initiation_id now = record s {
  workers = (update_worker_stage s.workers worker WorkerExecutionStage.ready none now).0;
}
