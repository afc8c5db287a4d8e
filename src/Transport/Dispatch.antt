-- ===== src/Transport/Dispatch.antt =====
-- core/src/transport_server.ts: `handleWorkerMessage` by the type of the message, and the handler of a
-- connection's messages around it.
use swarm_x.Common.{ℕ, none, some, ◌==◌, if◌then◌else◌, ok, err}
use swarm_x.Task.{Ident}
use swarm_x.Workers.Stage.{update_worker_stage}
use swarm_x.Pairing.Trust.{process_worker_handshake, revoke_worker}
use swarm_x.Transport.Peers.{lose_worker}
use swarm_x.Transport.Messages.{
  Handled, device_of, close_socket, either, handle_beacon, handle_confirm, handle_telemetry,
  handle_result,
}
use swarm_x.Transport.{
  nothing, pairing_sas_ready, pairing_rejected, task_stage_ack, unhandled, malformed_message,
  in_pairing, Body, discovery_beacon, pairing_init, pairing_confirm, pairing_reject,
  encrypted_telemetry, task_stage, task_result, revoke_trust, other_type, no_type, Message,
  TransportServer, Host, Fresh,
}

-- The trust in a worker and its tasks end with its connection.
unfoldable pub handle_revoke : TransportServer → ℕ → (device : Ident) (now : ℕ) → TransportServer
unfolding lose_worker revoke_worker
handle_revoke s ws device now =
    close_socket
      (lose_worker (record s { pairing = (revoke_worker s.pairing device).0 }) device now) ws

unfoldable pub handle_body :
    Host → Fresh → TransportServer → ℕ → (device worker : Ident) → Body → Handled
unfolding handle_revoke
handle_body host fresh s ws device worker (discovery_beacon device_name address port profile) =
    handle_beacon host s ws device device_name address port profile fresh.now
handle_body host fresh s ws device worker (pairing_init initiation_id public_key_hex salt_hex) =
    let (pairing, outcome) =
      process_worker_handshake host.crypto s.pairing initiation_id worker public_key_hex salt_hex
        fresh.now in
    (
      record s { pairing = pairing },
      elim outcome [
        | err why ↦ err (in_pairing why)
        | ok code ↦ ok (pairing_sas_ready initiation_id worker code)
      ],
    )
handle_body host fresh s ws device worker
      (pairing_confirm device_name public_key_hex code profile initiation_id salt_hex) =
    handle_confirm host fresh s ws device worker device_name public_key_hex code profile
      initiation_id salt_hex
handle_body host fresh s ws device worker (pairing_reject reason) =
    (s, ok (pairing_rejected worker reason))
handle_body host fresh s ws device worker (encrypted_telemetry envelope) =
    handle_telemetry host fresh.now s ws envelope
handle_body host fresh s ws device worker (task_stage task_id stage details) =
    let id = either worker (device_of s ws) in
    (
      elim stage [
        | none ↦ s
        | some entered ↦ if id == 0 then s else record s {
          workers = (update_worker_stage s.workers id entered details fresh.now).0;
        }
      ],
      ok (task_stage_ack task_id),
    )
handle_body host fresh s ws device worker (task_result task_id envelope) =
    handle_result host fresh.now s ws worker task_id envelope
handle_body host fresh s ws device worker revoke_trust =
    (handle_revoke s ws device fresh.now, ok nothing)
handle_body host fresh s ws device worker (other_type name) = (s, ok (unhandled name))
handle_body host fresh s ws device worker no_type = (s, err malformed_message)

unfoldable pub handle_worker_message : Host → Fresh → TransportServer → Message → ℕ → Handled
unfolding handle_body
handle_worker_message host fresh s msg ws =
    handle_body host fresh s ws msg.device_id msg.worker_device_id msg.body
