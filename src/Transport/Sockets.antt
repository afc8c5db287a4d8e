-- ===== src/Transport/Sockets.antt =====
-- core/src/transport_server.ts: what happens on a connection, the watchdog, and the sweep.
use swarm_x.Common.{
  ℕ, ◌+◌, Bool, true, false, not, ◌&&◌, ◌||◌, Option, none, some, List, [], ◌∷◌, ◌==◌, ltb,
  if◌then◌else◌,
}
use swarm_x.Common.Dict.{get, delete, values}
use swarm_x.Task.{Ident}
use swarm_x.Store.Table.{default_max_retries}
use swarm_x.Store.Recovery.{recover_expired_leases}
use swarm_x.Workers.{WorkerState}
use swarm_x.Transport.Peers.{open_socket, lose_worker}
use swarm_x.Transport.Messages.{Handled, device_of, bind_socket, close_socket, either}
use swarm_x.Transport.Dispatch.{handle_worker_message}
use swarm_x.Transport.{Message, TransportServer, Host, Fresh}

-- The device of a message: the socket of an older connection of the device is closed, and the new one
-- takes its place.
abbrev pub claim_device : TransportServer → ℕ → Ident → TransportServer
claim_device s ws device =
    if device == 0
    then s
    else let s' : TransportServer = elim (get device s.worker_sockets) [
      | none ↦ s
      | some old ↦ if old == ws then s else close_socket s old
    ] in
      bind_socket s' ws device

-- `ws.on('message')`, after `JSON.parse`. The response, or the error, is sent on the socket.
unfoldable pub on_message : Host → Fresh → TransportServer → Message → ℕ → Handled
unfolding handle_worker_message
on_message host fresh s msg ws =
    handle_worker_message host fresh
      (claim_device s ws (either msg.device_id (either msg.worker_device_id (device_of s ws)))) msg
      ws

-- `this.workerSockets.get(devId) === ws`.
abbrev pub is_current : Option ℕ → ℕ → Bool
is_current none ws = false
is_current (some current) ws = current == ws

-- `ws.on('close')`.
unfoldable pub end_connection : TransportServer → ℕ → Ident → ℕ → TransportServer
unfolding lose_worker
end_connection s ws device now =
    if device == 0
    then s
    else lose_worker
        (if is_current (get device s.worker_sockets) ws
          then record s { worker_sockets = delete device s.worker_sockets }
          else s)
        device now

unfoldable pub on_close : TransportServer → ℕ → ℕ → TransportServer
unfolding end_connection
on_close s ws now = end_connection s ws (device_of s ws) now

abbrev pub heartbeat_timeout_ms : ℕ
heartbeat_timeout_ms = 10000

abbrev pub has_open_socket : TransportServer → Ident → Bool
has_open_socket s id = elim (open_socket s id) [ none ↦ false | some ws ↦ true ]

abbrev pub heartbeat_expired : ℕ → WorkerState → Bool
heartbeat_expired now worker = ltb (worker.last_heartbeat_ms + heartbeat_timeout_ms) now

-- `if (ws && ws.readyState === OPEN) ws.close()`.
abbrev pub close_if_open : TransportServer → Option ℕ → TransportServer
close_if_open s none = s
close_if_open s (some ws) = close_socket s ws

-- What is done with a dead worker.
abbrev pub drop_worker : TransportServer → Ident → ℕ → TransportServer
drop_worker s id now =
    close_if_open (lose_worker (record s { worker_sockets = delete id s.worker_sockets }) id now)
      (open_socket s id)

-- The body of the loop of `sweepDeadWorkers`.
abbrev pub is_dead : Host → ℕ → TransportServer → WorkerState → Bool
is_dead host now s worker =
    not (host.is_simulated worker.device_id)
    && (not (has_open_socket s worker.device_id) || heartbeat_expired now worker)

abbrev pub sweep_worker : Host → ℕ → WorkerState → TransportServer → TransportServer
sweep_worker host now worker s =
    if is_dead host now s worker then drop_worker s worker.device_id now else s

unfoldable pub sweep_all : Host → ℕ → List WorkerState → TransportServer → TransportServer
unfolding lose_worker
sweep_all host now [] s = s
sweep_all host now (worker ∷ workers) s =
    sweep_all host now workers (sweep_worker host now worker s)

unfoldable pub sweep_dead_workers : Host → ℕ → TransportServer → TransportServer
unfolding sweep_all
sweep_dead_workers host now s = sweep_all host now (values s.workers) s

-- One tick of the watchdog.
unfoldable pub on_tick : Host → ℕ → TransportServer → TransportServer
unfolding sweep_dead_workers
on_tick host now s = sweep_dead_workers host now (record s {
  pipeline = record s.pipeline {
    table = (recover_expired_leases true s.pipeline.table now default_max_retries).0;
  };
})
