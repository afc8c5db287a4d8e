-- ===== src/Transport/Examples.antt =====
-- Tests of the transport server with two workers and a task, and the theorems applied there.
use swarm_x.Common.{
  ◌≡◌, refl, true, false, not, ◌&&◌, ◌||◌, none, some, [], ◌∷◌, arith, if◌then◌else◌, ◌==◌, ltb, ok,
}
use swarm_x.Common.Dict.{get}
use swarm_x.Task.{Ident, Task, TaskStatus}
use swarm_x.Workers.{CapabilityProfile, OsType}
use swarm_x.Workers.Manager.{registered}
use swarm_x.Pairing.Crypto.{Crypto}
use swarm_x.Pairing.{ActiveSession}
use swarm_x.Pairing.Trust.{is_worker_trusted}
use swarm_x.Pairing.Envelope.{session_ref}
use swarm_x.Transport.{
  TransportServer, Socket, Host, Fresh, Message, revoke_trust, nothing, initiates, discovery_beacon,
}
use swarm_x.Transport.Peers.{open_socket}
use swarm_x.Transport.Messages.{handle_beacon}
use swarm_x.Transport.Dispatch.{handle_worker_message}
use swarm_x.Transport.Sockets.{is_dead, on_close, on_message, sweep_dead_workers}
use swarm_x.Transport.Loss.{tasks_of}
use swarm_x.Transport.Watchdog.{is_registered, sweep_dead_workers_lem}
use swarm_x.Transport.Alive.{shares_socket}
use swarm_x.Transport.Reconnect.{on_close-newer}
use swarm_x.Transport.Revocation.{handle_worker_message-revoke_trust}

abbrev crypto : Crypto
crypto = record {
  public_key_der = λ k. k ∷ [];
  diffie_hellman = λ k der. some der;
  hkdf_sha256 = λ secret salt info size. secret;
  sha256_hex = λ b. b;
  seal = λ key iv aad plaintext. (plaintext, aad);
  unseal = λ key iv aad ciphertext tag. some ciphertext;
  to_base64 = λ b. b;
  from_base64 = λ b. b;
  text_of = λ id. id ∷ [];
}

abbrev host : Host
host = record {
  crypto = crypto;
  ignore_battery = false;
  host_device_id = 1;
  local_host = 127;
  is_simulated = λ id. id == 99;
  parse_telemetry = λ b. none;
  parse_result = λ b. none;
  telemetry_ack_text = λ now eligible. [];
  task_text = λ task input count. [];
  validate = λ task output. record { is_valid = true; reason = 0; details = 0 };
  memory_ref = λ id. id;
}

abbrev profile : Ident → CapabilityProfile
profile id = record {
  capability_schema_version = 1;
  device_id = id;
  device_name = 0;
  os_type = OsType.linux;
  os_version = 6;
  cpu_arch = 64;
  cpu_cores = 4;
  total_ram_mb = 8000;
  has_gpu = false;
  gpu_model = none;
  gpu_acceleration_type = none;
  supported_kernels = none;
  transfer_bandwidth_bytes_per_sec = none;
}

abbrev task : Task
task = record {
  id = 3;
  input_ref = 0;
  computation_descriptor = 90;
  required_resources = record {
    min_cpu_cores = none;
    min_ram_mb = none;
    requires_gpu = false;
    min_battery_level = none;
  };
  dependencies = [];
  execution_constraints = [];
  result_destination = 0;
  retry_count = 0;
  attempt_history = [];
  status = TaskStatus.running;
  assigned_worker_id = some 7;
  lease_expires_at_ms = some 90000;
  created_at_ms = 1;
  updated_at_ms = 2;
}

abbrev session : ActiveSession
session = record {
  session_id = 20;
  device_id = 7;
  host_to_worker_key = 1 ∷ [];
  worker_to_host_key = 2 ∷ [];
  iv_salt = [];
  send_sequence_num = 0;
  last_received_sequence_num = 0;
  created_at_ms = 0;
}

abbrev socket_of : Ident → Socket
socket_of id = record { is_open = true; worker_device_id = some id; is_loopback = true }

-- Worker 7 runs the task. It has connected anew, with the socket 51 after 50; worker 8 has the socket 52.
abbrev server : TransportServer
server = record {
  port = 9000;
  pairing = record {
    trusted_workers = [];
    sessions = session ∷ [];
    active_sessions = (7, 0) ∷ (20, 0) ∷ [];
    pending_inits = [];
    pending_handshakes = [];
  };
  workers = (7, registered (profile 7) none 1000) ∷ (8, registered (profile 8) none 15000) ∷ [];
  pipeline = record {
    table = task ∷ [];
    worker_failure_counts = [];
    active_workloads = [];
    completion_listeners = [];
    told = [];
  };
  discovered_workers = [];
  worker_sockets = (7, 51) ∷ (8, 52) ∷ [];
  sockets = (50, socket_of 7) ∷ (51, socket_of 7) ∷ (52, socket_of 8) ∷ [];
  deferred = [];
  sent = [];
}

-- Worker 7 has no heartbeat for 19 seconds, and worker 8 for 5.
sweeps_one : is_registered (sweep_dead_workers host 20000 server) 8 ≡ true
unfolding sweep_dead_workers
sweeps_one = refl

sweep_dead_workers_lem_example :
    let s' = sweep_dead_workers host 20000 server in
    let w = registered (profile 7) none 1000 in
    ((is_dead host 20000 server w && (is_registered s' 7 || ltb 0 (tasks_of s' 7))) ≡ false)
    × ((not (is_dead host 20000 server w)
          && not (shares_socket server 7)
          && not (is_registered s' 7 && tasks_of s' 7 == tasks_of server 7))
        ≡ false)
sweep_dead_workers_lem_example =
    sweep_dead_workers_lem host 20000 server 7 (registered (profile 7) none 1000) (refl, tt)
      (refl, refl, (refl, refl, tt)) refl

on_close-newer_example :
    let s' = on_close server 50 16000 in
    (open_socket s' 7 ≡ some 51) × (get 7 s'.workers ≡ none) × (tasks_of s' 7 ≡ 0)
on_close-newer_example =
    on_close-newer server 50 51 16000 7 refl (λ e. omega arith) refl (λ e. omega arith) (refl, tt)

abbrev fresh : Fresh
fresh = record { now = 16000; session_id = 21; iv_salt = [] }

-- A beacon of an unknown worker on the machine itself puts off a pairing.
beacon_initiates :
    (on_message host fresh server
      (record { device_id = 9; worker_device_id = 0; body = discovery_beacon 5 0 0 none })
      50).0.deferred
    ≡ initiates 9 ∷ []
unfolding on_message handle_beacon
beacon_initiates = refl

handle_worker_message-revoke_trust_example :
    let msg : Message = record { device_id = 7; worker_device_id = 0; body = revoke_trust } in
    let (s', r) = handle_worker_message host fresh server msg 52 in
    (r ≡ ok nothing)
    × (session_ref s'.pairing 7 ≡ none)
    × (session_ref s'.pairing 20 ≡ none)
    × (get 7 s'.workers ≡ none)
    × (tasks_of s' 7 ≡ 0)
    × ((j : Ident)
        → is_worker_trusted s'.pairing j
          ≡ (if 7 == j then false else is_worker_trusted server.pairing j))
handle_worker_message-revoke_trust_example =
    handle_worker_message-revoke_trust host fresh server 7 0 52 session (refl, tt) refl
