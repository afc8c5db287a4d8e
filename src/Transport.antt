-- ===== src/Transport.antt =====
-- core/src/transport_server.ts: the state of class TransportServer with the services that it calls.
-- The pipeline's state has the table of the store. A socket is a number; what `setImmediate` puts off
-- is a list, and so is what is sent. The log, the timer's start, mDNS and HTTP are left out.
mod Peers
mod Messages
mod Dispatch
mod Sockets
mod Loss
mod Sweep
mod Alive
mod Watchdog
mod Reconnect
mod Revocation
mod Examples
use swarm_x.Common.{ℕ, Bool, Option, List}
use swarm_x.Common.Dict.{Dict}
use swarm_x.Task.{Ident, Text, Task}
use swarm_x.Store.Table.{StoreError}
use swarm_x.Workers.{
  CapabilityProfile, WorkerTelemetry, WorkerExecutionStage, StageDetails, Workers,
}
use swarm_x.Workers.Manager.{WorkerError}
use swarm_x.Pipeline.{OutputData, ValidationResult, WorkloadPipeline}
use swarm_x.Pairing.Bytes.{Buffer}
use swarm_x.Pairing.Crypto.{Crypto}
use swarm_x.Pairing.{EncryptedEnvelope, PairingService, PairingError}

pub record DiscoveredWorker : Type 0 where
  pub device_id : Ident
  pub device_name : Text
  pub host : Text
  pub port : ℕ
  pub last_seen_ms : ℕ
  pub capability_profile : Option CapabilityProfile

-- `readyState === OPEN`, `_workerDeviceId`, and whether `_remoteAddress` is the machine itself.
pub record Socket : Type 0 where
  pub is_open : Bool
  pub worker_device_id : Option Ident
  pub is_loopback : Bool

pub data Deferred : Type 0 where
  initiates readies : Ident → Deferred

-- What goes to a worker, or back to it.
pub data Sent : Type 0 where
  pairing_request : (initiation_id host : Ident) (public_key_hex : Buffer) → Sent
  execute_task : Ident → EncryptedEnvelope → Sent

pub data Response : Type 0 where
  discovery_ack nothing : Response
  pairing_sas_ready : (initiation_id worker : Ident) (code : Buffer) → Response
  pairing_success : (session_id worker : Ident) → Response
  pairing_rejected : (worker : Ident) (reason : Text) → Response
  encrypted_telemetry_ack : EncryptedEnvelope → Response
  task_stage_ack : Ident → Response
  task_result_ack : Ident → Bool → Response
  unhandled : Text → Response

pub data TransportError : Type 0 where
  malformed_message unreadable_payload : TransportError
  in_pairing : PairingError → TransportError
  in_workers : WorkerError → TransportError
  in_store : StoreError → TransportError

-- The fields that a result names; a task that is not named, or the empty text, is 0.
pub record ResultPayload : Type 0 where
  pub task_id : Ident
  pub output_data : OutputData
  pub attempt_number : Option ℕ
  pub execution_time_ms : Option ℕ

pub data Body : Type 0 where
  discovery_beacon :
      (device_name host : Text) (port : ℕ) (profile : Option CapabilityProfile) → Body
  pairing_init : (initiation_id : Ident) (public_key_hex salt_hex : Buffer) → Body
  pairing_confirm :
      (device_name : Text) (public_key_hex code : Buffer) (profile : Option CapabilityProfile)
      (initiation_id : Ident) (salt_hex : Buffer)
      → Body
  pairing_reject : Text → Body
  encrypted_telemetry : EncryptedEnvelope → Body
  task_stage : Ident → Option WorkerExecutionStage → Option StageDetails → Body
  task_result : Ident → EncryptedEnvelope → Body
  revoke_trust : Body
  other_type : Text → Body
  no_type : Body

-- A field that is missing, or the empty text, is 0.
pub record Message : Type 0 where
  pub device_id : Ident
  pub worker_device_id : Ident
  pub body : Body

pub record TransportServer : Type 0 where
  pub port : ℕ
  pub pairing : PairingService
  pub workers : Workers
  pub pipeline : WorkloadPipeline
  pub discovered_workers : Dict DiscoveredWorker
  pub worker_sockets : Dict ℕ
  pub sockets : Dict Socket
  pub deferred : List Deferred
  pub sent : List (ℕ × Sent)

-- What the server takes from elsewhere: the environment, `JSON`, the validator of results and the text
-- of a reference, and which identifiers begin with `sim-worker-`.
pub record Host : Type 0 where
  pub crypto : Crypto
  pub ignore_battery : Bool
  pub host_device_id : Ident
  pub local_host : Text
  pub is_simulated : Ident → Bool
  pub parse_telemetry : Buffer → Option WorkerTelemetry
  pub parse_result : Buffer → Option ResultPayload
  pub telemetry_ack_text : ℕ → Bool → Buffer
  pub task_text : Task → Text → ℕ → Buffer
  pub validate : Task → OutputData → ValidationResult
  pub memory_ref : Ident → Text

-- The clock and the random values of one message.
pub record Fresh : Type 0 where
  pub now : ℕ
  pub session_id : Ident
  pub iv_salt : Buffer
