-- ===== src/Pairing.antt =====
-- core/src/pairing_service.ts: the state of class PairingService. A session is an object that two
-- keys of `activeSessions` share, so the sessions stand in a list, in the order of their making, and
-- the map gives a place in it. Bytes, and texts that the code cuts or joins, are lists of numbers.
pub mod Bytes
pub mod Crypto
pub mod Trust
pub mod Envelope
mod Cases
pub mod Calls
mod Starts
pub mod Kept
pub mod Replay
mod Nonces
mod Sas
pub mod Confirm
mod Completes
mod Places
pub mod Revoke
mod Examples
use swarm_x.Common.{ℕ, List}
use swarm_x.Common.Dict.{Dict}
use swarm_x.Task.{Ident, Text}
use swarm_x.Pairing.Bytes.{Buffer}

pub record DirectionalSessionKeys : Type 0 where
  pub host_to_worker_key : Buffer
  pub worker_to_host_key : Buffer

-- `sessionKey` is another name of `hostToWorkerKey`.
pub record ActiveSession : Type 0 where
  pub session_id : Ident
  pub device_id : Ident
  pub host_to_worker_key : Buffer
  pub worker_to_host_key : Buffer
  pub iv_salt : Buffer
  pub send_sequence_num : ℕ
  pub last_received_sequence_num : ℕ
  pub created_at_ms : ℕ

-- What `createPairingInitiation` keeps under `_pending_init_…`.
pub record PendingInit : Type 0 where
  pub private_key : ℕ
  pub host_public_key_hex : Buffer
  pub host_device_id : Ident
  pub worker_device_id : Ident
  pub created_at_ms : ℕ

pub record PendingHandshake : Type 0 where
  pub host_private_key : ℕ
  pub host_public_key_hex : Buffer
  pub host_device_id : Ident
  pub worker_device_id : Ident
  pub expected_sas_code : Buffer
  pub shared_secret : Buffer
  pub salt : Buffer
  pub created_at_ms : ℕ

pub record TrustedWorker : Type 0 where
  pub device_id : Ident
  pub device_name : Text
  pub public_key : Buffer
  pub shared_secret_hash : Buffer
  pub paired_at_ms : ℕ
  pub last_seen_at_ms : ℕ

pub record EncryptedEnvelope : Type 0 where
  pub session_id : Ident
  pub sequence_num : ℕ
  pub iv_nonce : Buffer
  pub ciphertext : Buffer
  pub auth_tag : Buffer

pub record PairingService : Type 0 where
  pub trusted_workers : List TrustedWorker
  pub sessions : List ActiveSession
  pub active_sessions : Dict ℕ
  pub pending_inits : Dict PendingInit
  pub pending_handshakes : Dict PendingHandshake

pub data PairingError : Type 0 where
  unknown_initiation no_handshake unknown_session no_session : Ident → PairingError
  bad_public_key : PairingError
  sas_mismatch : (expected confirmed : Buffer) → PairingError
  sequence_limit authentication_failed : PairingError
  replay_detected : (incoming last_received : ℕ) → PairingError
