-- ===== src/Pairing/Calls.antt =====
-- Sequences of calls of the pairing service.
use swarm_x.Common.{ℕ, List, [], ◌∷◌}
use swarm_x.Task.{Ident, Text}
use swarm_x.Pairing.Bytes.{Buffer}
use swarm_x.Pairing.Crypto.{Crypto}
use swarm_x.Pairing.{PairingService, EncryptedEnvelope}
use swarm_x.Pairing.Trust.{
  create_pairing_initiation, process_worker_handshake, confirm_pairing, revoke_worker,
}
use swarm_x.Pairing.Envelope.{encrypt_envelope, decrypt_envelope}

pub data Call : Type 0 where
  initiates : (worker host : Ident) (private_key : ℕ) (initiation_id : Ident) (now : ℕ) → Call
  shakes : (initiation_id worker : Ident) (public_key_hex salt_hex : Buffer) (now : ℕ) → Call
  confirms :
      (worker : Ident) (name : Text) (public_key_hex code : Buffer) (initiation_id : Ident)
      (salt_hex : Buffer) (session_id : Ident) (iv_salt : Buffer) (now : ℕ)
      → Call
  revokes : Ident → Call
  encrypts : Ident → Buffer → Call
  decrypts : EncryptedEnvelope → Call

module _ (crypto : Crypto) where
  unfoldable pub step : PairingService → Call → PairingService
  step s (initiates worker host private_key initiation_id now) =
      (create_pairing_initiation crypto s worker host private_key initiation_id now).0
  step s (shakes initiation_id worker public_key_hex salt_hex now) =
      (process_worker_handshake crypto s initiation_id worker public_key_hex salt_hex now).0
  step s (confirms worker name public_key_hex code initiation_id salt_hex session_id iv_salt now) =
      (confirm_pairing crypto s worker name public_key_hex code initiation_id salt_hex session_id
        iv_salt now).0
  step s (revokes device_id) = (revoke_worker s device_id).0
  step s (encrypts key plaintext) = (encrypt_envelope crypto s key plaintext).0
  step s (decrypts envelope) = (decrypt_envelope crypto s envelope).0

  unfoldable pub run : PairingService → List Call → PairingService
  run s [] = s
  run s (call ∷ calls) = run (step s call) calls
