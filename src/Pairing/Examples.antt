-- ===== src/Pairing/Examples.antt =====
-- Tests of the pairing service with a toy cipher, and the theorems applied to them.
use swarm_x.Common.{
  ℕ, ◌≤◌, ◌<◌, ◌≡◌, ◌≢◌, refl, false, none, some, [], ◌∷◌, arith, ok, err, if◌then◌else◌, length,
  All, ◌==◌, ◌⊎◌,
}
use swarm_x.Common.Dict.{get}
use swarm_x.Task.{Ident}
use swarm_x.Pairing.Bytes.{from_hex, read_big_endian, decimal, Buffer, same_text}
use swarm_x.Pairing.Crypto.{Crypto}
use swarm_x.Pairing.{
  ActiveSession, PairingService, PendingInit, PendingHandshake, EncryptedEnvelope, replay_detected,
  sas_mismatch,
}
use swarm_x.Pairing.Trust.{
  process_worker_handshake, confirm_pairing, new_session, revoke_worker, is_worker_trusted,
  derive_sas_code, derive_directional_keys,
}
use swarm_x.Pairing.Envelope.{
  session_at, encrypt_envelope, decrypt_envelope, construct_iv, session_ref, max_safe_integer,
  aad_of,
}
use swarm_x.Pairing.Calls.{run}
use swarm_x.Pairing.Replay.{decrypt_envelope-replay}
use swarm_x.Pairing.Nonces.{encrypt_envelope-nonce}
use swarm_x.Pairing.Sas.{IsDigit, number_of, derive_sas_code-bounds}
use swarm_x.Pairing.Confirm.{Confirms, confirm_pairing-Confirms}
use swarm_x.Pairing.Completes.{confirm_pairing-process_worker_handshake}
use swarm_x.Pairing.Revoke.{revoke_worker_lem, revoke_worker-confirm_pairing}

-- The tag is what it authenticates.
abbrev toy : Crypto
toy = record {
  public_key_der = λ k. k ∷ [];
  diffie_hellman = λ k der. some (k ∷ []);
  hkdf_sha256 = λ secret salt info size. 0 ∷ 0 ∷ 0 ∷ 42 ∷ [];
  sha256_hex = λ b. b;
  seal = λ key iv aad plaintext. (plaintext, aad);
  unseal = λ key iv aad ciphertext tag. if same_text tag aad then some ciphertext else none;
  to_base64 = λ b. b;
  from_base64 = λ b. b;
  text_of = λ id. id ∷ [];
}

abbrev code : Buffer
code = 49 ∷ 48 ∷ 52 ∷ 50 ∷ []

derives : derive_sas_code toy [] [] [] ≡ code
unfolding derive_sas_code decimal read_big_endian
derives = refl

abbrev initiation : PendingInit
initiation = record {
  private_key = 9;
  host_public_key_hex = [];
  host_device_id = 1;
  worker_device_id = 7;
  created_at_ms = 0;
}

abbrev session : ActiveSession
session = record {
  session_id = 20;
  device_id = 7;
  host_to_worker_key = 1 ∷ [];
  worker_to_host_key = 2 ∷ [];
  iv_salt = 5 ∷ 6 ∷ 7 ∷ 8 ∷ [];
  send_sequence_num = 0;
  last_received_sequence_num = 0;
  created_at_ms = 0;
}

-- Worker 7 has the session 20, and a pairing with it is initiated anew.
abbrev service : PairingService
service = record {
  trusted_workers = [];
  sessions = session ∷ [];
  active_sessions = (7, 0) ∷ (20, 0) ∷ [];
  pending_inits = (30, initiation) ∷ [];
  pending_handshakes = [];
}

abbrev envelope : ℕ → EncryptedEnvelope
envelope n = record {
  session_id = 20;
  sequence_num = n;
  iv_nonce = [];
  ciphertext = 77 ∷ [];
  auth_tag = aad_of toy 20 n;
}

accepts : (decrypt_envelope toy service (envelope 3)).1 ≡ ok (77 ∷ [])
unfolding decrypt_envelope decimal same_text
accepts = refl

decrypt_envelope-replay_example :
    let s = (decrypt_envelope toy service (envelope 3)).0 in
    (last : ℕ) × (3 ≤ last)
    × (decrypt_envelope toy s (envelope 2) ≡ (s, err (replay_detected 2 last)))
unfolding run decrypt_envelope decimal same_text
decrypt_envelope-replay_example =
    decrypt_envelope-replay toy service (envelope 3) (envelope 2) (77 ∷ []) [] accepts refl
      (omega arith)

abbrev sent : ℕ → EncryptedEnvelope
sent n = record {
  session_id = 20;
  sequence_num = n;
  iv_nonce = construct_iv session.iv_salt n;
  ciphertext = 77 ∷ [];
  auth_tag = aad_of toy 20 n;
}

encrypt_envelope-nonce_example :
    (1 < 2) × (2 < max_safe_integer) × ((sent 1).iv_nonce ≢ (sent 2).iv_nonce)
unfolding run encrypt_envelope
encrypt_envelope-nonce_example =
    encrypt_envelope-nonce toy service 7 20 (77 ∷ []) (77 ∷ []) [] (sent 1) (sent 2) (λ b. refl)
      refl refl refl

derive_sas_code-bounds_example :
    (length code ≡ 4) × All IsDigit code × (1000 ≤ number_of code 0) × (number_of code 0 ≤ 9999)
unfolding derive_sas_code decimal read_big_endian
derive_sas_code-bounds_example = derive_sas_code-bounds toy [] [] []

-- The salt of the worker.
abbrev salt : Buffer
salt = 48 ∷ 49 ∷ []

abbrev handshake : PendingHandshake
handshake = record {
  host_private_key = 9;
  host_public_key_hex = [];
  host_device_id = 1;
  worker_device_id = 7;
  expected_sas_code = code;
  shared_secret = 9 ∷ [];
  salt = 1 ∷ [];
  created_at_ms = 2;
}

shakes : (process_worker_handshake toy service 30 7 [] salt 2).1 ≡ ok code
unfolding process_worker_handshake derive_sas_code decimal read_big_endian
shakes = refl

abbrev second_session : ActiveSession
second_session = new_session toy handshake 7 40 (1 ∷ []) 2

pairs_anew : (confirm_pairing toy service 7 3 [] code 30 salt 40 (1 ∷ []) 2).1 ≡ ok second_session
unfolding confirm_pairing process_worker_handshake derive_sas_code decimal read_big_endian same_text
    from_hex derive_directional_keys
pairs_anew = refl

wrong_code :
    (confirm_pairing toy service 7 3 [] [] 30 salt 40 (1 ∷ []) 2).1 ≡ err (sas_mismatch code [])
unfolding confirm_pairing process_worker_handshake derive_sas_code decimal read_big_endian same_text
    from_hex
wrong_code = refl

confirm_pairing-Confirms_example :
    let (t, r) = confirm_pairing toy service 7 3 [] code 30 salt 40 (1 ∷ []) 2 in
    Confirms toy 7 3 [] code 40
      (1 ∷ [])
      2
      (λ h.
        (get 7 service.pending_handshakes ≡ some h)
        ⊎ (let (u, _) = process_worker_handshake toy service 30 7 [] salt 2 in
            get 7 u.pending_handshakes ≡ some h))
      service
      t
      r
confirm_pairing-Confirms_example =
    confirm_pairing-Confirms toy 7 3 [] code 40 (1 ∷ []) 2 service 30 salt

confirm_pairing-process_worker_handshake_example :
    let t = (process_worker_handshake toy service 30 7 [] salt 2).0 in
    (x : ActiveSession) × (x.session_id ≡ 40)
    × (x.device_id ≡ 7)
    × ((confirm_pairing toy t 7 3 (1 ∷ []) code 0 [] 40 (1 ∷ []) 3).1 ≡ ok x)
confirm_pairing-process_worker_handshake_example =
    confirm_pairing-process_worker_handshake toy service 30 7 [] salt 2 code 3 (1 ∷ []) 0 [] 40
      (1 ∷ []) 3 shakes

revoke_worker_lem_example :
    let t = (revoke_worker service 7).0 in
    (session_ref t 7 ≡ none)
    × (session_ref t 20 ≡ none)
    × (get 7 t.pending_handshakes ≡ none)
    × ((j : Ident)
        → is_worker_trusted t j ≡ (if 7 == j then false else is_worker_trusted service j))
revoke_worker_lem_example = revoke_worker_lem service 7 session refl

revoke_worker-confirm_pairing_example :
    let u = (revoke_worker (confirm_pairing toy service 7 3 [] code 30 salt 40 (1 ∷ []) 2).0 7).0 in
    (is_worker_trusted u 7 ≡ false)
    × (session_at u (session_ref u 20) ≡ some session)
    × ((decrypt_envelope toy u (envelope 3)).1 ≡ (decrypt_envelope toy service (envelope 3)).1)
revoke_worker-confirm_pairing_example =
    revoke_worker-confirm_pairing toy service 7 3 [] code 30 salt 40 (1 ∷ []) 2 second_session
      session 20 (envelope 3) pairs_anew (λ e. omega arith) (λ e. omega arith) refl refl
