-- ===== src/Pairing/Envelope.antt =====
-- core/src/pairing_service.ts: the encryption and decryption of envelopes.
use swarm_x.Common.{
  ℕ, zero, suc, ◌+◌, Option, none, some, List, [], ◌∷◌, ◌++◌, leb, if◌then◌else◌, take, length,
  Result, ok, err, ◌-◌, get_elem?,
}
use swarm_x.Common.Dict.{get}
use swarm_x.Task.{Ident}
use swarm_x.Pairing.Bytes.{Buffer, big_endian, zeros, decimal}
use swarm_x.Pairing.Crypto.{Crypto}
use swarm_x.Pairing.{
  ActiveSession, EncryptedEnvelope, PairingService, PairingError, no_session, unknown_session,
  sequence_limit, replay_detected, authentication_failed,
}

-- `Number.MAX_SAFE_INTEGER`.
abbrev pub max_safe_integer : ℕ
max_safe_integer = 9007199254740991

-- A write to the object at a place.
abbrev pub set_at : List ActiveSession → ℕ → ActiveSession → List ActiveSession
set_at [] i session = []
set_at (x ∷ xs) zero session = session ∷ xs
set_at (x ∷ xs) (suc i) session = x ∷ set_at xs i session

-- The place of the session of a key.
abbrev pub session_ref : PairingService → Ident → Option ℕ
session_ref s key = get key s.active_sessions

abbrev pub session_at : PairingService → Option ℕ → Option ActiveSession
session_at s none = none
session_at s (some i) = get_elem? s.sessions i

abbrev pub write_session : PairingService → Option ℕ → ActiveSession → PairingService
write_session s none session = s
write_session s (some i) session = record s { sessions = set_at s.sessions i session }

-- Four bytes of salt and eight of the sequence number.
unfoldable pub construct_iv : (iv_salt : Buffer) (sequence_num : ℕ) → Buffer
construct_iv iv_salt sequence_num =
    let salt = take 4 iv_salt in salt ++ zeros (4 - length salt) ++ big_endian 8 sequence_num

module _ (crypto : Crypto) where
  abbrev pub aad_of : Ident → ℕ → Buffer
  aad_of session_id sequence_num = crypto.text_of session_id ++ b':' ∷ decimal 16 sequence_num

  -- What is sent for a session whose sequence number is already counted up.
  abbrev pub envelope_of : ActiveSession → Buffer → EncryptedEnvelope
  envelope_of session plaintext =
      let iv = construct_iv session.iv_salt session.send_sequence_num in
      let (ciphertext, tag) =
        crypto.seal session.host_to_worker_key iv
          (aad_of session.session_id session.send_sequence_num) plaintext in
      record {
        session_id = session.session_id;
        sequence_num = session.send_sequence_num;
        iv_nonce = crypto.to_base64 iv;
        ciphertext = crypto.to_base64 ciphertext;
        auth_tag = crypto.to_base64 tag;
      }

  unfoldable pub encrypt_envelope :
      PairingService
      → (session_id_or_device_id : Ident) (plaintext : Buffer)
      → PairingService × Result PairingError EncryptedEnvelope
  encrypt_envelope s key plaintext = elim (session_at s (session_ref s key)) [
    | none ↦ (s, err (no_session key))
    | some session ↦
        let counted : ActiveSession = record session {
          send_sequence_num = session.send_sequence_num + 1;
        } in
        let s' = write_session s (session_ref s key) counted in
        if leb max_safe_integer counted.send_sequence_num
        then (s', err sequence_limit)
        else (s', ok (envelope_of counted plaintext))
  ]

  unfoldable pub decrypt_envelope :
      PairingService → EncryptedEnvelope → PairingService × Result PairingError Buffer
  decrypt_envelope s envelope = elim (session_at s (session_ref s envelope.session_id)) [
    | none ↦ (s, err (unknown_session envelope.session_id))
    | some session ↦
        if leb envelope.sequence_num session.last_received_sequence_num
        then (s, err (replay_detected envelope.sequence_num session.last_received_sequence_num))
        else elim (crypto.unseal session.worker_to_host_key (crypto.from_base64 envelope.iv_nonce)
            (aad_of session.session_id envelope.sequence_num)
            (crypto.from_base64 envelope.ciphertext) (crypto.from_base64 envelope.auth_tag)) [
              | none ↦ (s, err authentication_failed)
              | some plaintext ↦ (
                write_session s (session_ref s envelope.session_id)
                    (record session { last_received_sequence_num = envelope.sequence_num }),
                ok plaintext,
              )
            ]
  ]
