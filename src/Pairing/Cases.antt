-- ===== src/Pairing/Cases.antt =====
-- The ends of `encryptEnvelope` and `decryptEnvelope`.
use swarm_x.Common.{
  ◌<◌, ◌≡◌, ◌⊎◌, inl, inr, Option, some, arith, Option-cases, Bool-cases, ok, err, ◌+◌, leb,
}
use swarm_x.Task.{Ident}
use swarm_x.Pairing.Bytes.{Buffer}
use swarm_x.Pairing.Crypto.{Crypto}
use swarm_x.Pairing.{
  authentication_failed, sequence_limit, replay_detected, no_session, unknown_session,
  ActiveSession, PairingService, PairingError, EncryptedEnvelope,
}
use swarm_x.Pairing.Envelope.{
  max_safe_integer, session_ref, session_at, write_session, aad_of, envelope_of, encrypt_envelope,
  decrypt_envelope,
}

-- A session whose number for sending is counted up.
abbrev pub counted : ActiveSession → ActiveSession
counted x = record x { send_sequence_num = x.send_sequence_num + 1 }

module _ (crypto : Crypto) (s : PairingService) where
  -- What `unseal` says of an envelope.
  abbrev pub opened : ActiveSession → EncryptedEnvelope → Option Buffer
  opened x e =
      crypto.unseal x.worker_to_host_key (crypto.from_base64 e.iv_nonce)
        (aad_of crypto x.session_id e.sequence_num) (crypto.from_base64 e.ciphertext)
        (crypto.from_base64 e.auth_tag)

  pub record Accepted (e : EncryptedEnvelope) : Type 0 where
    pub session : ActiveSession
    pub plaintext : Buffer
    pub found : session_at s (session_ref s e.session_id) ≡ some session
    pub newer : session.last_received_sequence_num < e.sequence_num
    pub authentic : opened session e ≡ some plaintext
    pub result : (decrypt_envelope crypto s e).1 ≡ ok plaintext
    pub after :
        (decrypt_envelope crypto s e).0
        ≡ write_session s
            (session_ref s e.session_id)
            (record session { last_received_sequence_num = e.sequence_num })

  pub record Refused (e : EncryptedEnvelope) : Type 0 where
    pub why : PairingError
    pub result : (decrypt_envelope crypto s e).1 ≡ err why
    pub after : (decrypt_envelope crypto s e).0 ≡ s

  -- An envelope is refused, and nothing changes, or it is accepted.
  pub decrypt_envelope_cases : (e : EncryptedEnvelope) → Refused e ⊎ Accepted e
  unfolding decrypt_envelope
  decrypt_envelope_cases e = elim (Option-cases (session_at s (session_ref s e.session_id))) [
    | inl missing ↦ inl record {
      why = unknown_session e.session_id;
      result = rw (missing, decrypt_envelope);
      after = rw (missing, decrypt_envelope);
    }
    | inr (x, found) ↦ elim (Bool-cases (leb e.sequence_num x.last_received_sequence_num)) [
      | inl old ↦ inl record {
        why = replay_detected e.sequence_num x.last_received_sequence_num;
        result = rw (found, decrypt_envelope, old);
        after = rw (found, decrypt_envelope, old);
      }
      | inr new ↦ elim (Option-cases (opened x e)) [
        | inl forged ↦ inl record {
          why = authentication_failed;
          result = rw (found, decrypt_envelope, new, forged);
          after = rw (found, decrypt_envelope, new, forged);
        }
        | inr (plaintext, authentic) ↦ inr record {
          session = x;
          plaintext = plaintext;
          found = found;
          newer = ground arith;
          authentic = authentic;
          result = rw (found, decrypt_envelope, new, authentic);
          after = rw (found, decrypt_envelope, new, authentic);
        }
      ]
    ]
  ]

  pub record Sealed (key : Ident) (plaintext : Buffer) : Type 0 where
    pub session : ActiveSession
    pub found : session_at s (session_ref s key) ≡ some session
    pub room : session.send_sequence_num + 1 < max_safe_integer
    pub result :
        (encrypt_envelope crypto s key plaintext).1
        ≡ ok (envelope_of crypto (counted session) plaintext)
    pub after :
        (encrypt_envelope crypto s key plaintext).0
        ≡ write_session s (session_ref s key) (counted session)

  pub record Unsealed (key : Ident) (plaintext : Buffer) : Type 0 where
    pub why : PairingError
    pub result : (encrypt_envelope crypto s key plaintext).1 ≡ err why

  pub encrypt_envelope_cases :
      (key : Ident) (plaintext : Buffer) → Unsealed key plaintext ⊎ Sealed key plaintext
  unfolding encrypt_envelope
  encrypt_envelope_cases key plaintext = elim (Option-cases (session_at s (session_ref s key))) [
    | inl missing ↦ inl record { why = no_session key; result = rw (missing, encrypt_envelope) }
    | inr (x, found) ↦ elim (Bool-cases (leb max_safe_integer (x.send_sequence_num + 1))) [
      | inl full ↦ inl record { why = sequence_limit; result = rw (found, encrypt_envelope, full) }
      | inr room ↦ inr record {
        session = x;
        found = found;
        room = ground arith;
        result = rw (found, encrypt_envelope, room);
        after = rw (found, encrypt_envelope, room);
      }
    ]
  ]
