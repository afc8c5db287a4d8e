-- ===== src/Pairing/Completes.antt =====
-- A handshake and its confirmation, one after the other.
use swarm_x.Common.{◌++◌, ℕ, ◌≡◌, refl, subst, some, arith, true, Option-cases, inl, inr, ok}
use swarm_x.Common.Dict.{get, get-set}
use swarm_x.Task.{Ident, Text}
use swarm_x.Pairing.Bytes.{codes, from_hex, Buffer, same_text}
use swarm_x.Pairing.Crypto.{Crypto}
use swarm_x.Pairing.{ActiveSession, PairingService, PendingHandshake}
use swarm_x.Pairing.Trust.{
  sas_context, derive_sas_code, new_session, process_worker_handshake, confirm_handshake,
  confirm_pairing,
}
use swarm_x.Pairing.Confirm.{same_text_refl}

module _ (crypto : Crypto) where
  -- What a handshake that returns a code leaves.
  process_worker_handshake-pending :
      (s : PairingService) (initiation_id worker : Ident) (public_key_hex salt_hex : Buffer)
      (now : ℕ) (code : Buffer)
      → (process_worker_handshake crypto s initiation_id worker public_key_hex salt_hex now).1
        ≡ ok code
      → let t =
          (process_worker_handshake crypto s initiation_id worker public_key_hex salt_hex now).0 in
        (h : PendingHandshake) × (get worker t.pending_handshakes ≡ some h)
        × (h.expected_sas_code ≡ code)
  unfolding process_worker_handshake
  process_worker_handshake-pending s initiation_id worker public_key_hex salt_hex now code e =
      elim (Option-cases (get initiation_id s.pending_inits)) [
        | inl missing ↦ cc (rw (missing, process_worker_handshake) at e)
        | inr (init, found) ↦
            let der = from_hex (codes "302a300506032b656e032100") ++ from_hex public_key_hex in
            elim (Option-cases (crypto.diffie_hellman init.private_key der)) [
              | inl malformed ↦ cc (rw (found, process_worker_handshake, malformed) at e)
              | inr (secret, agreed) ↦
                  let h : PendingHandshake = record {
                    host_private_key = init.private_key;
                    host_public_key_hex = init.host_public_key_hex;
                    host_device_id = init.host_device_id;
                    worker_device_id = worker;
                    expected_sas_code =
                        derive_sas_code crypto secret (from_hex salt_hex)
                          (sas_context crypto init worker public_key_hex);
                    shared_secret = secret;
                    salt = from_hex salt_hex;
                    created_at_ms = now;
                  } in
                  let e' = rw (found, process_worker_handshake, agreed) at e in
                  (
                    h,
                    rw (found, process_worker_handshake, agreed)
                        (ground (arith, get-set worker worker h s.pending_handshakes)),
                    cc (e'),
                  )
            ]
      ]

  -- Whoever gives the code that a handshake returned confirms the pairing, with any name and any key,
  -- and has a new session: nothing else is asked.
  pub confirm_pairing-process_worker_handshake :
      (s : PairingService) (initiation_id worker : Ident) (public_key_hex salt_hex : Buffer)
      (now : ℕ) (code : Buffer) (name : Text) (other_key_hex : Buffer) (other_initiation : Ident)
      (other_salt : Buffer) (session_id : Ident) (iv_salt : Buffer) (later : ℕ)
      → (process_worker_handshake crypto s initiation_id worker public_key_hex salt_hex now).1
        ≡ ok code
      → let t =
          (process_worker_handshake crypto s initiation_id worker public_key_hex salt_hex now).0 in
        (session : ActiveSession) × (session.session_id ≡ session_id)
        × (session.device_id ≡ worker)
        × ((confirm_pairing crypto t worker name other_key_hex code other_initiation other_salt
              session_id iv_salt later).1
            ≡ ok session)
  unfolding confirm_pairing
  confirm_pairing-process_worker_handshake s initiation_id worker public_key_hex salt_hex now code
        name other_key_hex other_initiation other_salt session_id iv_salt later e =
      let (h, found, same) =
        process_worker_handshake-pending s initiation_id worker public_key_hex salt_hex now code
          e in
      let fits : same_text h.expected_sas_code code ≡ true =
        subst (λ c. same_text h.expected_sas_code c ≡ true) same
          (same_text_refl h.expected_sas_code) in
      (
        new_session crypto h worker session_id iv_salt later,
        refl,
        refl,
        rw (found, confirm_pairing, confirm_handshake, fits),
      )
