-- ===== src/Pairing/Trust.antt =====
-- core/src/pairing_service.ts: pairing, trust and its revocation. `session_id` and `iv_salt` are what
-- `randomUUID` and `randomBytes` return, `now` what `Date.now()` does. A method that may throw
-- returns the state that it leaves and its result.
use mathlib.Core.List.{reverse}
use swarm_x.Common.{
  ℕ, ◌+◌, ◌%◌, Bool, true, false, not, ◌&&◌, Option, none, some, List, [], ◌∷◌, ◌++◌, ◌==◌, ltb,
  if◌then◌else◌, length, select, Result, ok, err, get_elem?,
}
use swarm_x.Common.Dict.{get, set, delete}
use swarm_x.Common.Sorting.{sort_by}
use swarm_x.Task.{Ident, Text}
use swarm_x.Pairing.Bytes.{
  Buffer, read_big_endian, decimal, from_hex, to_hex, same_text, codes, last_bytes,
}
use swarm_x.Pairing.Crypto.{Crypto}
use swarm_x.Pairing.{
  DirectionalSessionKeys, ActiveSession, PendingInit, PendingHandshake, TrustedWorker,
  PairingService, PairingError, unknown_initiation, no_handshake, bad_public_key, sas_mismatch,
}

-- `SELECT … FROM trusted_workers WHERE device_id = ?`.
abbrev pub find_trusted : Ident → List TrustedWorker → Option TrustedWorker
find_trusted id [] = none
find_trusted id (row ∷ t) = if row.device_id == id then some row else find_trusted id t

unfoldable pub is_worker_trusted : PairingService → Ident → Bool
is_worker_trusted s device_id = elim (find_trusted device_id s.trusted_workers) [
  | none ↦ false
  | some row ↦ true
]

unfoldable pub get_trusted_worker : PairingService → Ident → Option TrustedWorker
get_trusted_worker s device_id = find_trusted device_id s.trusted_workers

unfoldable pub list_trusted_workers : PairingService → List TrustedWorker
list_trusted_workers s = reverse (sort_by (λ row. row.paired_at_ms) s.trusted_workers)

-- `DELETE FROM trusted_workers WHERE device_id = ?`, which `INSERT OR REPLACE` begins with.
abbrev pub without : Ident → List TrustedWorker → List TrustedWorker
without id t = select (λ row. not (row.device_id == id)) t

module _ (crypto : Crypto) where
  unfoldable pub derive_sas_code : (shared_secret salt context_info : Buffer) → Buffer
  derive_sas_code shared_secret salt context_info =
      let derived = crypto.hkdf_sha256 shared_secret salt context_info 4 in
      decimal 16 (read_big_endian derived 0 % 9000 + 1000)

  unfoldable pub derive_directional_keys : (shared_secret salt : Buffer) → DirectionalSessionKeys
  derive_directional_keys shared_secret salt = record {
    host_to_worker_key =
        crypto.hkdf_sha256 shared_secret salt (codes "swarmx-host-to-worker-v1") 32;
    worker_to_host_key =
        crypto.hkdf_sha256 shared_secret salt (codes "swarmx-worker-to-host-v1") 32;
  }

  unfoldable pub derive_session_key : (shared_secret salt context_info : Buffer) → Buffer
  derive_session_key shared_secret salt context_info =
      crypto.hkdf_sha256 shared_secret salt context_info 32

  -- The public key in hexadecimal, of the key pair that was made.
  unfoldable pub create_pairing_initiation :
      PairingService
      → (worker host : Ident) (private_key : ℕ) (initiation_id : Ident) (now : ℕ)
      → PairingService × Buffer
  create_pairing_initiation s worker host private_key initiation_id now =
      let public_hex = to_hex (last_bytes 32 (crypto.public_key_der private_key)) in
      (
        record s {
          pending_inits =
              set initiation_id
                (record {
                  private_key = private_key;
                  host_public_key_hex = public_hex;
                  host_device_id = host;
                  worker_device_id = worker;
                  created_at_ms = now;
                })
                s.pending_inits;
        },
        public_hex,
      )

  abbrev pub sas_context : PendingInit → Ident → Buffer → Buffer
  sas_context init worker worker_public_key_hex =
      codes "swarmx-sas-v1:"
      ++ crypto.text_of init.host_device_id
      ++ b':' ∷ crypto.text_of worker
      ++ b':' ∷ init.host_public_key_hex
      ++ b':' ∷ worker_public_key_hex

  -- The code for the comparison.
  unfoldable pub process_worker_handshake :
      PairingService
      → (initiation_id worker : Ident) (public_key_hex salt_hex : Buffer) (now : ℕ)
      → PairingService × Result PairingError Buffer
  process_worker_handshake s initiation_id worker public_key_hex salt_hex now =
      elim (get initiation_id s.pending_inits) [
        | none ↦ (s, err (unknown_initiation initiation_id))
        | some init ↦
            let salt = from_hex salt_hex in
            let der = from_hex (codes "302a300506032b656e032100") ++ from_hex public_key_hex in
            elim (crypto.diffie_hellman init.private_key der) [
              | none ↦ (s, err bad_public_key)
              | some shared_secret ↦
                  let code =
                    derive_sas_code shared_secret salt (sas_context init worker public_key_hex) in
                  (
                    record s {
                      pending_handshakes =
                          set worker
                            (record {
                              host_private_key = init.private_key;
                              host_public_key_hex = init.host_public_key_hex;
                              host_device_id = init.host_device_id;
                              worker_device_id = worker;
                              expected_sas_code = code;
                              shared_secret = shared_secret;
                              salt = salt;
                              created_at_ms = now;
                            })
                            s.pending_handshakes;
                      pending_inits = delete initiation_id s.pending_inits;
                    },
                    ok code,
                  )
            ]
      ]

  -- The session and the row that a confirmed handshake makes.
  abbrev pub new_session : PendingHandshake → Ident → Ident → Buffer → ℕ → ActiveSession
  new_session handshake worker session_id iv_salt now =
      let keys = derive_directional_keys handshake.shared_secret handshake.salt in
      record {
        session_id = session_id;
        device_id = worker;
        host_to_worker_key = keys.host_to_worker_key;
        worker_to_host_key = keys.worker_to_host_key;
        iv_salt = iv_salt;
        send_sequence_num = 0;
        last_received_sequence_num = 0;
        created_at_ms = now;
      }

  abbrev pub new_row : PendingHandshake → Ident → Text → Buffer → ℕ → TrustedWorker
  new_row handshake worker name public_key_hex now = record {
    device_id = worker;
    device_name = name;
    public_key = public_key_hex;
    shared_secret_hash = crypto.sha256_hex handshake.shared_secret;
    paired_at_ms = now;
    last_seen_at_ms = now;
  }

  -- `confirmPairing` from the handshake on.
  unfoldable pub confirm_handshake :
      PairingService
      → Option PendingHandshake
      → (worker : Ident) (name : Text) (public_key_hex code : Buffer) (session_id : Ident)
        (iv_salt : Buffer) (now : ℕ)
      → PairingService × Result PairingError ActiveSession
  confirm_handshake s none worker name public_key_hex code session_id iv_salt now =
      (s, err (no_handshake worker))
  confirm_handshake s (some handshake) worker name public_key_hex code session_id iv_salt now =
      if not (same_text handshake.expected_sas_code code)
      then (s, err (sas_mismatch handshake.expected_sas_code code))
      else let session = new_session handshake worker session_id iv_salt now in
        (
          record s {
            trusted_workers =
                without worker s.trusted_workers
                ++ new_row handshake worker name public_key_hex now ∷ [];
            sessions = s.sessions ++ session ∷ [];
            active_sessions =
                set session_id (length s.sessions)
                  (set worker (length s.sessions) s.active_sessions);
            pending_handshakes = delete worker s.pending_handshakes;
          },
          ok session,
        )

  -- `confirmPairing` behind a handshake of its own, which may throw.
  unfoldable pub confirm_shaken :
      PairingService × Result PairingError Buffer
      → (worker : Ident) (name : Text) (public_key_hex code : Buffer) (session_id : Ident)
        (iv_salt : Buffer) (now : ℕ)
      → PairingService × Result PairingError ActiveSession
  confirm_shaken (s, err why) worker name public_key_hex code session_id iv_salt now = (s, err why)
  confirm_shaken (s, ok comparison_code) worker name public_key_hex code session_id iv_salt now =
      confirm_handshake s (get worker s.pending_handshakes) worker name public_key_hex code
        session_id iv_salt now

  -- An identifier that is 0 and a salt without bytes stand for arguments that are left out.
  unfoldable pub confirm_pairing :
      PairingService
      → (worker : Ident) (name : Text) (public_key_hex code : Buffer) (initiation_id : Ident)
        (salt_hex : Buffer) (session_id : Ident) (iv_salt : Buffer) (now : ℕ)
      → PairingService × Result PairingError ActiveSession
  unfolding confirm_handshake process_worker_handshake confirm_shaken
  confirm_pairing s worker name public_key_hex code initiation_id salt_hex session_id iv_salt now =
      elim (get worker s.pending_handshakes) [
        | some handshake ↦
            confirm_handshake s (some handshake) worker name public_key_hex code session_id iv_salt
              now
        | none ↦
            if not (initiation_id == 0) && ltb 0 (length salt_hex)
            then confirm_shaken
                (process_worker_handshake s initiation_id worker public_key_hex salt_hex now) worker
                name public_key_hex code session_id iv_salt now
            else confirm_handshake s none worker name public_key_hex code session_id iv_salt now
      ]

-- Whether a row was deleted.
unfoldable pub revoke_worker : PairingService → Ident → PairingService × Bool
unfolding is_worker_trusted
revoke_worker s device_id =
    let active : Option ActiveSession = elim (get device_id s.active_sessions) [
      | none ↦ none
      | some i ↦ get_elem? s.sessions i
    ] in
    (
      record s {
        trusted_workers = without device_id s.trusted_workers;
        active_sessions = elim active [
          | none ↦ s.active_sessions
          | some session ↦ delete device_id (delete session.session_id s.active_sessions)
        ];
        pending_handshakes = delete device_id s.pending_handshakes;
      },
      is_worker_trusted s device_id,
    )
