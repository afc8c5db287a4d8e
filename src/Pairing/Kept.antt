-- ===== src/Pairing/Kept.antt =====
-- Whatever is called, the sessions that were made stay as they are but for their two numbers, which
-- only grow.
use swarm_x.Common.{
  subst, ℕ, zero, suc, ◌≤◌, ◌≡◌, refl, Option, none, some, List, [], ◌∷◌, ◌++◌, arith, get_elem?,
  sym, Option-cases, inl, inr, ◌+◌, leb, Bool-cases,
}
use swarm_x.Common.Dict.{get}
use swarm_x.Task.{Ident, Text}
use swarm_x.Pairing.Bytes.{same_text, Buffer}
use swarm_x.Pairing.Crypto.{Crypto}
use swarm_x.Pairing.{ActiveSession, PairingService, EncryptedEnvelope, PendingHandshake}
use swarm_x.Pairing.Trust.{
  create_pairing_initiation, confirm_pairing, confirm_handshake, revoke_worker,
}
use swarm_x.Pairing.Envelope.{
  max_safe_integer, set_at, session_ref, session_at, write_session, encrypt_envelope,
  decrypt_envelope,
}
use swarm_x.Pairing.Cases.{decrypt_envelope_cases}
use swarm_x.Pairing.Starts.{confirm_pairing-StartsWith, process_worker_handshake-SameTrust}
use swarm_x.Pairing.Calls.{
  Call, initiates, shakes, confirms, revokes, encrypts, decrypts, step, run,
}

-- The same session, later.
pub record Later (old new : ActiveSession) : Type 0 where
  pub same_session_id : new.session_id ≡ old.session_id
  pub same_device_id : new.device_id ≡ old.device_id
  pub same_host_key : new.host_to_worker_key ≡ old.host_to_worker_key
  pub same_worker_key : new.worker_to_host_key ≡ old.worker_to_host_key
  pub same_salt : new.iv_salt ≡ old.iv_salt
  pub sent : old.send_sequence_num ≤ new.send_sequence_num
  pub received : old.last_received_sequence_num ≤ new.last_received_sequence_num

Later-refl : (x : ActiveSession) → Later x x
Later-refl x = ground arith

Later-trans : (x y z : ActiveSession) → Later x y → Later y z → Later x z
Later-trans x y z h k = ground arith

-- What stands at a place stands there later.
abbrev pub Keeps : List ActiveSession → List ActiveSession → Type 0
Keeps xs ys =
    (i : ℕ) (x : ActiveSession)
    → get_elem? xs i ≡ some x
    → (y : ActiveSession) × (get_elem? ys i ≡ some y) × Later x y

Keeps-refl : (xs : List ActiveSession) → Keeps xs xs
Keeps-refl xs i x e = (x, e, Later-refl x)

Keeps-trans : (xs ys zs : List ActiveSession) → Keeps xs ys → Keeps ys zs → Keeps xs zs
Keeps-trans xs ys zs h k i x e =
    let (y, e', l) = h i x e in let (z, e'', l') = k i y e' in (z, e'', Later-trans x y z l l')

pub get_elem?-append :
    (xs ys : List ActiveSession) (i : ℕ) (x : ActiveSession)
    → get_elem? xs i ≡ some x
    → get_elem? (xs ++ ys) i ≡ some x
get_elem?-append [] ys i x e = cc
get_elem?-append (z ∷ xs) ys zero x e = e
get_elem?-append (z ∷ xs) ys (suc i) x e = get_elem?-append xs ys i x e

pub get_elem?-set_at :
    (xs : List ActiveSession) (i : ℕ) (x y : ActiveSession)
    → get_elem? xs i ≡ some x
    → get_elem? (set_at xs i y) i ≡ some y
get_elem?-set_at [] i x y e = cc
get_elem?-set_at (z ∷ xs) zero x y e = refl
get_elem?-set_at (z ∷ xs) (suc i) x y e = get_elem?-set_at xs i x y e

set_at-Keeps :
    (xs : List ActiveSession) (j : ℕ) (old new : ActiveSession)
    → get_elem? xs j ≡ some old
    → Later old new
    → Keeps xs (set_at xs j new)
set_at-Keeps [] j old new e l i x e' = cc
set_at-Keeps (z ∷ xs) zero old new e l zero x e' = (new, refl, ground (arith, Later-refl new))
set_at-Keeps (z ∷ xs) zero old new e l (suc i) x e' = (x, e', Later-refl x)
set_at-Keeps (z ∷ xs) (suc j) old new e l zero x e' = (x, e', Later-refl x)
set_at-Keeps (z ∷ xs) (suc j) old new e l (suc i) x e' = set_at-Keeps xs j old new e l i x e'

append-Keeps : (xs ys : List ActiveSession) → Keeps xs (xs ++ ys)
append-Keeps xs ys i x e = (x, get_elem?-append xs ys i x e, Later-refl x)

write_session-Keeps :
    (s : PairingService) (r : Option ℕ) (old new : ActiveSession)
    → session_at s r ≡ some old
    → Later old new
    → Keeps s.sessions (write_session s r new).sessions
write_session-Keeps s none old new e l = cc
write_session-Keeps s (some j) old new e l = set_at-Keeps s.sessions j old new e l

module _ (crypto : Crypto) (s : PairingService) where
  encrypt_envelope-Keeps :
      (key : Ident) (plaintext : Buffer)
      → Keeps s.sessions (encrypt_envelope crypto s key plaintext).0.sessions
  unfolding encrypt_envelope
  encrypt_envelope-Keeps key plaintext = elim (Option-cases (session_at s (session_ref s key))) [
    | inl missing ↦ rw (missing, encrypt_envelope) (Keeps-refl s.sessions)
    | inr (x, found) ↦
        let counted : ActiveSession = record x { send_sequence_num = x.send_sequence_num + 1 } in
        let kept =
          write_session-Keeps s (session_ref s key) x counted found
            (ground (arith, Later-refl x)) in
        elim (Bool-cases (leb max_safe_integer counted.send_sequence_num)) [
          | inl full ↦ rw (found, encrypt_envelope, full) kept
          | inr room ↦ rw (found, encrypt_envelope, room) kept
        ]
  ]

  decrypt_envelope-Keeps :
      (e : EncryptedEnvelope) → Keeps s.sessions (decrypt_envelope crypto s e).0.sessions
  decrypt_envelope-Keeps e = elim (decrypt_envelope_cases crypto s e) [
    | inl refused ↦
        subst (λ t. Keeps s.sessions t.sessions) (sym refused.after) (Keeps-refl s.sessions)
    | inr accepted ↦
        subst (λ t. Keeps s.sessions t.sessions) (sym accepted.after)
          (write_session-Keeps s (session_ref s e.session_id) accepted.session _ accepted.found
            (ground (arith, accepted.newer, Later-refl accepted.session)))
  ]

  confirm_handshake-Keeps :
      (h : Option PendingHandshake) (worker : Ident) (name : Text) (public_key_hex code : Buffer)
      (session_id : Ident) (iv_salt : Buffer) (now : ℕ)
      → Keeps s.sessions
          (confirm_handshake crypto s h worker name public_key_hex code session_id iv_salt
            now).0.sessions
  unfolding confirm_handshake
  confirm_handshake-Keeps none worker name public_key_hex code session_id iv_salt now =
      Keeps-refl s.sessions
  confirm_handshake-Keeps (some h) worker name public_key_hex code session_id iv_salt now =
      elim (Bool-cases (same_text h.expected_sas_code code)) [
        | inl fits ↦ rw fits (append-Keeps s.sessions _)
        | inr other ↦ rw other (Keeps-refl s.sessions)
      ]

module _ (crypto : Crypto) where
  confirm_pairing-Keeps :
      (s : PairingService) (worker : Ident) (name : Text) (public_key_hex code : Buffer)
      (initiation_id : Ident) (salt_hex : Buffer) (session_id : Ident) (iv_salt : Buffer) (now : ℕ)
      → Keeps s.sessions
          (confirm_pairing crypto s worker name public_key_hex code initiation_id salt_hex
            session_id iv_salt now).0.sessions
  confirm_pairing-Keeps s worker name public_key_hex code initiation_id salt_hex session_id iv_salt
        now =
      let start =
        confirm_pairing-StartsWith crypto s worker name public_key_hex code initiation_id salt_hex
          session_id iv_salt now in
      let from : Keeps s.sessions start.begun.sessions =
        subst (Keeps s.sessions) (sym start.same.same_sessions) (Keeps-refl s.sessions) in
      elim start.goes_on [
        | inr (why, e) ↦ subst (λ r. Keeps s.sessions r.0.sessions) (sym e) from
        | inl e ↦
            subst (λ r. Keeps s.sessions r.0.sessions) (sym e)
              (Keeps-trans s.sessions start.begun.sessions _ from (
                confirm_handshake-Keeps crypto start.begun
                  (get worker start.begun.pending_handshakes) worker name public_key_hex code
                  session_id iv_salt now))
      ]

  pub step-Keeps :
      (s : PairingService) (call : Call) → Keeps s.sessions (step crypto s call).sessions
  unfolding step create_pairing_initiation revoke_worker
  step-Keeps s (initiates worker host private_key initiation_id now) i x e =
      Keeps-refl s.sessions i x e
  step-Keeps s (shakes initiation_id worker public_key_hex salt_hex now) i x e =
      rw
        (process_worker_handshake-SameTrust crypto s initiation_id worker public_key_hex salt_hex
          now).same_sessions
        (Keeps-refl s.sessions i x e)
  step-Keeps s
        (confirms worker name public_key_hex code initiation_id salt_hex session_id iv_salt now) i x
        e =
      confirm_pairing-Keeps s worker name public_key_hex code initiation_id salt_hex session_id
        iv_salt now i x e
  step-Keeps s (revokes device_id) i x e = Keeps-refl s.sessions i x e
  step-Keeps s (encrypts key plaintext) i x e = encrypt_envelope-Keeps crypto s key plaintext i x e
  step-Keeps s (decrypts envelope) i x e = decrypt_envelope-Keeps crypto s envelope i x e

  pub run-Keeps :
      (s : PairingService) (calls : List Call) → Keeps s.sessions (run crypto s calls).sessions
  unfolding run
  run-Keeps s [] = Keeps-refl s.sessions
  run-Keeps s (call ∷ calls) =
      Keeps-trans s.sessions (step crypto s call).sessions
        (run crypto (step crypto s call) calls).sessions (step-Keeps s call)
        (run-Keeps (step crypto s call) calls)
