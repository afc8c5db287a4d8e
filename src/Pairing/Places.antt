-- ===== src/Pairing/Places.antt =====
-- What pairing and revocation do to the places of the sessions, and to the sessions at them.
use swarm_x.Common.{
  leb, Bool-cases, Option-cases, get_elem?, ℕ, ◌≡◌, ◌≢◌, refl, Option, none, some, arith, inl, inr,
  length,
}
use swarm_x.Common.Dict.{set, delete, get-set, get-delete}
use swarm_x.Task.{Ident, Text}
use swarm_x.Pairing.Bytes.{same_text, Buffer}
use swarm_x.Pairing.Crypto.{Crypto}
use swarm_x.Pairing.{EncryptedEnvelope, ActiveSession, PairingService, PendingHandshake}
use swarm_x.Pairing.Trust.{confirm_handshake, revoke_worker}
use swarm_x.Pairing.Envelope.{decrypt_envelope, session_ref, session_at}
use swarm_x.Pairing.Kept.{get_elem?-append}
use swarm_x.Pairing.Cases.{opened}

-- The keys that a confirmed pairing leaves alone.
pub confirm_handshake-session_ref :
    (crypto : Crypto) (s : PairingService) (o : Option PendingHandshake) (worker : Ident)
    (name : Text) (public_key_hex code : Buffer) (session_id : Ident) (iv_salt : Buffer) (now : ℕ)
    (key : Ident)
    → key ≢ worker
    → key ≢ session_id
    → session_ref
        (confirm_handshake crypto s o worker name public_key_hex code session_id iv_salt now).0
        key
      ≡ session_ref s key
unfolding confirm_handshake
confirm_handshake-session_ref crypto s none worker name public_key_hex code session_id iv_salt now
      key h h' =
    refl
confirm_handshake-session_ref crypto s (some hs) worker name public_key_hex code session_id iv_salt
      now key h h' =
    ground (
      arith,
      get-set session_id key (length s.sessions) (set worker (length s.sessions) s.active_sessions),
      get-set worker key (length s.sessions) s.active_sessions,
    )

-- Revocation takes away two keys at most: that of the worker and that of its last session.
pub revoke_worker-session_ref :
    (s : PairingService) (worker : Ident) (x : ActiveSession) (key : Ident)
    → session_at s (session_ref s worker) ≡ some x
    → key ≢ worker
    → key ≢ x.session_id
    → session_ref (revoke_worker s worker).0 key ≡ session_ref s key
unfolding revoke_worker
revoke_worker-session_ref s worker x key found h h' =
    rw (found, revoke_worker)
      (ground (
        arith,
        get-delete worker key (delete x.session_id s.active_sessions),
        get-delete x.session_id key s.active_sessions,
      ))

-- The answer for an envelope depends on the session that it names alone.
pub decrypt_envelope-same :
    (crypto : Crypto) (s t : PairingService) (envelope : EncryptedEnvelope) (x : ActiveSession)
    → session_at s (session_ref s envelope.session_id) ≡ some x
    → session_at t (session_ref t envelope.session_id) ≡ some x
    → (decrypt_envelope crypto s envelope).1 ≡ (decrypt_envelope crypto t envelope).1
unfolding decrypt_envelope
decrypt_envelope-same crypto s t envelope x e e' =
    elim (Bool-cases (leb envelope.sequence_num x.last_received_sequence_num)) [
      | inl old ↦ rw (e, e', decrypt_envelope, old) refl
      | inr new ↦ elim (Option-cases (opened crypto s x envelope)) [
        | inl forged ↦ rw (e, e', decrypt_envelope, new, forged) refl
        | inr (plaintext, authentic) ↦ rw (e, e', decrypt_envelope, new, authentic) refl
      ]
    ]

-- A revocation leaves the sessions themselves.
pub revoke_worker-session_at :
    (s : PairingService) (worker : Ident) (place : Option ℕ)
    → session_at (revoke_worker s worker).0 place ≡ session_at s place
unfolding revoke_worker
revoke_worker-session_at s worker none = refl
revoke_worker-session_at s worker (some i) = refl

-- More sessions behind the ones that there are.
pub session_at-grows :
    (s t : PairingService) (x : ActiveSession) (key : Ident)
    → session_ref t key ≡ session_ref s key
    → ((i : ℕ) → get_elem? s.sessions i ≡ some x → get_elem? t.sessions i ≡ some x)
    → session_at s (session_ref s key) ≡ some x
    → session_at t (session_ref t key) ≡ some x
session_at-grows s t x key same grows found = elim (Option-cases (session_ref s key)) [
  | inl missing ↦ ground arith
  | inr (i, there) ↦ rw (same, there) (grows i (rw there at found))
]

pub confirm_handshake-grows :
    (crypto : Crypto) (s : PairingService) (o : Option PendingHandshake) (worker : Ident)
    (name : Text) (public_key_hex code : Buffer) (session_id : Ident) (iv_salt : Buffer) (now : ℕ)
    (i : ℕ) (x : ActiveSession)
    → get_elem? s.sessions i ≡ some x
    → get_elem?
        (confirm_handshake crypto s o worker name public_key_hex code session_id iv_salt
          now).0.sessions
        i
      ≡ some x
unfolding confirm_handshake
confirm_handshake-grows crypto s none worker name public_key_hex code session_id iv_salt now i x e =
    e
confirm_handshake-grows crypto s (some hs) worker name public_key_hex code session_id iv_salt now i
      x e =
    elim (Bool-cases (same_text hs.expected_sas_code code)) [
      | inl fits ↦ rw fits (get_elem?-append s.sessions _ i x e)
      | inr other ↦ rw other e
    ]
