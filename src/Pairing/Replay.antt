-- ===== src/Pairing/Replay.antt =====
-- Replay protection.
use swarm_x.Common.{
  ℕ, ◌≤◌, ◌≡◌, sym, subst, Option, none, some, List, arith, leb, true, inl, inr, ok, err,
}
use swarm_x.Pairing.Bytes.{Buffer}
use swarm_x.Pairing.Crypto.{Crypto}
use swarm_x.Pairing.{ActiveSession, PairingService, EncryptedEnvelope, replay_detected}
use swarm_x.Pairing.Envelope.{session_ref, session_at, write_session, decrypt_envelope}
use swarm_x.Pairing.Cases.{decrypt_envelope_cases}
use swarm_x.Pairing.Calls.{Call, run}
use swarm_x.Pairing.Kept.{Later, Keeps, get_elem?-set_at, run-Keeps}

pub session_at-Keeps :
    (s t : PairingService) (r : Option ℕ) (x : ActiveSession)
    → Keeps s.sessions t.sessions
    → session_at s r ≡ some x
    → (y : ActiveSession) × (session_at t r ≡ some y) × Later x y
session_at-Keeps s t none x keeps e = cc
session_at-Keeps s t (some i) x keeps e = keeps i x e

pub session_at-write_session :
    (s : PairingService) (r : Option ℕ) (x y : ActiveSession)
    → session_at s r ≡ some x
    → session_at (write_session s r y) r ≡ some y
session_at-write_session s none x y e = cc
session_at-write_session s (some i) x y e = get_elem?-set_at s.sessions i x y e

module _ (crypto : Crypto) where
  decrypt_envelope_old :
      (s : PairingService) (e : EncryptedEnvelope) (x : ActiveSession)
      → session_at s (session_ref s e.session_id) ≡ some x
      → e.sequence_num ≤ x.last_received_sequence_num
      → decrypt_envelope crypto s e
        ≡ (s, err (replay_detected e.sequence_num x.last_received_sequence_num))
  unfolding decrypt_envelope
  decrypt_envelope_old s e x found old =
      let low : leb e.sequence_num x.last_received_sequence_num ≡ true = ground arith in
      rw (found, decrypt_envelope, low)

  -- Once an envelope of a session is accepted, then after any calls an envelope with that sequence
  -- number or a lower one is refused as a replay and changes nothing, as long as the identifier that
  -- it names still leads to the same session.
  pub decrypt_envelope-replay :
      (s : PairingService) (e e' : EncryptedEnvelope) (plaintext : Buffer) (calls : List Call)
      → (decrypt_envelope crypto s e).1 ≡ ok plaintext
      → (let s' = run crypto (decrypt_envelope crypto s e).0 calls in
          session_ref s' e'.session_id ≡ session_ref s e.session_id)
      → e'.sequence_num ≤ e.sequence_num
      → let s' = run crypto (decrypt_envelope crypto s e).0 calls in
        (last : ℕ) × (e.sequence_num ≤ last)
        × (decrypt_envelope crypto s' e' ≡ (s', err (replay_detected e'.sequence_num last)))
  decrypt_envelope-replay s e e' plaintext calls accepts same old =
      elim (decrypt_envelope_cases crypto s e) [
        | inl refused ↦ cc (refused.result, accepts)
        | inr a ↦
            let r = session_ref s e.session_id in
            let x : ActiveSession = record a.session {
              last_received_sequence_num = e.sequence_num;
            } in
            let t = (decrypt_envelope crypto s e).0 in
            let t' = run crypto t calls in
            let now : session_at t r ≡ some x =
              subst (λ u. session_at u r ≡ some x) (sym a.after)
                (session_at-write_session s r a.session x a.found) in
            let (y, found, later) = session_at-Keeps t t' r x (run-Keeps crypto t calls) now in
            let found' : session_at t' (session_ref t' e'.session_id) ≡ some y =
              subst (λ q. session_at t' q ≡ some y) (sym same) found in
            (
              y.last_received_sequence_num,
              later.received,
              decrypt_envelope_old t' e' y found' (omega (arith, later.received)),
            )
      ]
