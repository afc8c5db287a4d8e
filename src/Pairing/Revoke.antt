-- ===== src/Pairing/Revoke.antt =====
-- Revocation, and what it misses.
use swarm_x.Common.{
  sym, subst, get_elem?, ℕ, ◌≡◌, ◌≢◌, ap, ◌∙◌, none, some, List, [], ◌∷◌, arith, false, ◌==◌,
  ==_refl, inl, inr, Result, ok, if◌then◌else◌,
}
use swarm_x.Common.Dict.{get, delete, get-delete}
use swarm_x.Task.{Ident, Text}
use swarm_x.Pairing.Bytes.{Buffer}
use swarm_x.Pairing.Crypto.{Crypto}
use swarm_x.Pairing.{EncryptedEnvelope, PairingError, ActiveSession, PairingService, TrustedWorker}
use swarm_x.Pairing.Trust.{find_trusted, without, is_worker_trusted, confirm_pairing, revoke_worker}
use swarm_x.Pairing.Envelope.{decrypt_envelope, session_ref, session_at}
use swarm_x.Pairing.Starts.{confirm_pairing-StartsWith}
use swarm_x.Pairing.Confirm.{confirm_pairing-Confirms}
use swarm_x.Pairing.Places.{
  confirm_handshake-session_ref, revoke_worker-session_ref, decrypt_envelope-same,
  revoke_worker-session_at, session_at-grows, confirm_handshake-grows,
}

find_trusted-without :
    (id j : Ident) (t : List TrustedWorker)
    → find_trusted j (without id t) ≡ (if id == j then none else find_trusted j t)
find_trusted-without id j [] = ground arith
find_trusted-without id j (row ∷ t) = ground (arith, find_trusted-without id j t)

-- After a revocation a worker that had a session is not trusted and has none under its own identifier
-- nor under that of the session, and no handshake with it is pending; the trust in any other worker is
-- as it was.
pub revoke_worker_lem :
    (s : PairingService) (device_id : Ident) (session : ActiveSession)
    → session_at s (session_ref s device_id) ≡ some session
    → let t = (revoke_worker s device_id).0 in
      (session_ref t device_id ≡ none)
      × (session_ref t session.session_id ≡ none)
      × (get device_id t.pending_handshakes ≡ none)
      × ((j : Ident)
          → is_worker_trusted t j ≡ (if device_id == j then false else is_worker_trusted s j))
unfolding revoke_worker is_worker_trusted
revoke_worker_lem s device_id session found =
    let actives = delete session.session_id s.active_sessions in
    (
      rw (found, revoke_worker) (ground (arith, get-delete device_id device_id actives)),
      rw (found, revoke_worker)
          (ground (
            arith,
            get-delete device_id session.session_id actives,
            get-delete session.session_id session.session_id s.active_sessions,
          )),
      ground (arith, get-delete device_id device_id s.pending_handshakes),
      λ j. ground (arith, find_trusted-without device_id j s.trusted_workers),
    )

module _ (crypto : Crypto) (s : PairingService) (worker : Ident) (name : Text)
    (public_key_hex code : Buffer) (initiation_id : Ident) (salt_hex : Buffer) (session_id : Ident)
    (iv_salt : Buffer) (now : ℕ) where
  abbrev paired : PairingService × Result PairingError ActiveSession
  paired =
      confirm_pairing crypto s worker name public_key_hex code initiation_id salt_hex session_id
        iv_salt now

  confirm_pairing-session_ref :
      (key : Ident) → key ≢ worker → key ≢ session_id → session_ref paired.0 key ≡ session_ref s key
  confirm_pairing-session_ref key h h' =
      let start =
        confirm_pairing-StartsWith crypto s worker name public_key_hex code initiation_id salt_hex
          session_id iv_salt now in
      let same : session_ref start.begun key ≡ session_ref s key =
        ap (get key) start.same.same_active in
      elim start.goes_on [
        | inr (why, e) ↦ ap (λ r. session_ref r.0 key) e ∙ same
        | inl e ↦
            ap (λ r. session_ref r.0 key) e
            ∙ confirm_handshake-session_ref crypto start.begun
                (get worker start.begun.pending_handshakes) worker name public_key_hex code
                session_id iv_salt now key h h'
            ∙ same
      ]

  paired_session :
      (session : ActiveSession)
      → paired.1 ≡ ok session
      → (session_at paired.0 (session_ref paired.0 worker) ≡ some session)
        × (session.session_id ≡ session_id)
  paired_session session e =
      let all =
        confirm_pairing-Confirms crypto worker name public_key_hex code session_id iv_salt now s
          initiation_id salt_hex in
      let (h, source, pairs) = rw e at all in (pairs.by_worker, ap (λ x. x.session_id) pairs.made)

  confirm_pairing-grows :
      (i : ℕ) (x : ActiveSession)
      → get_elem? s.sessions i ≡ some x
      → get_elem? paired.0.sessions i ≡ some x
  confirm_pairing-grows i x e =
      let start =
        confirm_pairing-StartsWith crypto s worker name public_key_hex code initiation_id salt_hex
          session_id iv_salt now in
      let e' : get_elem? start.begun.sessions i ≡ some x = rw start.same.same_sessions e in
      elim start.goes_on [
        | inr (why, is) ↦ subst (λ r. get_elem? r.0.sessions i ≡ some x) (sym is) e'
        | inl is ↦
            subst (λ r. get_elem? r.0.sessions i ≡ some x) (sym is)
              (confirm_handshake-grows crypto start.begun
                (get worker start.begun.pending_handshakes) worker name public_key_hex code
                session_id iv_salt now i x e')
      ]

  paired_session_at :
      (session x : ActiveSession) (old : Ident)
      → paired.1 ≡ ok session
      → old ≢ worker
      → old ≢ session_id
      → session_at s (session_ref s old) ≡ some x
      → session_at paired.0 (session_ref paired.0 old) ≡ some x
  paired_session_at session x old e h h' found =
      session_at-grows s paired.0 x old (confirm_pairing-session_ref old h h')
        (λ i. confirm_pairing-grows i x) found

  -- When a worker has paired anew and is then revoked, the worker is not trusted, and the session that an
  -- identifier from before leads to, other than the worker's own and the new session's, is not ended:
  -- the identifier leads to the session with its keys and numbers as they were, and every envelope
  -- that names it is answered as before both calls.
  pub revoke_worker-confirm_pairing :
      (session x : ActiveSession) (old : Ident) (envelope : EncryptedEnvelope)
      → paired.1 ≡ ok session
      → old ≢ worker
      → old ≢ session_id
      → session_at s (session_ref s old) ≡ some x
      → envelope.session_id ≡ old
      → let u = (revoke_worker paired.0 worker).0 in
        (is_worker_trusted u worker ≡ false)
        × (session_at u (session_ref u old) ≡ some x)
        × ((decrypt_envelope crypto u envelope).1 ≡ (decrypt_envelope crypto s envelope).1)
  revoke_worker-confirm_pairing session x old envelope e h h' found names =
      let (there, named) = paired_session session e in
      let all = revoke_worker_lem paired.0 worker session there in
      let ref =
        revoke_worker-session_ref paired.0 worker session old there h (λ same. h' (same ∙ named)) in
      let still : session_at (revoke_worker paired.0 worker).0
            (session_ref (revoke_worker paired.0 worker).0 old)
          ≡ some x =
        revoke_worker-session_at paired.0 worker _
        ∙ ap (session_at paired.0) ref
        ∙ paired_session_at session x old e h h' found in
      (
        all.3 worker ∙ rw (==_refl worker),
        still,
        decrypt_envelope-same crypto (revoke_worker paired.0 worker).0 s envelope x
            (subst
              (λ i.
                session_at (revoke_worker paired.0 worker).0
                  (session_ref (revoke_worker paired.0 worker).0 i)
                ≡ some x)
              (sym names) still)
            (subst (λ i. session_at s (session_ref s i) ≡ some x) (sym names) found),
      )
