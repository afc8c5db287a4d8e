-- ===== src/Transport/Revocation.antt =====
-- The message REVOKE_TRUST, through pairing, workers and store.
use swarm_x.Common.{ℕ, ◌≡◌, refl, ◌∙◌, false, none, some, if◌then◌else◌, ◌==◌, ==_refl, ok}
use swarm_x.Common.Dict.{get}
use swarm_x.Task.{Ident}
use swarm_x.Store.Rows.{Unique}
use swarm_x.Pairing.{ActiveSession}
use swarm_x.Pairing.Trust.{is_worker_trusted, revoke_worker}
use swarm_x.Pairing.Envelope.{session_ref, session_at}
use swarm_x.Pairing.Revoke.{revoke_worker_lem}
use swarm_x.Transport.{TransportServer, Host, Fresh, Message, revoke_trust, nothing}
use swarm_x.Transport.Dispatch.{handle_worker_message}
use swarm_x.Transport.Loss.{tasks_of, lose_worker-idle, lose_worker-get}

-- REVOKE_TRUST names a device, and on whatever socket it comes: if the device had a session, it is
-- not trusted afterwards, the session is found neither under its name nor under the device's, the device
-- is not registered and has no task in flight; the trust in any other device is as it was.
pub handle_worker_message-revoke_trust :
    (host : Host) (fresh : Fresh) (s : TransportServer) (device worker : Ident) (ws : ℕ)
    (session : ActiveSession)
    → Unique s.pipeline.table
    → session_at s.pairing (session_ref s.pairing device) ≡ some session
    → let msg : Message = record {
      device_id = device;
      worker_device_id = worker;
      body = revoke_trust;
    } in
      let (s', r) = handle_worker_message host fresh s msg ws in
      (r ≡ ok nothing)
      × (session_ref s'.pairing device ≡ none)
      × (session_ref s'.pairing session.session_id ≡ none)
      × (get device s'.workers ≡ none)
      × (tasks_of s' device ≡ 0)
      × ((j : Ident)
          → is_worker_trusted s'.pairing j
            ≡ (if device == j then false else is_worker_trusted s.pairing j))
unfolding handle_worker_message
handle_worker_message-revoke_trust host fresh s device worker ws session u found =
    let untrusted = revoke_worker_lem s.pairing device session found in
    let revoked : TransportServer = record s { pairing = (revoke_worker s.pairing device).0 } in
    (
      refl,
      untrusted.0,
      untrusted.1,
      lose_worker-get revoked device fresh.now device ∙ rw (==_refl device),
      lose_worker-idle revoked device fresh.now u,
      untrusted.3,
    )
