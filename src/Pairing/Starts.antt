-- ===== src/Pairing/Starts.antt =====
-- `confirmPairing` reduced to its part behind the handshake: that part runs in a state in which a
-- handshake may have been made, or the handshake throws.
use swarm_x.Common.{
  subst, ℕ, ◌≡◌, refl, sym, ap, ◌⊎◌, inl, inr, none, arith, Option-cases, Bool-cases, Result, ok,
  err, not, ◌&&◌, ◌==◌, ltb, length,
}
use swarm_x.Common.Dict.{get}
use swarm_x.Task.{Ident, Text}
use swarm_x.Pairing.Bytes.{Buffer}
use swarm_x.Pairing.Crypto.{Crypto}
use swarm_x.Pairing.{ActiveSession, PairingService, PairingError}
use swarm_x.Pairing.Trust.{
  confirm_shaken, process_worker_handshake, confirm_handshake, confirm_pairing,
}

-- The trust and the sessions are the same.
pub record SameTrust (s t : PairingService) : Type 0 where
  pub same_trusted : t.trusted_workers ≡ s.trusted_workers
  pub same_sessions : t.sessions ≡ s.sessions
  pub same_active : t.active_sessions ≡ s.active_sessions

module _ (crypto : Crypto) where
  pub process_worker_handshake-SameTrust :
      (s : PairingService) (initiation_id worker : Ident) (public_key_hex salt_hex : Buffer)
      (now : ℕ)
      → SameTrust s
          (process_worker_handshake crypto s initiation_id worker public_key_hex salt_hex now).0
  unfolding process_worker_handshake
  process_worker_handshake-SameTrust s initiation_id worker public_key_hex salt_hex now =
      ground arith

  module _ (s : PairingService) (worker : Ident) (name : Text) (public_key_hex code : Buffer)
      (initiation_id : Ident) (salt_hex : Buffer) (session_id : Ident) (iv_salt : Buffer)
      (now : ℕ) where
    abbrev pub outcome : PairingService × Result PairingError ActiveSession
    outcome =
        confirm_pairing crypto s worker name public_key_hex code initiation_id salt_hex session_id
          iv_salt now

    abbrev pub behind : PairingService → PairingService × Result PairingError ActiveSession
    behind t =
        confirm_handshake crypto t (get worker t.pending_handshakes) worker name public_key_hex code
          session_id iv_salt now

    pub record StartsWith (result : PairingService × Result PairingError ActiveSession)
        : Type 0 where
      pub begun : PairingService
      pub origin :
          (begun ≡ s)
          ⊎ (begun
              ≡ (process_worker_handshake crypto s initiation_id worker public_key_hex salt_hex
                  now).0)
      pub same : SameTrust s begun
      pub goes_on : (result ≡ behind begun) ⊎ ((why : PairingError) × (result ≡ (begun, err why)))

    confirm_shaken-StartsWith :
        (r : PairingService × Result PairingError Buffer)
        → r ≡ process_worker_handshake crypto s initiation_id worker public_key_hex salt_hex now
        → SameTrust s r.0
        → StartsWith
            (confirm_shaken crypto r worker name public_key_hex code session_id iv_salt now)
    unfolding confirm_shaken
    confirm_shaken-StartsWith (t, err why) e same = record {
      begun = t;
      origin = inr (ap (λ r. r.0) e);
      same = same;
      goes_on = inr (why, refl);
    }
    confirm_shaken-StartsWith (t, ok comparison_code) e same = record {
      begun = t;
      origin = inr (ap (λ r. r.0) e);
      same = same;
      goes_on = inl refl;
    }

    outcome_found : outcome ≡ behind s ⊎ (get worker s.pending_handshakes ≡ none)
    unfolding confirm_pairing
    outcome_found = elim (Option-cases (get worker s.pending_handshakes)) [
      | inr (handshake, found) ↦ inl (rw (found, confirm_pairing))
      | inl missing ↦ inr missing
    ]

    outcome_missing :
        get worker s.pending_handshakes ≡ none
        → (outcome ≡ behind s)
          ⊎ (outcome
              ≡ confirm_shaken crypto
                  (process_worker_handshake crypto s initiation_id worker public_key_hex salt_hex
                    now)
                  worker
                  name
                  public_key_hex
                  code
                  session_id
                  iv_salt
                  now)
    unfolding confirm_pairing
    outcome_missing missing =
        elim (Bool-cases (not (initiation_id == 0) && ltb 0 (length salt_hex))) [
          | inr skipped ↦ inl (rw (missing, confirm_pairing, skipped))
          | inl shaken ↦ inr (rw (missing, confirm_pairing, shaken))
        ]

    pub confirm_pairing-StartsWith : StartsWith outcome
    confirm_pairing-StartsWith = elim outcome_found [
      | inl same ↦ record { begun = s; origin = inl refl; same = here; goes_on = inl same }
      | inr missing ↦ elim (outcome_missing missing) [
        | inl same ↦ record { begun = s; origin = inl refl; same = here; goes_on = inl same }
        | inr shaken ↦ subst StartsWith (sym shaken) (
            confirm_shaken-StartsWith
              (process_worker_handshake crypto s initiation_id worker public_key_hex salt_hex now)
              refl
              (process_worker_handshake-SameTrust s initiation_id worker public_key_hex salt_hex
                now))
      ]
    ]
      where
        here : SameTrust s s
        here = record { same_trusted = refl; same_sessions = refl; same_active = refl }
