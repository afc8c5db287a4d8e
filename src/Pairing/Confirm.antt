-- ===== src/Pairing/Confirm.antt =====
-- Trust and sessions come from a handshake whose code was confirmed, and from nothing else.
use swarm_x.Common.{
  ℕ, ◌≡◌, refl, subst, ◌⊎◌, inl, inr, Option, none, some, List, [], ◌∷◌, ◌++◌, arith, true,
  Bool-cases, Result, ok, err, length, ==_refl, get_elem?,
}
use swarm_x.Common.Dict.{get, set, get-set, get-delete}
use swarm_x.Task.{Ident, Text}
use swarm_x.Pairing.Bytes.{Buffer, same_text}
use swarm_x.Pairing.Crypto.{Crypto}
use swarm_x.Pairing.{ActiveSession, PairingService, PairingError, PendingHandshake}
use swarm_x.Pairing.Trust.{
  without, new_session, new_row, process_worker_handshake, confirm_handshake, confirm_pairing,
}
use swarm_x.Pairing.Envelope.{session_ref, session_at}
use swarm_x.Pairing.Starts.{SameTrust, confirm_pairing-StartsWith}

same_text-eq : (x y : Buffer) → same_text x y ≡ true → x ≡ y
unfolding same_text
same_text-eq [] [] e = refl
same_text-eq (a ∷ xs) [] e = cc
same_text-eq [] (b ∷ ys) e = cc
same_text-eq (a ∷ xs) (b ∷ ys) e = ground (arith, same_text-eq xs ys)

pub same_text_refl : (x : Buffer) → same_text x x ≡ true
unfolding same_text
same_text_refl [] = refl
same_text_refl (a ∷ xs) = rw (==_refl a, same_text_refl xs)

get_elem?_last :
    (xs : List ActiveSession) (x : ActiveSession) → get_elem? (xs ++ x ∷ []) (length xs) ≡ some x
get_elem?_last [] x = refl
get_elem?_last (y ∷ xs) x = get_elem?_last xs x

module _ (crypto : Crypto) (worker : Ident) (name : Text) (public_key_hex code : Buffer)
    (session_id : Ident) (iv_salt : Buffer) (now : ℕ) where
  -- What a handshake has become: the worker has the row of the handshake, and both keys lead to the
  -- new session, whose numbers begin at 0.
  pub record Pairs (handshake : PendingHandshake) (s t : PairingService) (session : ActiveSession)
      : Type 0 where
    pub confirmed : handshake.expected_sas_code ≡ code
    pub made : session ≡ new_session crypto handshake worker session_id iv_salt now
    pub row :
        t.trusted_workers
        ≡ without worker s.trusted_workers
          ++ new_row crypto handshake worker name public_key_hex now ∷ []
    pub by_worker : session_at t (session_ref t worker) ≡ some session
    pub by_session : session_at t (session_ref t session_id) ≡ some session
    pub spent : get worker t.pending_handshakes ≡ none

  confirm_handshake-Pairs :
      (s : PairingService) (h : PendingHandshake)
      → same_text h.expected_sas_code code ≡ true
      → let (t, r) =
          confirm_handshake crypto s
            (some h)
            worker
            name
            public_key_hex
            code
            session_id
            iv_salt
            now in
        Pairs h s t (new_session crypto h worker session_id iv_salt now)
  unfolding confirm_handshake
  confirm_handshake-Pairs s h fits =
      let x = new_session crypto h worker session_id iv_salt now in
      let n = length s.sessions in
      let actives = set worker n s.active_sessions in
      let last = get_elem?_last s.sessions x in
      let e = same_text-eq h.expected_sas_code code fits in
      rw (fits) record {
        confirmed = e;
        made = refl;
        row = refl;
        by_worker = ground (
          arith,
          get-set session_id worker n actives,
          get-set worker worker n s.active_sessions,
          last,
        );
        by_session = ground (arith, get-set session_id session_id n actives, last);
        spent = ground (arith, get-delete worker worker s.pending_handshakes);
      }

  -- The handshake that is there has become a session, or an error leaves trust and sessions alone.
  abbrev pub Confirms :
      (PendingHandshake → Type 0)
      → PairingService
      → PairingService
      → Result PairingError ActiveSession
      → Type 0
  Confirms From s t (err why) = SameTrust s t
  Confirms From s t (ok session) = (h : PendingHandshake) × From h × Pairs h s t session

  confirm_handshake-Confirms :
      (From : PendingHandshake → Type 0) (s : PairingService) (o : Option PendingHandshake)
      → ((h : PendingHandshake) → o ≡ some h → From h)
      → let (t, r) =
          confirm_handshake crypto s o worker name public_key_hex code session_id iv_salt now in
        Confirms From s t r
  unfolding confirm_handshake
  confirm_handshake-Confirms From s none source = record {
    same_trusted = refl;
    same_sessions = refl;
    same_active = refl;
  }
  confirm_handshake-Confirms From s (some h) source =
      elim (Bool-cases (same_text h.expected_sas_code code)) [
        | inl fits ↦
            let pairs = confirm_handshake-Pairs s h fits in
            rw fits (h, source h refl, rw fits at pairs)
        | inr other ↦
            rw other (record { same_trusted = refl; same_sessions = refl; same_active = refl })
      ]

  Confirms-SameTrust :
      (From : PendingHandshake → Type 0) (s t u : PairingService)
      (r : Result PairingError ActiveSession)
      → SameTrust s t
      → Confirms From t u r
      → Confirms From s u r
  Confirms-SameTrust From s t u (err why) same c = ground arith
  Confirms-SameTrust From s t u (ok session) same (h, source, p) = (
    h,
    source,
    record {
      confirmed = p.confirmed;
      made = p.made;
      row =
          subst
            (λ l.
              u.trusted_workers
              ≡ without worker l ++ new_row crypto h worker name public_key_hex now ∷ [])
            same.same_trusted p.row;
      by_worker = p.by_worker;
      by_session = p.by_session;
      spent = p.spent;
    },
  )

  -- If a pairing is confirmed, the code that was given is the one expected by a handshake with that
  -- worker, which was pending or is made from the initiation that is named; then the worker has one
  -- row of trust, made from that handshake, its identifier and that of the session lead to a new
  -- session, and the handshake is spent. If it fails, the rows of trust, the sessions and the keys
  -- that lead to them are as they were.
  pub confirm_pairing-Confirms :
      (s : PairingService) (initiation_id : Ident) (salt_hex : Buffer)
      → let (t, r) =
          confirm_pairing crypto s worker name public_key_hex code initiation_id salt_hex session_id
            iv_salt now in
        Confirms
          (λ h.
            (get worker s.pending_handshakes ≡ some h)
            ⊎ (let (u, _) =
                  process_worker_handshake crypto s initiation_id worker public_key_hex salt_hex
                    now in
                get worker u.pending_handshakes ≡ some h))
          s
          t
          r
  confirm_pairing-Confirms s initiation_id salt_hex =
      let start =
        confirm_pairing-StartsWith crypto s worker name public_key_hex code initiation_id salt_hex
          session_id iv_salt now in
      let u =
        (process_worker_handshake crypto s initiation_id worker public_key_hex salt_hex now).0 in
      let From : PendingHandshake → Type 0 = λ h.
        (get worker s.pending_handshakes ≡ some h) ⊎ (get worker u.pending_handshakes ≡ some h) in
      let source : (h : PendingHandshake)
          → get worker start.begun.pending_handshakes ≡ some h
          → From h =
        λ h f. elim start.origin [
          | inl e ↦ inl (subst (λ v. get worker v.pending_handshakes ≡ some h) e f)
          | inr e ↦ inr (subst (λ v. get worker v.pending_handshakes ≡ some h) e f)
        ] in
      elim start.goes_on [
        | inr (why, e) ↦ rw e start.same
        | inl e ↦ rw e (
            Confirms-SameTrust From s start.begun _ _ start.same (
              confirm_handshake-Confirms From start.begun
                (get worker start.begun.pending_handshakes) source))
      ]
