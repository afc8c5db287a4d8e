-- ===== src/Pairing/Nonces.antt =====
-- No nonce is used twice in a session.
use swarm_x.Common.{
  ℕ, zero, suc, ◌+◌, ◌-◌, ◌*◌, ◌/◌, ◌%◌, ◌^◌, ◌<◌, ◌≡◌, ◌≢◌, refl, sym, ap, subst, ◌∙◌, some, List,
  [], ◌∷◌, ◌++◌, arith, inl, inr, ok, take, drop, length,
}
use swarm_x.Chunk.Buffer.{drop-append}
use swarm_x.Task.{Ident}
use swarm_x.Pairing.Bytes.{Buffer, big_endian, read_big_endian, zeros}
use swarm_x.Pairing.Crypto.{Crypto}
use swarm_x.Pairing.{ActiveSession, PairingService, EncryptedEnvelope}
use swarm_x.Pairing.Envelope.{
  session_ref, session_at, construct_iv, envelope_of, encrypt_envelope, max_safe_integer,
}
use swarm_x.Pairing.Cases.{encrypt_envelope_cases, counted}
use swarm_x.Pairing.Calls.{Call, run}
use swarm_x.Pairing.Kept.{Later, run-Keeps}
use swarm_x.Pairing.Replay.{session_at-Keeps, session_at-write_session}

read_big_endian-append :
    (bs : Buffer) (b acc : ℕ)
    → read_big_endian (bs ++ b ∷ []) acc ≡ read_big_endian bs acc * 256 + b
unfolding read_big_endian
read_big_endian-append [] b acc = refl
read_big_endian-append (x ∷ bs) b acc = read_big_endian-append bs b (acc * 256 + x)

pub read_big_endian-big_endian : (n v : ℕ) → v < 256 ^ n → read_big_endian (big_endian n v) 0 ≡ v
unfolding big_endian
read_big_endian-big_endian zero v h = unfold read_big_endian in omega arith
read_big_endian-big_endian (suc n) v h =
    rw (read_big_endian-append (big_endian n (v / 256)) (v % 256) 0)
      (omega (arith, read_big_endian-big_endian n (v / 256) (omega arith)))

append_cancel : (front xs ys : Buffer) → front ++ xs ≡ front ++ ys → xs ≡ ys
append_cancel front xs ys e =
    sym (drop-append (length front) front xs refl)
    ∙ ap (drop (length front)) e
    ∙ drop-append (length front) front ys refl

-- Two sequence numbers that fit into eight bytes make two nonces.
pub construct_iv-inj :
    (salt : Buffer) (m n : ℕ)
    → m < 256 ^ 8
    → n < 256 ^ 8
    → construct_iv salt m ≡ construct_iv salt n
    → m ≡ n
unfolding construct_iv
construct_iv-inj salt m n hm hn e =
    let front = take 4 salt ++ zeros (4 - length (take 4 salt)) in
    sym (read_big_endian-big_endian 8 m hm)
    ∙ ap (λ b. read_big_endian b 0) (append_cancel front (big_endian 8 m) (big_endian 8 n) e)
    ∙ read_big_endian-big_endian 8 n hn

module _ (crypto : Crypto) where
  -- The envelopes of a session and of the same session later.
  envelope_of-nonce :
      (x z : ActiveSession) (plaintext plaintext' : Buffer)
      → ((b : Buffer) → crypto.from_base64 (crypto.to_base64 b) ≡ b)
      → Later (counted x) z
      → z.send_sequence_num + 1 < max_safe_integer
      → let e = envelope_of crypto (counted x) plaintext in
        let e' = envelope_of crypto (counted z) plaintext' in
        (e.sequence_num < e'.sequence_num)
        × (e'.sequence_num < max_safe_integer)
        × (e.iv_nonce ≢ e'.iv_nonce)
  envelope_of-nonce x z plaintext plaintext' codec later room = (
    omega (arith, later.sent),
    room,
    λ same.
        let iv = construct_iv x.iv_salt (x.send_sequence_num + 1) in
        let iv' = construct_iv z.iv_salt (z.send_sequence_num + 1) in
        let ivs : iv ≡ iv' = sym (codec iv) ∙ ap crypto.from_base64 same ∙ codec iv' in
        let salts : iv ≡ construct_iv x.iv_salt (z.send_sequence_num + 1) =
          ivs ∙ ap (λ salt. construct_iv salt (z.send_sequence_num + 1)) later.same_salt in
        let numbers =
          construct_iv-inj x.iv_salt (x.send_sequence_num + 1) (z.send_sequence_num + 1)
            (omega (arith, later.sent)) (omega arith) salts in
        omega (arith, numbers, later.sent),
  )

  -- Of two envelopes that one session has encrypted, with any calls between, the second has a higher
  -- sequence number, below the greatest safe integer, and another nonce. Base64 can be read back.
  pub encrypt_envelope-nonce :
      (s : PairingService) (key key' : Ident) (plaintext plaintext' : Buffer) (calls : List Call)
      (e e' : EncryptedEnvelope)
      → ((b : Buffer) → crypto.from_base64 (crypto.to_base64 b) ≡ b)
      → (encrypt_envelope crypto s key plaintext).1 ≡ ok e
      → (let s' = run crypto (encrypt_envelope crypto s key plaintext).0 calls in
          (encrypt_envelope crypto s' key' plaintext').1 ≡ ok e')
      → (let s' = run crypto (encrypt_envelope crypto s key plaintext).0 calls in
          session_ref s' key' ≡ session_ref s key)
      → (e.sequence_num < e'.sequence_num)
        × (e'.sequence_num < max_safe_integer)
        × (e.iv_nonce ≢ e'.iv_nonce)
  encrypt_envelope-nonce s key key' plaintext plaintext' calls e e' codec first second same =
      elim (encrypt_envelope_cases crypto s key plaintext) [
        | inl failed ↦ absurd (cc (failed.result, first))
        | inr a ↦
            let t = (encrypt_envelope crypto s key plaintext).0 in
            let t' = run crypto t calls in
            elim (encrypt_envelope_cases crypto t' key' plaintext') [
              | inl failed ↦ absurd (cc (failed.result, second))
              | inr b ↦
                  let r = session_ref s key in
                  let now : session_at t r ≡ some (counted a.session) =
                    subst (λ u. session_at u r ≡ some (counted a.session)) (sym a.after)
                      (session_at-write_session s r a.session (counted a.session) a.found) in
                  let (y, found, later) =
                    session_at-Keeps t t' r (counted a.session) (run-Keeps crypto t calls) now in
                  let there : session_at t' r ≡ some b.session =
                    subst (λ q. session_at t' q ≡ some b.session) same b.found in
                  let this : y ≡ b.session = cc (found, there) in
                  let ea : envelope_of crypto (counted a.session) plaintext ≡ e =
                    cc (a.result, first) in
                  let eb : envelope_of crypto (counted b.session) plaintext' ≡ e' =
                    cc (b.result, second) in
                  let nonces =
                    envelope_of-nonce a.session b.session plaintext plaintext' codec
                      (subst (Later (counted a.session)) this later) b.room in
                  rw (← ea, ← eb) nonces
            ]
      ]
