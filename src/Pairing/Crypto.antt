-- ===== src/Pairing/Crypto.antt =====
-- What core/src/pairing_service.ts takes from Node's `crypto` and from base64, and the text that an
-- identifier stands for.
use swarm_x.Common.{ℕ, Option}
use swarm_x.Task.{Ident}
use swarm_x.Pairing.Bytes.{Buffer}

pub record Crypto : Type 0 where
  -- The public key that belongs to a private one, in DER.
  pub public_key_der : ℕ → Buffer
  -- `createPublicKey` and `diffieHellman`: nothing if the key is malformed.
  pub diffie_hellman : (private_key : ℕ) (public_key_der : Buffer) → Option Buffer
  pub hkdf_sha256 : (secret salt info : Buffer) (size : ℕ) → Buffer
  -- The digest in hexadecimal.
  pub sha256_hex : Buffer → Buffer
  -- AES-256-GCM: the ciphertext and the tag.
  pub seal : (key iv aad plaintext : Buffer) → Buffer × Buffer
  -- Nothing if the tag does not fit.
  pub unseal : (key iv aad ciphertext tag : Buffer) → Option Buffer
  pub to_base64 : Buffer → Buffer
  pub from_base64 : Buffer → Buffer
  pub text_of : Ident → Buffer
