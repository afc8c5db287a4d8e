-- ===== src/Pairing/Sas.antt =====
-- The code for the comparison.
use swarm_x.Common.{
  ℕ, ◌+◌, ◌*◌, ◌-◌, ◌/◌, ◌%◌, ◌≤◌, ◌≡◌, refl, [], ◌∷◌, arith, ltb, true, false, length, All,
}
use swarm_x.Pairing.Bytes.{Buffer, decimal, read_big_endian}
use swarm_x.Pairing.Crypto.{Crypto}
use swarm_x.Pairing.Trust.{derive_sas_code}

abbrev pub IsDigit : ℕ → Type 0
IsDigit c = (48 ≤ c) × (c ≤ 57)

-- The number that digits name.
abbrev pub number_of : Buffer → ℕ → ℕ
number_of [] acc = acc
number_of (c ∷ cs) acc = number_of cs (acc * 10 + (c - 48))

decimal_four :
    (n : ℕ)
    → 1000 ≤ n
    → n ≤ 9999
    → decimal 16 n
      ≡ (48 + n / 10 / 10 / 10) ∷ (48 + n / 10 / 10 % 10) ∷ (48 + n / 10 % 10) ∷ (48 + n % 10) ∷ []
unfolding decimal
decimal_four n lo hi =
    let a : ltb n 10 ≡ false = ground arith in
    let b : ltb (n / 10) 10 ≡ false = ground arith in
    let c : ltb (n / 10 / 10) 10 ≡ false = ground arith in
    let d : ltb (n / 10 / 10 / 10) 10 ≡ true = ground arith in rw (a, b, c, d)

-- The code that is derived, from any secret, has four digits and names a number from 1000 to 9999.
pub derive_sas_code-bounds :
    (crypto : Crypto) (shared_secret salt context_info : Buffer)
    → let code = derive_sas_code crypto shared_secret salt context_info in
      (length code ≡ 4) × All IsDigit code × (1000 ≤ number_of code 0) × (number_of code 0 ≤ 9999)
unfolding derive_sas_code
derive_sas_code-bounds crypto shared_secret salt context_info =
    let n =
      read_big_endian (crypto.hkdf_sha256 shared_secret salt context_info 4) 0 % 9000 + 1000 in
    rw (decimal_four n (omega arith) (omega arith)) (refl, omega arith, omega arith, omega arith)
