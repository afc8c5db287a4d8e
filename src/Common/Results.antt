-- ===== src/Common/Results.antt =====
-- What code that may throw returns: a value, or the error that is thrown.
use mathlib.Core.Bool.{Bool, true, false}
use mathlib.Core.Path.{◌≡◌, refl}
use mathlib.Core.Logic.{◌⊎◌, inl, inr}

pub data Result {ℓ} (Err : Type 0) (Ok : Type ℓ) : Type ℓ where
  err : Err → Result Err Ok
  ok : Ok → Result Err Ok

-- `if (test) throw error`.
abbrev pub throw_if : {Err : Type 0} → Bool → Err → Result Err (Unit {0})
throw_if false why = ok tt
throw_if true why = err why

module _ {Err : Type 0} where
  infixl 5 ◌>>=◌ ◌>>◌
  abbrev pub ◌>>=◌ {ℓ κ} :
      {Ok : Type ℓ} {Ok' : Type κ} → Result Err Ok → (Ok → Result Err Ok') → Result Err Ok'
  err why >>= next = err why
  ok v >>= next = next v

  abbrev pub ◌>>◌ {ℓ} : {Ok : Type ℓ} → Result Err (Unit {0}) → Result Err Ok → Result Err Ok
  test >> next = test >>= λ done. next

module _ {ℓ κ} {Err : Type 0} {Ok : Type ℓ} {Ok' : Type κ} where
  -- What comes first in a chain that succeeds has succeeded too.
  pub >>=-eq-ok :
      (first : Result Err Ok) (next : Ok → Result Err Ok') {w : Ok'}
      → (first >>= next) ≡ ok w
      → (v : Ok) × (first ≡ ok v) × (next v ≡ ok w)
  >>=-eq-ok (err why) next e = cc
  >>=-eq-ok (ok v) next e = (v, refl, e)

  -- A chain fails at its start or later.
  pub >>=-eq-err :
      (first : Result Err Ok) (next : Ok → Result Err Ok') {why : Err}
      → (first >>= next) ≡ err why
      → (first ≡ err why) ⊎ ((v : Ok) × (first ≡ ok v) × (next v ≡ err why))
  >>=-eq-err (err why) next e = inl (cc)
  >>=-eq-err (ok v) next e = inr (v, refl, e)
