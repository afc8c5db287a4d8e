-- ===== src/Common/Dict.antt =====
-- A JavaScript `Map` keyed by identifiers: a list of entries in insertion order. `set` on a key
-- that is there keeps its place.
use Prim.Native.Nat.{ℕ}
use mathlib.Core.Path.{◌≡◌, refl}
use mathlib.Core.List.{List, [], ◌∷◌}
use mathlib.Core.Option.{Option, none, some}
use native.Mathlib.Omega.{arith}
use swarm_x.Common.Tests.{◌==◌, if◌then◌else◌}

abbrev pub Dict {ℓ} : Type ℓ → Type ℓ
Dict V = List (ℕ × V)

module _ {ℓ} {V : Type ℓ} where
  abbrev pub get : ℕ → Dict V → Option V
  get k [] = none
  get k ((j, v) ∷ d) = if j == k then some v else get k d

  abbrev pub set : ℕ → V → Dict V → Dict V
  set k v [] = (k, v) ∷ []
  set k v ((j, w) ∷ d) = if j == k then (k, v) ∷ d else (j, w) ∷ set k v d

  abbrev pub delete : ℕ → Dict V → Dict V
  delete k [] = []
  delete k ((j, w) ∷ d) = if j == k then delete k d else (j, w) ∷ delete k d

  abbrev pub values : Dict V → List V
  values [] = []
  values ((j, v) ∷ d) = v ∷ values d

  pub get-set :
      (k j : ℕ) (v : V) (d : Dict V) → get j (set k v d) ≡ (if k == j then some v else get j d)
  get-set k j v [] = refl
  get-set k j v ((i, w) ∷ d) = ground (arith, get-set k j v d)

  pub get-delete : (k j : ℕ) (d : Dict V) → get j (delete k d) ≡ (if k == j then none else get j d)
  get-delete k j [] = ground arith
  get-delete k j ((i, w) ∷ d) = ground (arith, get-delete k j d)
