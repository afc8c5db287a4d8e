-- ===== src/Graph/Reach.antt =====
-- What the search decides: walks along dependencies, cycles, and nodes from which every walk ends.
use swarm_x.Common.{ℕ, ◌≡◌, true, List, includes}
use swarm_x.Common.Dict.{Dict}
use swarm_x.Graph.Search.{parents_of}

-- `m` is a dependency of `n`.
abbrev pub Edge : Dict (List ℕ) → ℕ → ℕ → Type 0
Edge adj n m = includes (parents_of adj n) m ≡ true

pub data Reach (adj : Dict (List ℕ)) (n : ℕ) : ℕ → Type 0 where
  here : Reach adj n n
  step : {m k : ℕ} → Reach adj n m → Edge adj m k → Reach adj n k

-- A walk of at least one edge from a node back to itself.
abbrev pub IsOnCycle : Dict (List ℕ) → ℕ → Type 0
IsOnCycle adj n = (m : ℕ) × Reach adj n m × Edge adj m n

-- Every walk along the dependencies of `n` ends.
pub data Ends (adj : Dict (List ℕ)) : ℕ → Type 0 where
  ends : {n : ℕ} → ((m : ℕ) → Edge adj n m → Ends adj m) → Ends adj n

pub Ends-Edge : {adj : Dict (List ℕ)} {n : ℕ} (m : ℕ) → Ends adj n → Edge adj n m → Ends adj m
Ends-Edge m (ends f) e = f m e

pub Ends-Reach : {adj : Dict (List ℕ)} {n m : ℕ} → Ends adj n → Reach adj n m → Ends adj m
Ends-Reach h here = h
Ends-Reach h (step {k} r e) = Ends-Edge k (Ends-Reach h r) e

-- A walk that comes back could be repeated for ever. The first edge is peeled off.
Reach-uncons :
    {adj : Dict (List ℕ)} {n m k : ℕ}
    → Reach adj n m
    → Edge adj m k
    → (j : ℕ) × Edge adj n j × Reach adj j k
Reach-uncons {k} here e = (k, e, here)
Reach-uncons (step r e') e = let (j, first, rest) = Reach-uncons r e' in (j, first, step rest e)

pub Ends-not_cyclic : {adj : Dict (List ℕ)} {n : ℕ} → Ends adj n → ¬ IsOnCycle adj n
Ends-not_cyclic {n} (ends f) (m, r, e) =
    let (j, first, rest) = Reach-uncons r e in Ends-not_cyclic (f j first) (n, rest, first)
