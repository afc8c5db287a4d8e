-- ===== src/Graph/Fuel.antt =====
-- The search ends: its recursion enters a node at most once, so it is never deeper than the number
-- of nodes, which is the fuel that it gets.
use swarm_x.Common.{
  ℕ, zero, suc, ◌≤◌, ◌<◌, ◌≡◌, ◌≢◌, refl, ◌⊎◌, inl, inr, true, false, ◌||◌, some, List, [], ◌∷◌,
  ◌++◌, arith, includes, length, if◌then◌else◌,
}
use native.Mathlib.Decide.{ℕ_discrete}
use swarm_x.Common.Dict.{Dict, get}
use swarm_x.Graph.Search.{
  Verdict, cycle, clear, out_of_fuel, continue_with, start_at, look_at, scan_parents, has_cycle,
  parents_of, check_all, enough, nodes_of,
}
use swarm_x.Graph.Complete.{continue_with-eq-clear}

-- How many entries of a list are not visited yet.
abbrev pub unvisited : List ℕ → List ℕ → ℕ
unvisited [] visited = 0
unvisited (u ∷ us) visited =
    if includes visited u then unvisited us visited else suc (unvisited us visited)

unvisited-le-length : (us visited : List ℕ) → unvisited us visited ≤ length us
unvisited-le-length [] visited = omega arith
unvisited-le-length (u ∷ us) visited = ground (arith, unvisited-le-length us visited)

unvisited-cons-le :
    (us : List ℕ) (node : ℕ) (visited : List ℕ)
    → unvisited us (node ∷ visited) ≤ unvisited us visited
unvisited-cons-le [] node visited = omega arith
unvisited-cons-le (u ∷ us) node visited = ground (arith, unvisited-cons-le us node visited)

-- Entering a node that is not visited leaves fewer.
unvisited-cons-lt :
    (us : List ℕ) (node : ℕ) (visited : List ℕ)
    → includes us node ≡ true
    → includes visited node ≡ false
    → unvisited us (node ∷ visited) < unvisited us visited
unvisited-cons-lt [] node visited h new = cc
unvisited-cons-lt (u ∷ us) node visited h new = elim (ℕ_discrete u node) [
  | yes same ↦ ground (arith, unvisited-cons-le us node visited)
  | no other ↦ ground (arith, unvisited-cons-lt us node visited)
]

continue_with-eq-out_of_fuel :
    (v : Verdict) (k : List ℕ → Verdict)
    → continue_with v k ≡ out_of_fuel
    → (v ≡ out_of_fuel) ⊎ ((mid : List ℕ) × (v ≡ clear mid) × (k mid ≡ out_of_fuel))
continue_with-eq-out_of_fuel (cycle path) k e = cc
continue_with-eq-out_of_fuel (clear mid) k e = inr (mid, refl, e)
continue_with-eq-out_of_fuel out_of_fuel k e = inl refl

module _ (us : List ℕ) where
  -- A call visits nodes and forgets none.
  abbrev Grows : (ℕ → List ℕ → Verdict) → Type 0
  Grows go =
      (node : ℕ) (visited after : List ℕ)
      → go node visited ≡ clear after
      → unvisited us after ≤ unvisited us visited

  -- With this much left to visit a call does not run out.
  abbrev Lasts : (ℕ → List ℕ → Verdict) → ℕ → Type 0
  Lasts go bound =
      (node : ℕ) (visited : List ℕ)
      → includes us node ≡ true
      → includes visited node ≡ false
      → unvisited us visited ≤ bound
      → go node visited ≢ out_of_fuel

  module _ (go : ℕ → List ℕ → Verdict) (stack : List ℕ) (grows : Grows go) where
    look_at-Grows :
        (p : ℕ) (visited after : List ℕ)
        → look_at go stack p visited ≡ clear after
        → unvisited us after ≤ unvisited us visited
    look_at-Grows p visited after e = ground (arith, grows p visited after)

    scan-Grows :
        (ps visited after : List ℕ)
        → scan_parents go stack ps visited ≡ clear after
        → unvisited us after ≤ unvisited us visited
    unfolding scan_parents
    scan-Grows [] visited after e = ground arith
    scan-Grows (p ∷ ps) visited after e =
        let (mid, looked, rest) =
          continue_with-eq-clear (look_at go stack p visited) (scan_parents go stack ps) e in
        omega (arith, look_at-Grows p visited mid looked, scan-Grows ps mid after rest)

    look_at-Lasts :
        (bound p : ℕ) (visited : List ℕ)
        → Lasts go bound
        → includes us p ≡ true
        → unvisited us visited ≤ bound
        → look_at go stack p visited ≢ out_of_fuel
    look_at-Lasts bound p visited lasts within le = ground (arith, lasts p visited)

    scan-Lasts :
        (bound : ℕ) (ps visited : List ℕ)
        → Lasts go bound
        → ((p : ℕ) → includes ps p ≡ true → includes us p ≡ true)
        → unvisited us visited ≤ bound
        → scan_parents go stack ps visited ≢ out_of_fuel
    unfolding scan_parents
    scan-Lasts bound [] visited lasts within le e = cc
    scan-Lasts bound (p ∷ ps) visited lasts within le e =
        elim (continue_with-eq-out_of_fuel (look_at go stack p visited) (scan_parents go stack ps)
          e) [
            | inl now ↦ look_at-Lasts bound p visited lasts (within p (ground arith)) le now
            | inr (mid, looked, later) ↦
                scan-Lasts bound ps mid lasts (λ q h. within q (ground arith))
                  (omega (arith, look_at-Grows p visited mid looked)) later
          ]

module _ (us : List ℕ) (adj : Dict (List ℕ)) where
  has_cycle-Grows : (fuel : ℕ) (stack : List ℕ) → Grows us (has_cycle adj fuel stack)
  unfolding has_cycle
  has_cycle-Grows zero stack node visited after e = cc
  has_cycle-Grows (suc fuel) stack node visited after e = omega (
    arith,
    unvisited-cons-le us node visited,
    scan-Grows us (has_cycle adj fuel (node ∷ stack)) (node ∷ stack)
        (has_cycle-Grows fuel (node ∷ stack)) (parents_of adj node) (node ∷ visited) after e,
  )

  has_cycle-Lasts :
      ((n p : ℕ) → includes (parents_of adj n) p ≡ true → includes us p ≡ true)
      → (fuel : ℕ) (stack : List ℕ) → Lasts us (has_cycle adj fuel stack) fuel
  unfolding has_cycle
  has_cycle-Lasts closed zero stack node visited known new le e =
      absurd (omega (arith, unvisited-cons-lt us node visited known new))
  has_cycle-Lasts closed (suc fuel) stack node visited known new le e =
      scan-Lasts us (has_cycle adj fuel (node ∷ stack)) (node ∷ stack)
        (has_cycle-Grows fuel (node ∷ stack)) fuel (parents_of adj node) (node ∷ visited)
        (has_cycle-Lasts closed fuel (node ∷ stack)) (closed node)
        (omega (arith, unvisited-cons-lt us node visited known new)) e

includes-append :
    (xs ys : List ℕ) (a : ℕ) → includes (xs ++ ys) a ≡ (includes xs a || includes ys a)
includes-append [] ys a = refl
includes-append (x ∷ xs) ys a = ground (arith, includes-append xs ys a)

-- The nodes that a map names are closed under dependencies.
nodes_of-closed :
    (adj : Dict (List ℕ)) (n p : ℕ)
    → includes (parents_of adj n) p ≡ true
    → includes (nodes_of adj) p ≡ true
nodes_of-closed [] n p h = cc
nodes_of-closed ((k, ps) ∷ adj) n p h = elim (ℕ_discrete k n) [
  | yes same ↦ ground (arith, includes-append ps (nodes_of adj) p)
  | no other ↦ ground (arith, includes-append ps (nodes_of adj) p, nodes_of-closed adj n p)
]

pub nodes_of-key :
    (adj : Dict (List ℕ)) (n : ℕ) (ps : List ℕ)
    → get n adj ≡ some ps
    → includes (nodes_of adj) n ≡ true
nodes_of-key [] n ps h = cc
nodes_of-key ((k, qs) ∷ adj) n ps h =
    ground (arith, includes-append qs (nodes_of adj) n, nodes_of-key adj n ps)

-- The fuel suffices for a node that the map names and that is not visited yet.
pub has_cycle_lasts :
    (adj : Dict (List ℕ)) (node : ℕ) (visited : List ℕ)
    → includes (nodes_of adj) node ≡ true
    → includes visited node ≡ false
    → has_cycle adj (enough adj) [] node visited ≢ out_of_fuel
has_cycle_lasts adj node visited known new =
    has_cycle-Lasts (nodes_of adj) adj (nodes_of-closed adj) (enough adj) [] node visited known new
      (omega (arith, unvisited-le-length (nodes_of adj) visited))

pub check_all_lasts :
    (adj : Dict (List ℕ)) (nodes visited : List ℕ)
    → ((n : ℕ) → includes nodes n ≡ true → includes (nodes_of adj) n ≡ true)
    → check_all adj nodes visited ≢ out_of_fuel
unfolding check_all
check_all_lasts adj [] visited known e = cc
check_all_lasts adj (node ∷ nodes) visited known e =
    elim (continue_with-eq-out_of_fuel (start_at adj node visited) (check_all adj nodes) e) [
      | inr (mid, first, later) ↦
          check_all_lasts adj nodes mid (λ n h. known n (ground arith)) later
      | inl now ↦ ground (arith, has_cycle_lasts adj node visited (known node (ground arith)))
    ]
