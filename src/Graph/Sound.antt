-- ===== src/Graph/Sound.antt =====
-- A search that returns `true` has found a cycle.
use swarm_x.Common.{
  ℕ, zero, suc, ◌≡◌, ◌⊎◌, inl, inr, true, List, [], ◌∷◌, arith, Bool-cases, includes, subst, ==_ne,
}
use native.Mathlib.Decide.{ℕ_discrete}
use swarm_x.Common.Dict.{Dict}
use swarm_x.Graph.Search.{
  Verdict, cycle, clear, out_of_fuel, continue_with, start_at, look_at, scan_parents, has_cycle,
  parents_of, check_all, enough,
}
use swarm_x.Graph.Reach.{Edge, Reach, here, step, IsOnCycle}

continue_with-eq-cycle :
    (v : Verdict) (k : List ℕ → Verdict) {path : List ℕ}
    → continue_with v k ≡ cycle path
    → (v ≡ cycle path) ⊎ ((mid : List ℕ) × (k mid ≡ cycle path))
continue_with-eq-cycle (cycle path) k e = inl e
continue_with-eq-cycle (clear mid) k e = inr (mid, e)
continue_with-eq-cycle out_of_fuel k e = cc

module _ (adj : Dict (List ℕ)) where
  -- Every node on the stack has a walk to the node that is looked at.
  abbrev IsTrail : List ℕ → ℕ → Type 0
  IsTrail stack node = (x : ℕ) → includes stack x ≡ true → Reach adj x node

  abbrev SomeCycle : Type 0
  SomeCycle = (n : ℕ) × IsOnCycle adj n

  abbrev Promise : (ℕ → List ℕ → Verdict) → List ℕ → Type 0
  Promise go stack =
      (node : ℕ) (visited path : List ℕ)
      → IsTrail stack node
      → go node visited ≡ cycle path
      → SomeCycle

  -- `p` is a parent of `node`, which is the newest node of the stack.
  look_at-cycle :
      (go : ℕ → List ℕ → Verdict) (stack : List ℕ) (node p : ℕ) (visited path : List ℕ)
      → Promise go stack
      → IsTrail stack node
      → Edge adj node p
      → look_at go stack p visited ≡ cycle path
      → SomeCycle
  look_at-cycle go stack node p visited path promise trail edge e =
      elim (Bool-cases (includes visited p)) [
        | inr new ↦ promise p visited path (λ x h. step (trail x h) edge) (rw new at e)
        | inl seen ↦ elim (Bool-cases (includes stack p)) [
          | inl on_stack ↦ (p, (node, trail p on_stack, edge))
          | inr off ↦ cc
        ]
      ]

  scan-cycle :
      (go : ℕ → List ℕ → Verdict) (stack : List ℕ) (node : ℕ) (ps visited path : List ℕ)
      → Promise go stack
      → IsTrail stack node
      → ((p : ℕ) → includes ps p ≡ true → Edge adj node p)
      → scan_parents go stack ps visited ≡ cycle path
      → SomeCycle
  unfolding scan_parents
  scan-cycle go stack node [] visited path promise trail edges e = cc
  scan-cycle go stack node (p ∷ ps) visited path promise trail edges e =
      elim (continue_with-eq-cycle (look_at go stack p visited) (scan_parents go stack ps) e) [
        | inl found ↦
            look_at-cycle go stack node p visited path promise trail (edges p (ground arith)) found
        | inr (mid, later) ↦
            scan-cycle go stack node ps mid path promise trail (λ q h. edges q (ground arith)) later
      ]

  has_cycle-Promise : (fuel : ℕ) (stack : List ℕ) → Promise (has_cycle adj fuel stack) stack
  unfolding has_cycle
  has_cycle-Promise zero stack node visited path trail e = cc
  has_cycle-Promise (suc fuel) stack node visited path trail e =
      let trail' : IsTrail (node ∷ stack) node = λ x h. elim (ℕ_discrete node x) [
        | yes same ↦ subst (λ y. Reach adj y node) same here
        | no other ↦ trail x (rw (==_ne node x other) at h)
      ] in
      scan-cycle (has_cycle adj fuel (node ∷ stack)) (node ∷ stack) node (parents_of adj node)
        (node ∷ visited) path (has_cycle-Promise fuel (node ∷ stack)) trail' (λ p h. h) e

  -- A search that begins with an empty stack and answers `true` has met a cycle.
  pub has_cycle-SomeCycle :
      (fuel node : ℕ) (visited path : List ℕ)
      → has_cycle adj fuel [] node visited ≡ cycle path
      → (n : ℕ) × IsOnCycle adj n
  has_cycle-SomeCycle fuel node visited path e =
      has_cycle-Promise fuel [] node visited path (λ x h. cc) e

  pub check_all-SomeCycle :
      (nodes visited path : List ℕ)
      → check_all adj nodes visited ≡ cycle path
      → (n : ℕ) × IsOnCycle adj n
  unfolding check_all
  check_all-SomeCycle [] visited path e = cc
  check_all-SomeCycle (node ∷ nodes) visited path e =
      elim (continue_with-eq-cycle (start_at adj node visited) (check_all adj nodes) e) [
        | inr (mid, later) ↦ check_all-SomeCycle nodes mid path later
        | inl found ↦ elim (Bool-cases (includes visited node)) [
          | inl seen ↦ cc
          | inr new ↦ has_cycle-SomeCycle (enough adj) node visited path (rw new at found)
        ]
      ]
