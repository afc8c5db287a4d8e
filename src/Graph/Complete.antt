-- ===== src/Graph/Complete.antt =====
-- A search that returns `false` has found that every walk ends.
use swarm_x.Common.{
  ℕ, zero, suc, ◌≡◌, refl, subst, ◌⊎◌, inl, inr, true, List, [], ◌∷◌, arith, Bool-cases, ==_ne,
  includes,
}
use native.Mathlib.Decide.{ℕ_discrete}
use swarm_x.Common.Dict.{Dict}
use swarm_x.Graph.Search.{
  Verdict, cycle, clear, continue_with, start_at, out_of_fuel, look_at, scan_parents, has_cycle,
  parents_of, check_all, enough,
}
use swarm_x.Graph.Reach.{Ends, ends}

-- A visited node is on the stack, or all walks from it end.
abbrev pub IsSettled : Dict (List ℕ) → List ℕ → List ℕ → Type 0
IsSettled adj stack visited =
    (n : ℕ) → includes visited n ≡ true → (includes stack n ≡ true) ⊎ Ends adj n

pub continue_with-eq-clear :
    (v : Verdict) (k : List ℕ → Verdict) {after : List ℕ}
    → continue_with v k ≡ clear after
    → (mid : List ℕ) × (v ≡ clear mid) × (k mid ≡ clear after)
continue_with-eq-clear (cycle path) k e = cc
continue_with-eq-clear (clear mid) k e = (mid, refl, e)
continue_with-eq-clear out_of_fuel k e = cc

module _ (adj : Dict (List ℕ)) where
  -- What a call promises when it returns `clear`.
  abbrev Promise : (ℕ → List ℕ → Verdict) → List ℕ → Type 0
  Promise go stack =
      (node : ℕ) (visited after : List ℕ)
      → IsSettled adj stack visited
      → go node visited ≡ clear after
      → IsSettled adj stack after × Ends adj node

  look_at-IsSettled :
      (go : ℕ → List ℕ → Verdict) (stack : List ℕ) (p : ℕ) (visited after : List ℕ)
      → Promise go stack
      → IsSettled adj stack visited
      → look_at go stack p visited ≡ clear after
      → IsSettled adj stack after × Ends adj p
  look_at-IsSettled go stack p visited after promise inv e =
      elim (Bool-cases (includes visited p)) [
        | inr new ↦ promise p visited after inv (rw new at e)
        | inl seen ↦ elim (inv p seen) [
          | inl on_stack ↦ cc
          | inr end ↦ elim (Bool-cases (includes stack p)) [
            | inl on_stack ↦ cc
            | inr off ↦ (subst (IsSettled adj stack) (cc) inv, end)
          ]
        ]
      ]

  scan-IsSettled :
      (go : ℕ → List ℕ → Verdict) (stack ps visited after : List ℕ)
      → Promise go stack
      → IsSettled adj stack visited
      → scan_parents go stack ps visited ≡ clear after
      → IsSettled adj stack after × ((m : ℕ) → includes ps m ≡ true → Ends adj m)
  unfolding scan_parents
  scan-IsSettled go stack [] visited after promise inv e =
      (subst (IsSettled adj stack) (cc) inv, λ m h. cc)
  scan-IsSettled go stack (p ∷ ps) visited after promise inv e =
      let (mid, looked, rest) =
        continue_with-eq-clear (look_at go stack p visited) (scan_parents go stack ps) e in
      let (inv', end) = look_at-IsSettled go stack p visited mid promise inv looked in
      let (inv'', others) = scan-IsSettled go stack ps mid after promise inv' rest in
      (
        inv'',
        λ m h. elim (ℕ_discrete p m) [
          | yes same ↦ subst (Ends adj) same end
          | no other ↦ others m (rw (==_ne p m other) at h)
        ],
      )

  has_cycle-settled : (fuel : ℕ) (stack : List ℕ) → Promise (has_cycle adj fuel stack) stack
  unfolding has_cycle
  has_cycle-settled zero stack node visited after inv e = cc
  has_cycle-settled (suc fuel) stack node visited after inv e =
      let inv' : IsSettled adj (node ∷ stack) (node ∷ visited) = λ n h. elim (ℕ_discrete node n) [
        | yes same ↦ inl (ground arith)
        | no other ↦ ground (arith, inv n)
      ] in
      let (inv'', others) =
        scan-IsSettled (has_cycle adj fuel (node ∷ stack)) (node ∷ stack) (parents_of adj node)
          (node ∷ visited) after (has_cycle-settled fuel (node ∷ stack)) inv' e in
      (
        λ n h. elim (ℕ_discrete node n) [
          | yes same ↦ inr (subst (Ends adj) same (ends others))
          | no other ↦ ground (arith, inv'' n)
        ],
        ends others,
      )

  -- From nothing visited: a clear answer means that every walk from the node ends.
  pub has_cycle-Ends :
      (fuel node : ℕ) (after : List ℕ) → has_cycle adj fuel [] node [] ≡ clear after → Ends adj node
  has_cycle-Ends fuel node after e = (has_cycle-settled fuel [] node [] after (λ n h. cc) e).1

  start_at-IsSettled :
      (node : ℕ) (visited after : List ℕ)
      → IsSettled adj [] visited
      → start_at adj node visited ≡ clear after
      → IsSettled adj [] after × Ends adj node
  start_at-IsSettled node visited after inv e = elim (Bool-cases (includes visited node)) [
    | inr new ↦ has_cycle-settled (enough adj) [] node visited after inv (rw new at e)
    | inl seen ↦ elim (inv node seen) [
      | inl on_stack ↦ cc
      | inr end ↦ (subst (IsSettled adj []) (cc) inv, end)
    ]
  ]

  check_all-settled :
      (nodes visited after : List ℕ)
      → IsSettled adj [] visited
      → check_all adj nodes visited ≡ clear after
      → (n : ℕ) → includes nodes n ≡ true
      → Ends adj n
  unfolding check_all
  check_all-settled [] visited after inv e n h = cc
  check_all-settled (node ∷ nodes) visited after inv e n h =
      let (mid, first, rest) =
        continue_with-eq-clear (start_at adj node visited) (check_all adj nodes) e in
      let (inv', end) = start_at-IsSettled node visited mid inv first in
      elim (ℕ_discrete node n) [
        | yes same ↦ subst (Ends adj) same end
        | no other ↦ check_all-settled nodes mid after inv' rest n (rw (==_ne node n other) at h)
      ]

  -- A clear answer for all nodes means that every walk from each of them ends.
  pub check_all-Ends :
      (nodes after : List ℕ)
      → check_all adj nodes [] ≡ clear after
      → (n : ℕ) → includes nodes n ≡ true
      → Ends adj n
  check_all-Ends nodes after e = check_all-settled nodes [] after (λ n h. cc) e
