-- ===== src/Graph/Search.antt =====
-- The search itself: `hasCycle` in core/src/db/task_store.ts and `checkCycle` in
-- core/src/dag_engine.ts. The recursion stack is an argument, newest node first: a call puts its
-- node there and the caller's stack is what is left after `delete` and `pop`.
use swarm_x.Common.{ℕ, zero, suc, none, some, List, [], ◌∷◌, ◌++◌, if◌then◌else◌, includes, length}
use swarm_x.Common.Dict.{Dict, get, set}

-- What a search returns: `true` with the path that closes, `false` with the nodes visited so far.
-- `out_of_fuel` stands for a recursion that is deeper than the fuel.
pub data Verdict : Type 0 where
  cycle clear : List ℕ → Verdict
  out_of_fuel : Verdict

-- `adj.get(node) || []`.
abbrev pub parents_of : Dict (List ℕ) → ℕ → List ℕ
parents_of adj node = elim (get node adj) [ none ↦ [] | some ps ↦ ps ]

-- `adj.set(node, parents)` for each entry of a list.
abbrev pub set_all : List (ℕ × List ℕ) → Dict (List ℕ) → Dict (List ℕ)
set_all [] adj = adj
set_all ((node, ps) ∷ entries) adj = set_all entries (set node ps adj)

-- One round of `for (const parent of parents)`.
abbrev pub look_at : (ℕ → List ℕ → Verdict) → List ℕ → ℕ → List ℕ → Verdict
look_at go stack parent visited =
    if includes visited parent
    then if includes stack parent then cycle (parent ∷ stack) else clear visited
    else go parent visited

-- `if (checkCycle(…)) return true;` and what follows it.
abbrev pub continue_with : Verdict → (List ℕ → Verdict) → Verdict
continue_with (cycle path) k = cycle path
continue_with (clear visited) k = k visited
continue_with out_of_fuel k = out_of_fuel

unfoldable pub scan_parents : (ℕ → List ℕ → Verdict) → List ℕ → List ℕ → List ℕ → Verdict
scan_parents go stack [] visited = clear visited
scan_parents go stack (parent ∷ rest) visited =
    continue_with (look_at go stack parent visited) (scan_parents go stack rest)

unfoldable pub has_cycle : Dict (List ℕ) → ℕ → List ℕ → ℕ → List ℕ → Verdict
has_cycle adj zero stack node visited = out_of_fuel
has_cycle adj (suc fuel) stack node visited =
    scan_parents (has_cycle adj fuel (node ∷ stack)) (node ∷ stack) (parents_of adj node)
      (node ∷ visited)

-- Every node that the map names, with repetitions.
abbrev pub nodes_of : Dict (List ℕ) → List ℕ
nodes_of [] = []
nodes_of ((node, ps) ∷ adj) = (node ∷ ps) ++ nodes_of adj

-- The recursion is never deeper than the nodes that there are (`Fuel`).
abbrev pub enough : Dict (List ℕ) → ℕ
enough adj = suc (length (nodes_of adj))

-- `for (const stage of stages) if (!visited.has(…)) if (checkCycle(…)) throw`.
abbrev pub start_at : Dict (List ℕ) → ℕ → List ℕ → Verdict
start_at adj node visited =
    if includes visited node then clear visited else has_cycle adj (enough adj) [] node visited

unfoldable pub check_all : Dict (List ℕ) → List ℕ → List ℕ → Verdict
check_all adj [] visited = clear visited
check_all adj (node ∷ rest) visited = continue_with (start_at adj node visited) (check_all adj rest)
