-- ===== src/Common/Sorting/Ascending.antt =====
-- The first item of a list that is sorted by a numeric key has the lowest key.
use Prim.Native.Nat.{ℕ, ◌≤◌}
use mathlib.Core.Path.{◌≡◌, subst}
use mathlib.Core.List.{List, [], ◌∷◌}
use mathlib.Core.Logic.{inl, inr}
use native.Mathlib.Omega.{arith}
use swarm_x.Common.Tests.{leb, Bool-cases}
use swarm_x.Common.Lists.{All, All-map}
use swarm_x.Common.Sorting.{insert_by, sort_by, All-of_sort_by}

module _ {A : Type 0} (key : A → ℕ) where
  abbrev pub NoLower : A → List A → Type 0
  NoLower c = All (λ d. key c ≤ key d)

  abbrev Headed : List A → Type 0
  Headed [] = Unit
  Headed (c ∷ cs) = NoLower c cs

  insert_by-All :
      (P : A → Type 0) (c : A) (ds : List A) → P c → All P ds → All P (insert_by key c ds)
  insert_by-All P c [] h all = (h, tt)
  insert_by-All P c (d ∷ ds) h all = elim (Bool-cases (leb (key c) (key d))) [
    | inl low ↦ rw low (h, all)
    | inr high ↦ rw high (all.0, insert_by-All P c ds h all.1)
  ]

  All-sort_by : (P : A → Type 0) (cs : List A) → All P cs → All P (sort_by key cs)
  unfolding sort_by
  All-sort_by P [] all = tt
  All-sort_by P (c ∷ cs) all = insert_by-All P c (sort_by key cs) all.0 (All-sort_by P cs all.1)

  insert_by-Headed : (c : A) (ds : List A) → Headed ds → Headed (insert_by key c ds)
  insert_by-Headed c [] h = tt
  insert_by-Headed c (d ∷ ds) h = elim (Bool-cases (leb (key c) (key d))) [
    | inl low ↦
        let le : key c ≤ key d = ground arith in rw low (le, All-map ds (λ e above. omega arith) h)
    | inr high ↦ rw high (insert_by-All _ c ds (ground arith) h)
  ]

  sort_by-Headed : (cs : List A) → Headed (sort_by key cs)
  unfolding sort_by
  sort_by-Headed [] = tt
  sort_by-Headed (c ∷ cs) = insert_by-Headed c (sort_by key cs) (sort_by-Headed cs)

  -- What holds of all items holds of the first of the sorted ones, and none has a lower key.
  pub sort_by-head :
      (P : A → Type 0) (cs : List A) (top : A) (others : List A)
      → sort_by key cs ≡ top ∷ others
      → All P cs
      → P top × NoLower top cs
  sort_by-head P cs top others e all = (
    (subst (All P) e (All-sort_by P cs all)).0,
    All-of_sort_by key (λ d. key top ≤ key d) cs
        (rw e (omega arith, subst Headed e (sort_by-Headed cs))),
  )
