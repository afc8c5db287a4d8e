-- ===== src/Common/Sorting/Descending.antt =====
-- `Array.prototype.sort` by a numeric key from the highest down: stable insertion. The first item of the
-- sorted list has the highest key.
use Prim.Native.Nat.{ℕ, ◌≤◌}
use mathlib.Core.Path.{◌≡◌, refl, subst}
use mathlib.Core.List.{List, [], ◌∷◌}
use mathlib.Core.Logic.{◌⊎◌, inl, inr}
use native.Mathlib.Omega.{arith}
use swarm_x.Common.Tests.{leb, if◌then◌else◌, Bool-cases}
use swarm_x.Common.Lists.{All, All-map}
use swarm_x.Common.Among.{Among}

module _ {A : Type 0} (key : A → ℕ) where
  abbrev pub insert_down : A → List A → List A
  insert_down c [] = c ∷ []
  insert_down c (d ∷ ds) = if leb (key d) (key c) then c ∷ d ∷ ds else d ∷ insert_down c ds

  unfoldable pub sort_down : List A → List A
  sort_down [] = []
  sort_down (c ∷ cs) = insert_down c (sort_down cs)

  abbrev pub NoBetter : A → List A → Type 0
  NoBetter c = All (λ d. key d ≤ key c)

  abbrev Headed : List A → Type 0
  Headed [] = Unit
  Headed (c ∷ cs) = NoBetter c cs

  insert_down-All :
      (P : A → Type 0) (c : A) (ds : List A) → P c → All P ds → All P (insert_down c ds)
  insert_down-All P c [] h all = (h, tt)
  insert_down-All P c (d ∷ ds) h all = elim (Bool-cases (leb (key d) (key c))) [
    | inl low ↦ rw low (h, all)
    | inr high ↦ rw high (all.0, insert_down-All P c ds h all.1)
  ]

  All-of_insert_down :
      (P : A → Type 0) (c : A) (ds : List A) → All P (insert_down c ds) → P c × All P ds
  All-of_insert_down P c [] all = all
  All-of_insert_down P c (d ∷ ds) all = elim (Bool-cases (leb (key d) (key c))) [
    | inl low ↦ rw low at all
    | inr high ↦
        let all' : P d × All P (insert_down c ds) = rw high at all in
        let (h, rest) = All-of_insert_down P c ds all'.1 in (h, (all'.0, rest))
  ]

  All-of_sort_down : (P : A → Type 0) (cs : List A) → All P (sort_down cs) → All P cs
  unfolding sort_down
  All-of_sort_down P [] all = tt
  All-of_sort_down P (c ∷ cs) all =
      let (h, rest) = All-of_insert_down P c (sort_down cs) all in (h, All-of_sort_down P cs rest)

  insert_down-Headed : (c : A) (ds : List A) → Headed ds → Headed (insert_down c ds)
  insert_down-Headed c [] h = tt
  insert_down-Headed c (d ∷ ds) h = elim (Bool-cases (leb (key d) (key c))) [
    | inl low ↦
        let le : key d ≤ key c = ground arith in rw low (le, All-map ds (λ e below. omega arith) h)
    | inr high ↦ rw high (insert_down-All _ c ds (ground arith) h)
  ]

  sort_down-Headed : (cs : List A) → Headed (sort_down cs)
  unfolding sort_down
  sort_down-Headed [] = tt
  sort_down-Headed (c ∷ cs) = insert_down-Headed c (sort_down cs) (sort_down-Headed cs)

  Among-insert_down : (x c : A) (ds : List A) → Among x (insert_down c ds) → (c ≡ x) ⊎ Among x ds
  Among-insert_down x c [] h = h
  Among-insert_down x c (d ∷ ds) h = elim (Bool-cases (leb (key d) (key c))) [
    | inl low ↦ rw low at h
    | inr high ↦ later (Among-insert_down x c ds) (rw high at h)
  ]
    where
      swap : (c ≡ x) ⊎ Among x ds → (c ≡ x) ⊎ Among x (d ∷ ds)
      swap (inl e) = inl e
      swap (inr h) = inr (inr h)

      later :
          (Among x (insert_down c ds) → (c ≡ x) ⊎ Among x ds)
          → Among x (d ∷ insert_down c ds)
          → (c ≡ x) ⊎ Among x (d ∷ ds)
      later rest (inl e) = inr (inl e)
      later rest (inr h) = swap (rest h)

  Among-sort_down : (x : A) (cs : List A) → Among x (sort_down cs) → Among x cs
  unfolding sort_down
  Among-sort_down x [] h = h
  Among-sort_down x (c ∷ cs) h = elim (Among-insert_down x c (sort_down cs) h) [
    | inl e ↦ inl e
    | inr later ↦ inr (Among-sort_down x cs later)
  ]

  pub sort_down-head :
      (cs : List A) (top : A) (others : List A)
      → sort_down cs ≡ top ∷ others
      → Among top cs × NoBetter top cs
  sort_down-head cs top others e = (
    Among-sort_down top cs (rw e (inl refl)),
    All-of_sort_down _ cs (rw e (omega arith, subst Headed e (sort_down-Headed cs))),
  )

  insert_down-ne-nil : (c : A) (ds : List A) → insert_down c ds ≡ [] → ⊥
  insert_down-ne-nil c [] e = cc
  insert_down-ne-nil c (d ∷ ds) e = ground arith

  pub sort_down-nil : (cs : List A) → sort_down cs ≡ [] → cs ≡ []
  unfolding sort_down
  sort_down-nil [] e = refl
  sort_down-nil (c ∷ cs) e = absurd (insert_down-ne-nil c (sort_down cs) e)
