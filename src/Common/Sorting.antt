-- ===== src/Common/Sorting.antt =====
-- `Array.prototype.sort` by a numeric key: stable insertion, with the library's permutations.
pub mod Unique
pub mod Descending
pub mod Ascending
use Prim.Native.Nat.{ℕ, suc}
use mathlib.Core.Path.{◌≡◌, refl, ap, ◌∙◌}
use mathlib.Core.List.{List, [], ◌∷◌, Perm}
use mathlib.Core.List.Perm
use native.Mathlib.Omega.{arith}
use swarm_x.Common.Tests.{leb, if◌then◌else◌, Bool-cases}
use swarm_x.Common.Lists.{length, All}
use mathlib.Core.Logic.{inl, inr}

module _ {ℓ} {A : Type ℓ} (key : A → ℕ) where
  abbrev pub insert_by : A → List A → List A
  insert_by a [] = a ∷ []
  insert_by a (x ∷ xs) = if leb (key a) (key x) then a ∷ x ∷ xs else x ∷ insert_by a xs

  unfoldable pub sort_by : List A → List A
  sort_by [] = []
  sort_by (x ∷ xs) = insert_by x (sort_by xs)

  pub length-insert_by : (a : A) (xs : List A) → length (insert_by a xs) ≡ suc (length xs)
  length-insert_by a [] = refl
  length-insert_by a (x ∷ xs) = ground (arith, length-insert_by a xs)

  pub length-sort_by : (xs : List A) → length (sort_by xs) ≡ length xs
  unfolding sort_by
  length-sort_by [] = refl
  length-sort_by (x ∷ xs) = length-insert_by x (sort_by xs) ∙ ap suc (length-sort_by xs)

  pub insert_by-perm : (a : A) (xs : List A) → Perm (insert_by a xs) (a ∷ xs)
  insert_by-perm a [] = Perm.refl (a ∷ [])
  insert_by-perm a (x ∷ xs) = elim (Bool-cases (leb (key a) (key x))) [
    | inl h ↦ rw h (Perm.refl (a ∷ x ∷ xs))
    | inr h ↦ rw h (Perm.trans (Perm.cons x (insert_by-perm a xs)) (Perm.swap a x xs))
  ]

  pub sort_by-perm : (xs : List A) → Perm (sort_by xs) xs
  unfolding sort_by
  sort_by-perm [] = Perm.refl []
  sort_by-perm (x ∷ xs) = Perm.trans (insert_by-perm x (sort_by xs)) (Perm.cons x (sort_by-perm xs))

  -- The keys count up by one from a number.
  abbrev pub Counts : ℕ → List A → Type 0
  Counts i [] = Unit
  Counts i (x ∷ xs) = (key x ≡ i) × Counts (suc i) xs

  All-of_insert_by {κ} :
      (P : A → Type κ) (a : A) (xs : List A) → All P (insert_by a xs) → P a × All P xs
  All-of_insert_by P a [] h = h
  All-of_insert_by P a (x ∷ xs) h = elim (Bool-cases (leb (key a) (key x))) [
    | inl low ↦ rw low at h
    | inr high ↦
        let h' : P x × All P (insert_by a xs) = rw high at h in
        let (pa, rest) = All-of_insert_by P a xs h'.1 in (pa, (h'.0, rest))
  ]

  -- What holds of all items of the sorted list holds of all items.
  pub All-of_sort_by {κ} : (P : A → Type κ) (xs : List A) → All P (sort_by xs) → All P xs
  unfolding sort_by
  All-of_sort_by P [] h = tt
  All-of_sort_by P (x ∷ xs) h =
      let (px, rest) = All-of_insert_by P x (sort_by xs) h in (px, All-of_sort_by P xs rest)
