-- ===== src/Common/Sorting/Unique.antt =====
-- Where no two keys are equal, the sorted list does not depend on the order of arrival.
use Prim.Native.Nat.{ℕ, suc, ◌≤◌}
use mathlib.Core.Path.{◌≡◌, refl, sym, ap, ◌∙◌, subst}
use mathlib.Core.Logic.Or
use mathlib.Core.Logic.{◌≢◌, ∥∥₁_elim}
use mathlib.Core.List.{
  List, [], ◌∷◌, Perm, Permᴰ, Nodup, Nodup-cons, Nodup-nil, Mem, mem-cons, mem-cons_self,
  not-mem-nil, map,
}
use mathlib.Core.List.Perm
use native.Mathlib.Omega.{arith}
use native.Mathlib.Bridge.{le_prop}
use swarm_x.Common.Sorting.{insert_by, sort_by, Counts}

module _ {ℓ} {A : Type ℓ} (key : A → ℕ) where
  insert_by_comm :
      (a b : A) (xs : List A)
      → key a ≢ key b
      → insert_by key a (insert_by key b xs) ≡ insert_by key b (insert_by key a xs)
  insert_by_comm a b [] h = ground arith
  insert_by_comm a b (x ∷ xs) h = ground (arith, insert_by_comm a b xs)

  sort_by-Permᴰ :
      {xs ys : List A} → Permᴰ xs ys → Nodup (map key xs) → sort_by key xs ≡ sort_by key ys
  unfolding sort_by
  sort_by-Permᴰ Permᴰ.nil h = refl
  sort_by-Permᴰ (Permᴰ.cons {b} {l₁} same p) h =
      ap (λ c. insert_by key c (sort_by key l₁)) same
      ∙ ap (insert_by key b) (sort_by-Permᴰ p (Nodup-cons.0 h).1)
  sort_by-Permᴰ (Permᴰ.swap {a} {b} {b'} {l} same other) h =
      insert_by_comm a b (sort_by key l)
        (λ e. (Nodup-cons.0 h).0 (subst (λ k. Mem k (key b ∷ map key l)) (sym e) mem-cons_self))
      ∙ ap (λ c. insert_by key b (insert_by key c (sort_by key l))) same
      ∙ ap (λ c. insert_by key c (insert_by key b' (sort_by key l))) other
  sort_by-Permᴰ (Permᴰ.trans p q) h =
      sort_by-Permᴰ p h ∙ sort_by-Permᴰ q (Perm.nodup (Perm.map key ∣ p ∣₁) h)

  pub sort_by-of_perm :
      {xs ys : List A} → IsSet A → Perm xs ys → Nodup (map key xs) → sort_by key xs ≡ sort_by key ys
  sort_by-of_perm set p h = ∥∥₁_elim p (hlevel set) (λ d. sort_by-Permᴰ d h)

  Counts-le : (i k : ℕ) (xs : List A) → Counts key i xs → Mem k (map key xs) → i ≤ k
  Counts-le i k [] h m = absurd (not-mem-nil m)
  Counts-le i k (x ∷ xs) h m =
      Or.elim le_prop (mem-cons.0 m) (λ e. omega arith)
        (λ later. omega (arith, Counts-le (suc i) k xs h.1 later))

  pub Counts-Nodup : (i : ℕ) (xs : List A) → Counts key i xs → Nodup (map key xs)
  Counts-Nodup i [] h = Nodup-nil
  Counts-Nodup i (x ∷ xs) h =
      Nodup-cons.1 (
        λ m. absurd (omega (arith, Counts-le (suc i) (key x) xs h.1 m)),
        Counts-Nodup (suc i) xs h.1,
      )

  pub sort_by-Counts : (i : ℕ) (xs : List A) → Counts key i xs → sort_by key xs ≡ xs
  unfolding sort_by
  sort_by-Counts i [] h = refl
  sort_by-Counts i (x ∷ xs) h = ap (insert_by key x) (sort_by-Counts (suc i) xs h.1) ∙ first xs h.1
    where
      first : (ys : List A) → Counts key (suc i) ys → insert_by key x ys ≡ x ∷ ys
      first [] _ = refl
      first (y ∷ ys) c = ground arith
