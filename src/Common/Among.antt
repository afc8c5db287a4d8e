-- ===== src/Common/Among.antt =====
-- Membership of a list, as a sum over its places.
use mathlib.Core.Path.{◌≡◌, subst, sym}
use mathlib.Core.Logic.{◌⊎◌, inl, inr}
use mathlib.Core.Bool.{Bool, true}
use mathlib.Core.List.{List, [], ◌∷◌}
use swarm_x.Common.Tests.{Bool-cases}
use swarm_x.Common.Lists.{All, select}

module _ {A : Type 0} where
  abbrev pub Among : A → List A → Type 0
  Among a [] = ⊥
  Among a (x ∷ xs) = (x ≡ a) ⊎ Among a xs

  pub All-Among {κ} : (P : A → Type κ) (a : A) (xs : List A) → All P xs → Among a xs → P a
  All-Among P a [] all h = absurd h
  All-Among P a (x ∷ xs) all (inl e) = subst P e all.0
  All-Among P a (x ∷ xs) all (inr h) = All-Among P a xs all.1 h

  pub Among-select :
      (p : A → Bool) (a : A) (xs : List A) → Among a (select p xs) → Among a xs × (p a ≡ true)
  Among-select p a [] h = absurd h
  Among-select p a (x ∷ xs) h = elim (Bool-cases (p x)) [
    | inl picked ↦ pick picked (Among-select p a xs) (rw picked at h)
    | inr left ↦ let (there, holds) = Among-select p a xs (rw left at h) in (inr there, holds)
  ]
    where
      pick :
          p x ≡ true
          → (Among a (select p xs) → Among a xs × (p a ≡ true))
          → Among a (x ∷ select p xs)
          → Among a (x ∷ xs) × (p a ≡ true)
      pick picked rest (inl e) = (inl e, subst (λ y. p y ≡ true) e picked)
      pick picked rest (inr later) = let (there, holds) = rest later in (inr there, holds)

  pub select-Among :
      (p : A → Bool) (a : A) (xs : List A) → Among a xs → p a ≡ true → Among a (select p xs)
  select-Among p a [] h holds = absurd h
  select-Among p a (x ∷ xs) (inl e) holds = rw (subst (λ y. p y ≡ true) (sym e) holds) (inl e)
  select-Among p a (x ∷ xs) (inr h) holds = elim (Bool-cases (p x)) [
    | inl picked ↦ rw picked (inr (select-Among p a xs h holds))
    | inr left ↦ rw left (select-Among p a xs h holds)
  ]
