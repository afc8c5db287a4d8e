-- ===== src/Dag/Promote.antt =====
-- The loop at the end of `completeStage`: which stages it makes ready.
use swarm_x.Common.{
  ◌≡◌, refl, ap, true, ◌&&◌, Option, none, some, List, [], ◌∷◌, ◌==◌, if◌then◌else◌, includes,
  arith, Option-cases, inl, inr, Bool-cases,
}
use swarm_x.Common.Dict.{Dict, get, get-set}
use swarm_x.Task.{Ident}
use swarm_x.Dag.{DagStage, is_pending}
use swarm_x.Dag.Loops.{is_done, all_done, make_ready, promotes, promote_one, promote, keys}

abbrev pub if_there {ℓ} : {V : Type ℓ} → (V → V) → Option V → Option V
if_there f none = none
if_there f (some v) = some (f v)

abbrev pub promoted : Dict DagStage → DagStage → DagStage
promoted stages s = if promotes stages s then make_ready s else s

get-promote_one :
    (id j : Ident) (stages : Dict DagStage)
    → get j (promote_one id stages)
      ≡ (if id == j then if_there (promoted stages) (get j stages) else get j stages)
get-promote_one id j stages = elim (Option-cases (get id stages)) [
  | inl missing ↦ ground arith
  | inr (s, there) ↦ ground (arith, get-set id j (make_ready s) stages)
]

is_done-promote_one :
    (id j : Ident) (stages : Dict DagStage) → is_done (promote_one id stages) j ≡ is_done stages j
is_done-promote_one id j stages = elim (Option-cases (get j stages)) [
  | inl missing ↦ ground (arith, get-promote_one id j stages)
  | inr (s, there) ↦ ground (arith, get-promote_one id j stages)
]

pub all_done-same :
    (stages stages' : Dict DagStage) (deps : List Ident)
    → ((d : Ident) → is_done stages' d ≡ is_done stages d)
    → all_done stages' deps ≡ all_done stages deps
all_done-same stages stages' [] same = refl
all_done-same stages stages' (d ∷ deps) same =
    ground (arith, same d, all_done-same stages stages' deps same)

pub all_done-grows :
    (stages stages' : Dict DagStage) (deps : List Ident)
    → ((d : Ident) → is_done stages d ≡ true → is_done stages' d ≡ true)
    → all_done stages deps ≡ true
    → all_done stages' deps ≡ true
all_done-grows stages stages' [] more e = refl
all_done-grows stages stages' (d ∷ deps) more e =
    ground (arith, more d, all_done-grows stages stages' deps more)

promoted-promote_one :
    (id : Ident) (stages : Dict DagStage) (s : DagStage)
    → promoted (promote_one id stages) s ≡ promoted stages s
promoted-promote_one id stages s =
    let same =
      all_done-same stages (promote_one id stages) s.dependencies
        (λ d. is_done-promote_one id d stages) in
    ap (λ done. if is_pending s.status && done then make_ready s else s) same

promoted-promoted :
    (stages : Dict DagStage) (s : DagStage)
    → promoted stages (promoted stages s) ≡ promoted stages s
promoted-promoted stages s = elim (Bool-cases (promotes stages s)) [
  | inl hit ↦ ground arith
  | inr miss ↦ ground arith
]

get-promote :
    (ids : List Ident) (j : Ident) (stages : Dict DagStage)
    → get j (promote ids stages)
      ≡ (if includes ids j then if_there (promoted stages) (get j stages) else get j stages)
unfolding promote
get-promote [] j stages = refl
get-promote (id ∷ ids) j stages = elim (Option-cases (get j stages)) [
  | inl missing ↦
      ground (arith, get-promote ids j (promote_one id stages), get-promote_one id j stages)
  | inr (s, there) ↦ ground (
    arith,
    get-promote ids j (promote_one id stages),
    get-promote_one id j stages,
    promoted-promote_one id stages s,
    promoted-promote_one id stages (promoted stages s),
    promoted-promoted stages s,
  )
]

includes-keys :
    (j : Ident) (stages : Dict DagStage) (s : DagStage)
    → get j stages ≡ some s
    → includes (keys stages) j ≡ true
includes-keys j [] s e = cc
includes-keys j ((id, v) ∷ d) s e = ground (arith, includes-keys j d s)

-- After the loop each stage that waited, and whose dependencies are all completed, is ready; the
-- others are as they were.
pub get-promote-keys :
    (j : Ident) (stages : Dict DagStage)
    → get j (promote (keys stages) stages) ≡ if_there (promoted stages) (get j stages)
get-promote-keys j stages = elim (Option-cases (get j stages)) [
  | inl missing ↦ ground (arith, get-promote (keys stages) j stages)
  | inr (s, there) ↦ ground (arith, get-promote (keys stages) j stages, includes-keys j stages s)
]

pub is_done-promote :
    (j : Ident) (stages : Dict DagStage)
    → is_done (promote (keys stages) stages) j ≡ is_done stages j
is_done-promote j stages = elim (Option-cases (get j stages)) [
  | inl missing ↦ ground (arith, get-promote-keys j stages)
  | inr (s, there) ↦ ground (arith, get-promote-keys j stages)
]
