-- ===== src/Dag/Invariant.antt =====
-- What holds of every stage between two calls of the DAG engine, and when a change keeps it.
use swarm_x.Common.{
  ◌≤◌, ◌<◌, ◌≡◌, refl, subst, ◌∙◌, Bool, true, false, some, [], ◌∷◌, ◌==◌, arith, Option-cases, inl,
  inr, Bool-cases,
}
use swarm_x.Common.Dict.{Dict, get, set, get-set}
use swarm_x.Task.{Ident}
use swarm_x.Dag.{DagStageStatus, DagStage, DagState, is_completed, is_pending, is_ready}
use swarm_x.Dag.Stages.{Dags, max_stage_attempts}
use swarm_x.Dag.Loops.{is_done, all_done, promote, keys}
use swarm_x.Dag.Steps.{map_values, cancel_stage}
use swarm_x.Dag.Promote.{
  if_there, promoted, all_done-same, all_done-grows, get-promote-keys, is_done-promote,
}

-- READY, RUNNING, COMPLETED or FAILED.
abbrev pub has_started : DagStageStatus → Bool
has_started DagStageStatus.pending = false
has_started DagStageStatus.cancelled = false
has_started _ = true

pub record StageOk (stages : Dict DagStage) (s : DagStage) : Type 0 where
  pub safe : has_started s.status ≡ true → all_done stages s.dependencies ≡ true
  pub attempted : 0 < s.attempt_number → all_done stages s.dependencies ≡ true
  pub waits : is_pending s.status ≡ true → all_done stages s.dependencies ≡ false
  pub untried : is_pending s.status ≡ true → s.attempt_number ≡ 0
  pub attempts_left : is_ready s.status ≡ true → s.attempt_number < max_stage_attempts
  pub bounded : s.attempt_number ≤ max_stage_attempts

abbrev pub StagesOk : Dict DagStage → Type 0
StagesOk stages = (j : Ident) (s : DagStage) → get j stages ≡ some s → StageOk stages s

-- Every stage of every DAG of the engine.
abbrev pub DagsOk : Dags → Type 0
DagsOk dags = (id : Ident) (st : DagState) → get id dags ≡ some st → StagesOk st.stages

pub DagsOk-set :
    (dags : Dags) (id : Ident) (st : DagState)
    → DagsOk dags
    → StagesOk st.stages
    → DagsOk (set id st dags)
DagsOk-set dags id st all new i st' e = elim (Bool-cases (id == i)) [
  | inl same ↦
      let is : st ≡ st' = ground (arith, get-set id i st dags) in
      subst (λ v. StagesOk v.stages) is new
  | inr other ↦ all i st' (ground (arith, get-set id i st dags))
]

StageOk-same :
    (stages stages' : Dict DagStage) (s : DagStage)
    → ((d : Ident) → is_done stages' d ≡ is_done stages d)
    → StageOk stages s
    → StageOk stages' s
StageOk-same stages stages' s same good =
    let e = all_done-same stages stages' s.dependencies same in
    record {
      safe = λ h. e ∙ good.safe h;
      attempted = λ h. e ∙ good.attempted h;
      waits = λ h. e ∙ good.waits h;
      untried = good.untried;
      attempts_left = good.attempts_left;
      bounded = good.bounded;
    }

-- A change of one stage that is good, and completed exactly if it was.
pub StagesOk-set :
    (stages : Dict DagStage) (i : Ident) (s s' : DagStage)
    → get i stages ≡ some s
    → is_completed s'.status ≡ is_completed s.status
    → StageOk stages s'
    → StagesOk stages
    → StagesOk (set i s' stages)
StagesOk-set stages i s s' there same new all j t e =
    let kept = λ (d : Ident). is_done-set d in
    elim (Bool-cases (i == j)) [
      | inl here ↦
          let is : s' ≡ t = ground (arith, get-set i j s' stages) in
          StageOk-same stages (set i s' stages) t kept (subst (StageOk stages) is new)
      | inr other ↦
          StageOk-same stages (set i s' stages) t kept
            (all j t (ground (arith, get-set i j s' stages)))
    ]
  where
    is_done-set : (d : Ident) → is_done (set i s' stages) d ≡ is_done stages d
    is_done-set d = ground (arith, get-set i d s' stages)

-- A stage after the loop that makes stages ready, where more stages may be completed.
StageOk-promoted :
    (stages stages1 stages2 : Dict DagStage) (s : DagStage)
    → (all_done stages s.dependencies ≡ true → all_done stages1 s.dependencies ≡ true)
    → all_done stages2 s.dependencies ≡ all_done stages1 s.dependencies
    → StageOk stages s
    → StageOk stages2 (promoted stages1 s)
StageOk-promoted stages stages1 stages2 s grows same good =
    elim (Bool-cases (all_done stages1 s.dependencies)) [
      | inl done ↦ ground (arith, good.safe, good.attempted, good.waits, good.untried)
      | inr open_one ↦ ground (arith, good.safe, good.attempted, good.waits, good.untried)
    ]

pub get-map_values :
    (f : DagStage → DagStage) (j : Ident) (stages : Dict DagStage)
    → get j (map_values f stages) ≡ if_there f (get j stages)
get-map_values f j [] = refl
get-map_values f j ((i, s) ∷ d) = ground (arith, get-map_values f j d)

-- A stage is completed, and the loop makes ready what waited for it.
pub StagesOk-promote :
    (stages : Dict DagStage) (i : Ident) (s done : DagStage)
    → get i stages ≡ some s
    → is_completed done.status ≡ true
    → StageOk stages done
    → StagesOk stages
    → StagesOk (promote (keys (set i done stages)) (set i done stages))
StagesOk-promote stages i s done there now new all j t e = elim (Option-cases (get j mid)) [
  | inl missing ↦ ground (arith, get-promote-keys j mid)
  | inr (u, is) ↦
      let whole : promoted mid u ≡ t = ground (arith, get-promote-keys j mid) in
      subst (StageOk (promote (keys mid) mid)) whole (
        StageOk-promoted stages mid (promote (keys mid) mid) u
          (all_done-grows stages mid u.dependencies grows)
          (all_done-same mid (promote (keys mid) mid) u.dependencies (λ d. is_done-promote d mid))
          (before u is))
]
  where
    mid : Dict DagStage
    mid = set i done stages

    grows : (d : Ident) → is_done stages d ≡ true → is_done mid d ≡ true
    grows d h = ground (arith, get-set i d done stages)

    before : (u : DagStage) → get j mid ≡ some u → StageOk stages u
    before u is = elim (Bool-cases (i == j)) [
      | inl here ↦
          let same : done ≡ u = ground (arith, get-set i j done stages) in
          subst (StageOk stages) same new
      | inr other ↦ all j u (ground (arith, get-set i j done stages))
    ]

pub StagesOk-cancel :
    (stages : Dict DagStage) → StagesOk stages → StagesOk (map_values cancel_stage stages)
StagesOk-cancel stages all j t e = elim (Option-cases (get j stages)) [
  | inl missing ↦ ground (arith, get-map_values cancel_stage j stages)
  | inr (s, there) ↦
      let is : cancel_stage s ≡ t = ground (arith, get-map_values cancel_stage j stages) in
      subst (StageOk (map_values cancel_stage stages)) is (
        StageOk-same stages (map_values cancel_stage stages) (cancel_stage s) is_done-cancel
          (stopped s (all j s there)))
]
  where
    is_done-cancel : (d : Ident) → is_done (map_values cancel_stage stages) d ≡ is_done stages d
    is_done-cancel d = elim (Option-cases (get d stages)) [
      | inl missing ↦ ground (arith, get-map_values cancel_stage d stages)
      | inr (s, there) ↦ ground (arith, get-map_values cancel_stage d stages)
    ]

    stopped : (s : DagStage) → StageOk stages s → StageOk stages (cancel_stage s)
    stopped s good = ground (arith, good.safe, good.attempted)
