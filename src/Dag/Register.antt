-- ===== src/Dag/Register.antt =====
-- `registerDag`: what a registered DAG has passed, and how its stages begin.
use swarm_x.Common.{
  ℕ, ◌≡◌, refl, subst, false, some, List, [], ◌∷◌, ◌==◌, arith, Option-cases, Bool-cases, inl, inr,
}
use swarm_x.Common.Dict.{Dict, get, set, get-set}
use swarm_x.Task.{Ident, Text}
use swarm_x.Chunk.Buffer.{Buffer}
use swarm_x.Dag.{DagStage, WorkloadDagDescriptor, is_completed}
use swarm_x.Dag.Stages.{initial_stage, initial_stages, registered}
use swarm_x.Dag.Loops.{is_done}
use swarm_x.Dag.Invariant.{StageOk, StagesOk}

-- A map in which no stage is completed and each is as it begins.
record Begins (s : DagStage) : Type 0 where
  idle : is_completed s.status ≡ false
  good : (stages : Dict DagStage) → ((d : Ident) → is_done stages d ≡ false) → StageOk stages s

initial_stage-Begins : (s : DagStage) → Begins (initial_stage s)
initial_stage-Begins s = record { idle = ground arith; good = begins s.dependencies refl }
  where
    begins :
        (deps : List Ident)
        → s.dependencies ≡ deps
        → (stages : Dict DagStage) → ((d : Ident) → is_done stages d ≡ false)
        → StageOk stages (initial_stage s)
    begins [] e stages none_done = ground arith
    begins (d ∷ deps) e stages none_done = ground (arith, none_done d)

initial_stages-Begins :
    (rest : List DagStage) (stages : Dict DagStage)
    → ((j : Ident) (s : DagStage) → get j stages ≡ some s → Begins s)
    → (j : Ident) (s : DagStage) → get j (initial_stages rest stages) ≡ some s
    → Begins s
unfolding initial_stages
initial_stages-Begins [] stages all = all
initial_stages-Begins (stage ∷ rest) stages all =
    initial_stages-Begins rest (set stage.stage_id (initial_stage stage) stages) λ j s e.
      elim (Bool-cases (stage.stage_id == j)) [
        | inl here ↦
            let is : initial_stage stage ≡ s =
              ground (arith, get-set stage.stage_id j (initial_stage stage) stages) in
            subst Begins is (initial_stage-Begins stage)
        | inr other ↦
            all j s (ground (arith, get-set stage.stage_id j (initial_stage stage) stages))
      ]

pub registered-StagesOk :
    (sha256 : Buffer → Text) (dag : WorkloadDagDescriptor) (now : ℕ)
    → StagesOk (registered sha256 dag now).stages
unfolding registered
registered-StagesOk sha256 dag now j s e = (begins j s e).good stages none_done
  where
    stages : Dict DagStage
    stages = initial_stages dag.stages []

    begins : (j : Ident) (s : DagStage) → get j stages ≡ some s → Begins s
    begins = initial_stages-Begins dag.stages [] (λ j s e. cc)

    none_done : (d : Ident) → is_done stages d ≡ false
    none_done d = elim (Option-cases (get d stages)) [
      | inl missing ↦ ground arith
      | inr (s, there) ↦ ground (arith, (begins d s there).idle)
    ]
