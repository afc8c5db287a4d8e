-- ===== src/Workers/Checklist.antt =====
-- Sequences of calls of the worker manager, and what holds of every worker after them.
use swarm_x.Common.{
  ℕ, Bool, false, Option, none, some, List, [], ◌∷◌, ◌≡◌, refl, sym, subst, leb, arith, ◌==◌,
  ==_iff, Bool-cases, Option-cases, inl, inr, Result, ok, err,
}
use swarm_x.Common.Dict.{get, set, get-set, get-delete}
use swarm_x.Task.{Ident}
use swarm_x.Workers.{
  CapabilityProfile, WorkerTelemetry, WorkerPipelineChecklist, StageDetails, WorkerLiveState,
  WorkerState, Workers, WorkerExecutionStage, capability_schema_version, fetching, decrypting,
  decoding, executing, transmitting, completed,
}
use swarm_x.Workers.Manager.{
  register_worker, evaluate_eligibility, update_telemetry, unregister_worker,
  get_or_create_live_state, list_live_states, live_or,
}
use swarm_x.Workers.Stage.{update_worker_stage, changed, synchronize}

pub data Call : Type 0 where
  registers : CapabilityProfile → ℕ → Call
  reports : WorkerTelemetry → ℕ → Call
  changes : Ident → WorkerExecutionStage → Option StageDetails → ℕ → Call
  unregisters : Ident → Call
  lists : ℕ → Call

-- A call that throws leaves the map as it is.
abbrev pub kept {ℓ} : {Err : Type 0} {A : Type ℓ} → Workers → Result Err (Workers × A) → Workers
kept workers (err why) = workers
kept workers (ok (workers', _)) = workers'

unfoldable pub step : Bool → Workers → Call → Workers
step ignore_battery workers (registers profile now) =
    kept workers (register_worker workers profile now)
step ignore_battery workers (reports telemetry now) =
    kept workers (update_telemetry ignore_battery workers telemetry now)
step ignore_battery workers (changes id stage details now) =
    (update_worker_stage workers id stage details now).0
step ignore_battery workers (unregisters id) = (unregister_worker workers id).0
step ignore_battery workers (lists now) = (list_live_states workers now).0

unfoldable pub run : Bool → Workers → List Call → Workers
run ignore_battery workers [] = workers
run ignore_battery workers (call ∷ calls) =
    run ignore_battery (step ignore_battery workers call) calls

-- How many of the five steps of a chunk are ticked off in a stage that says so.
abbrev pub steps_of : WorkerExecutionStage → Option ℕ
steps_of completed = some 0
steps_of fetching = some 1
steps_of decrypting = some 2
steps_of decoding = some 3
steps_of executing = some 4
steps_of transmitting = some 5
steps_of _ = none

abbrev pub first_steps : ℕ → WorkerPipelineChecklist
first_steps n = record {
  fetching = leb 1 n;
  decrypting = leb 2 n;
  decoding = leb 3 n;
  executing = leb 4 n;
  transmitting = leb 5 n;
}

abbrev pub Ticked : WorkerExecutionStage → WorkerPipelineChecklist → Type 0
Ticked stage list = elim (steps_of stage) [ none ↦ Unit {0} | some n ↦ list ≡ first_steps n ]

-- The gate at the last telemetry, closed where there is none.
abbrev pub passes : Bool → Option WorkerTelemetry → Bool
passes ignore_battery none = false
passes ignore_battery (some telemetry) = evaluate_eligibility ignore_battery telemetry

abbrev pub LiveOk : Bool → Option WorkerLiveState → Type 0
LiveOk eligible none = ⊥
LiveOk eligible (some live) = (live.is_eligible ≡ eligible) × Ticked live.stage live.pipeline_stages

pub record WorkerOk (ignore_battery : Bool) (id : Ident) (worker : WorkerState) : Type 0 where
  pub same_id : worker.device_id ≡ id
  pub gate : worker.is_eligible ≡ passes ignore_battery worker.latest_telemetry
  pub live : LiveOk worker.is_eligible worker.live_state

abbrev pub WorkersOk : Bool → Workers → Type 0
WorkersOk ignore_battery workers =
    (id : Ident) (worker : WorkerState)
    → get id workers ≡ some worker
    → WorkerOk ignore_battery id worker

set-WorkersOk :
    (b : Bool) (workers : Workers) (id : Ident) (worker : WorkerState)
    → WorkersOk b workers
    → WorkerOk b id worker
    → WorkersOk b (set id worker workers)
set-WorkersOk b workers id worker all one j w e = elim (Bool-cases (id == j)) [
  | inl here ↦
      let same : worker ≡ w = ground (arith, get-set id j worker workers) in
      subst (λ i. WorkerOk b i w) ((==_iff id j).0 here) (subst (WorkerOk b id) same one)
  | inr elsewhere ↦ all j w (ground (arith, get-set id j worker workers))
]

live_or-LiveOk :
    (b : Bool) (o : Option WorkerLiveState) (new : WorkerLiveState)
    → LiveOk b o
    → LiveOk b (some (live_or o new))
live_or-LiveOk b none new h = absurd h
live_or-LiveOk b (some live) new h = h

get_or_create_live_state-LiveOk :
    (worker : WorkerState) (now : ℕ)
    → LiveOk worker.is_eligible worker.live_state
    → LiveOk worker.is_eligible (some (get_or_create_live_state worker now))
unfolding get_or_create_live_state
get_or_create_live_state-LiveOk worker now h =
    live_or-LiveOk worker.is_eligible worker.live_state _ h

changed-LiveOk :
    (b : Bool) (stage : WorkerExecutionStage) (details : Option StageDetails) (now : ℕ)
    (live : WorkerLiveState)
    → live.is_eligible ≡ b
    → LiveOk b (some (changed stage details now live))
unfolding changed synchronize
changed-LiveOk b stage none now live e = ground arith
changed-LiveOk b stage (some d) now live e = ground arith

list_live_states-WorkersOk :
    (b : Bool) (workers : Workers) (now : ℕ) (id : Ident) (worker : WorkerState)
    → get id (list_live_states workers now).0 ≡ some worker
    → (w : WorkerState) × (get id workers ≡ some w)
      × (worker ≡ record w { live_state = some (get_or_create_live_state w now) })
unfolding list_live_states
list_live_states-WorkersOk b [] now id worker e = cc
list_live_states-WorkersOk b ((j, w) ∷ workers) now id worker e = elim (Bool-cases (j == id)) [
  | inl here ↦ (w, ground arith, ground arith)
  | inr later ↦
      let (w', there, same) = list_live_states-WorkersOk b workers now id worker (rw later at e) in
      (w', rw later there, same)
]

module _ (b : Bool) (workers : Workers) (all : WorkersOk b workers) where
  register_worker-WorkersOk :
      (profile : CapabilityProfile) (now : ℕ)
      → WorkersOk b (kept workers (register_worker workers profile now))
  unfolding register_worker
  register_worker-WorkersOk profile now =
      elim (Bool-cases (profile.capability_schema_version == capability_schema_version)) [
        | inr other ↦ rw other all
        | inl same ↦ rw same (elim (Option-cases (get profile.device_id workers)) [
          | inl missing ↦ rw missing (
              set-WorkersOk b workers profile.device_id _ all
                record { same_id = refl; gate = refl; live = (refl, tt) })
          | inr (old, found) ↦
              let held : WorkerOk b profile.device_id old = all profile.device_id old found in
              rw found (
                set-WorkersOk b workers profile.device_id _ all record {
                  same_id = refl;
                  gate = held.gate;
                  live = ((live_or-LiveOk old.is_eligible old.live_state _ held.live).0, tt);
                })
        ])
      ]

  update_telemetry-WorkersOk :
      (telemetry : WorkerTelemetry) (now : ℕ)
      → WorkersOk b (kept workers (update_telemetry b workers telemetry now))
  unfolding update_telemetry evaluate_eligibility
  update_telemetry-WorkersOk telemetry now = elim (Option-cases (get telemetry.device_id workers)) [
    | inl missing ↦ rw (missing, update_telemetry) all
    | inr (old, found) ↦
        let held : WorkerOk b telemetry.device_id old = all telemetry.device_id old found in
        let live = get_or_create_live_state-LiveOk old now held.live in
        rw (found, update_telemetry)
          (set-WorkersOk b workers telemetry.device_id _ all
            record { same_id = held.same_id; gate = refl; live = (refl, live.1) })
  ]

  update_worker_stage-WorkersOk :
      (id : Ident) (stage : WorkerExecutionStage) (details : Option StageDetails) (now : ℕ)
      → WorkersOk b (update_worker_stage workers id stage details now).0
  unfolding update_worker_stage
  update_worker_stage-WorkersOk id stage details now = elim (Option-cases (get id workers)) [
    | inl missing ↦ rw (missing, update_worker_stage) all
    | inr (old, found) ↦
        let held : WorkerOk b id old = all id old found in
        let live = get_or_create_live_state-LiveOk old now held.live in
        rw (found, update_worker_stage)
          (set-WorkersOk b workers id _ all record {
            same_id = held.same_id;
            gate = held.gate;
            live =
                changed-LiveOk old.is_eligible stage details now (get_or_create_live_state old now)
                  live.0;
          })
  ]

  step-WorkersOk : (call : Call) → WorkersOk b (step b workers call)
  unfolding step unregister_worker
  step-WorkersOk (registers profile now) j w e = register_worker-WorkersOk profile now j w e
  step-WorkersOk (reports telemetry now) j w e = update_telemetry-WorkersOk telemetry now j w e
  step-WorkersOk (changes id stage details now) j w e =
      update_worker_stage-WorkersOk id stage details now j w e
  step-WorkersOk (unregisters id) j w e = all j w (ground (arith, get-delete id j workers))
  step-WorkersOk (lists now) id worker e =
      let (w, there, same) = list_live_states-WorkersOk b workers now id worker e in
      let held : WorkerOk b id w = all id w there in
      let live = get_or_create_live_state-LiveOk w now held.live in
      subst (WorkerOk b id) (sym same)
        (record { same_id = held.same_id; gate = held.gate; live = live })

run-WorkersOk :
    (b : Bool) (workers : Workers) (calls : List Call)
    → WorkersOk b workers
    → WorkersOk b (run b workers calls)
unfolding run
run-WorkersOk b workers [] all = all
run-WorkersOk b workers (call ∷ calls) all =
    run-WorkersOk b (step b workers call) calls (step-WorkersOk b workers all call)

-- After any sequence of calls on a new worker manager, the entry of a worker stands under the
-- worker's own identifier, the worker is eligible exactly when its last telemetry passes the gate,
-- its live state says the same of that, and where the stage is one of the five steps of a chunk, the
-- checklist has exactly the steps up to that stage, and none where it is COMPLETED.
pub run-WorkerOk :
    (ignore_battery : Bool) (calls : List Call) (id : Ident) (worker : WorkerState)
    → get id (run ignore_battery [] calls) ≡ some worker
    → WorkerOk ignore_battery id worker
run-WorkerOk b calls = run-WorkersOk b [] calls (λ id w e. cc)
