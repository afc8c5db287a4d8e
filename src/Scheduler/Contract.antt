-- ===== src/Scheduler/Contract.antt =====
-- core/src/scheduler.ts: the interface IScheduler, with what its clients rely on, and its two
-- implementations.
use swarm_x.Common.{
  ℕ, Bool, true, Option, none, some, List, [], ◌∷◌, ◌≡◌, refl, arith, inl, inr, Bool-cases, ◌⊎◌,
}
use swarm_x.Common.Among.{Among}
use swarm_x.Task.{Ident, Text, Task}
use swarm_x.Store.Table.{Table}
use swarm_x.Workers.{WorkerState}
use swarm_x.Scheduler.{
  SchedulerWeights, ScoreComponents, SchedulingDecision, ScoredScheduler, ScoreInput,
  DecisionStatus,
}
use swarm_x.Scheduler.Candidates.{is_fit, meets_resources}
use swarm_x.Scheduler.Scored.{schedule_task}
use swarm_x.Scheduler.Decides.{DistinctIds, Decides, takes, exhausted, waits}
use swarm_x.Scheduler.Chooses.{schedule_task-Decides}
use swarm_x.Scheduler.Fifo

-- The task goes to one of the workers that is eligible and has what the task demands, or to none.
abbrev pub Sound : Task → List WorkerState → SchedulingDecision → Type 0
Sound task workers d = elim d.selected_worker [
  | none ↦ d.status ≡ DecisionStatus.assigned → ⊥
  | some w ↦
      (d.status ≡ DecisionStatus.assigned)
      × Among w workers
      × (w.is_eligible ≡ true)
      × (meets_resources task.required_resources w.capability_profile ≡ true)
]

pub record IScheduler : Type 0 where
  pub schedule_task : Task → List WorkerState → Option Table → SchedulingDecision
  pub sound :
      (task : Task) (workers : List WorkerState) (store : Option Table)
      → DistinctIds workers
      → Sound task workers (schedule_task task workers store)

Sound-none :
    (task : Task) (workers : List WorkerState) (d : SchedulingDecision)
    → d.selected_worker ≡ none
    → (d.status ≡ DecisionStatus.assigned → ⊥)
    → Sound task workers d
Sound-none task workers d e h = rw e h

Sound-some :
    (task : Task) (workers : List WorkerState) (d : SchedulingDecision) (w : WorkerState)
    → d.selected_worker ≡ some w
    → d.status ≡ DecisionStatus.assigned
    → Among w workers
    → w.is_eligible ≡ true
    → meets_resources task.required_resources w.capability_profile ≡ true
    → Sound task workers d
Sound-some task workers d w e s there el meets = rw e (s, there, el, meets)

module _ (score : SchedulerWeights → ScoreInput → ℕ × ScoreComponents)
    (kernel_of : Text → Option Ident) (ignore_battery : Bool) (s : ScoredScheduler) where
  pub Decides-Sound :
      (store : Option Table) (task : Task) (workers : List WorkerState) (d : SchedulingDecision)
      → Decides score kernel_of ignore_battery s store task workers d
      → Sound task workers d
  unfolding is_fit
  Decides-Sound store task workers d (takes w status selected there fit free best) =
      Sound-some task workers d w selected status there (ground arith) (ground arith)
  Decides-Sound store task workers d (exhausted w status selected there fit all) =
      Sound-none task workers d selected (λ e. cc)
  Decides-Sound store task workers d (waits status selected unfit) =
      Sound-none task workers d selected (λ e. cc)

  abbrev pub scored_scheduler : IScheduler
  scored_scheduler = record {
    schedule_task = schedule_task score kernel_of ignore_battery s;
    sound = λ task workers store distinct.
        Decides-Sound store task workers _
          (schedule_task-Decides score kernel_of ignore_battery s store task workers distinct);
  }

is_taken_lem :
    (task : Task) (w : WorkerState)
    → Fifo.is_taken task w ≡ true
    → (w.is_eligible ≡ true) × (meets_resources task.required_resources w.capability_profile ≡ true)
is_taken_lem task w h = ground arith

select_worker_cases :
    (task : Task) (workers : List WorkerState)
    → (Fifo.select_worker task workers ≡ none)
      ⊎ ((w : WorkerState) × (Fifo.select_worker task workers ≡ some w)
          × Among w workers
          × (Fifo.is_taken task w ≡ true))
unfolding Fifo.select_worker
select_worker_cases task [] = inl refl
select_worker_cases task (w ∷ workers) = elim (Bool-cases (Fifo.is_taken task w)) [
  | inl taken ↦ inr (w, rw taken, inl refl, taken)
  | inr left ↦ elim (select_worker_cases task workers) [
    | inl missing ↦ inl (rw left missing)
    | inr (v, e, there, taken) ↦ inr (v, rw left e, inr there, taken)
  ]
]

fifo_waits :
    (task : Task) (workers : List WorkerState)
    → Fifo.select_worker task workers ≡ none
    → (Fifo.schedule_task task workers).status ≡ DecisionStatus.waiting_for_eligible_worker
unfolding Fifo.schedule_task
fifo_waits task workers e = rw (e, Fifo.schedule_task)

-- The decision of the FIFO scheduler is sound too.
pub fifo-Sound :
    (task : Task) (workers : List WorkerState)
    → Sound task workers (Fifo.schedule_task task workers)
unfolding Fifo.schedule_task
fifo-Sound task workers = elim (select_worker_cases task workers) [
  | inl missing ↦
      Sound-none task workers (Fifo.schedule_task task workers) missing
        (λ e. cc (fifo_waits task workers missing))
  | inr (w, e, there, taken) ↦
      let (eligible, meets) = is_taken_lem task w taken in
      Sound-some task workers (Fifo.schedule_task task workers) w e (rw (e, Fifo.schedule_task))
        there eligible meets
]

abbrev pub fifo_scheduler : IScheduler
fifo_scheduler = record {
  schedule_task = λ task workers store. Fifo.schedule_task task workers;
  sound = λ task workers store distinct. fifo-Sound task workers;
}
