-- ===== src/Scheduler/Chooses.antt =====
-- `scheduleTask` of the scored scheduler keeps its promise.
use swarm_x.Common.{
  ℕ, Bool, true, false, ◌≤◌, Option, none, some, List, [], ◌∷◌, ◌≡◌, refl, sym, subst, ap, ◌⊎◌, inl,
  inr, arith, select, every, Bool-cases, ◌∙◌,
}
use swarm_x.Common.Among.{Among, All-Among, Among-select, select-Among}
use swarm_x.Task.{Ident, Text, Task}
use swarm_x.Store.Table.{Table}
use swarm_x.Workers.{WorkerState}
use swarm_x.Scheduler.{
  SchedulerWeights, ScoreComponents, CandidateScore, ScoredScheduler, ScoreInput, DecisionStatus,
}
use swarm_x.Scheduler.Scored.{schedule_task, decision, sort_by_score, is_assignable, find_worker}
use swarm_x.Common.Sorting.Descending.{NoBetter, sort_down-head, sort_down-nil}
use swarm_x.Scheduler.Decides.{
  DistinctIds, Decides, takes, exhausted, waits, fits, barred, scored, entry, Among-candidates,
  candidates-Origin, find_worker-Among,
}

abbrev by_score : CandidateScore → ℕ
by_score c = c.final_score

-- With nobody assignable, all that are eligible are excluded.
every_excluded :
    (cs : List CandidateScore)
    → select is_assignable cs ≡ []
    → every (λ c. c.is_excluded_for_task) (select (λ c. c.eligible) cs) ≡ true
every_excluded [] e = refl
every_excluded (c ∷ cs) e = ground (arith, every_excluded cs)

-- The ends of `scheduleTask`.
takes_top :
    (id : Ident) (weights : SchedulerWeights) (scores sorted : List CandidateScore)
    (ws : List WorkerState) (top : CandidateScore) (others : List CandidateScore)
    → sorted ≡ top ∷ others
    → let d = decision id weights scores sorted ws in
      (d.status ≡ DecisionStatus.assigned) × (d.selected_worker ≡ find_worker top.worker_id ws)
unfolding decision
takes_top id weights scores [] ws top others e = cc
takes_top id weights scores (t ∷ more) ws top others e = (refl, ground arith)

ends_waiting :
    (id : Ident) (weights : SchedulerWeights) (scores sorted : List CandidateScore)
    (ws : List WorkerState)
    → sorted ≡ []
    → scores ≡ []
    → let d = decision id weights scores sorted ws in
      (d.status ≡ DecisionStatus.waiting_for_eligible_worker) × (d.selected_worker ≡ none)
unfolding decision
ends_waiting id weights [] [] ws e e' = (refl, refl)
ends_waiting id weights (c ∷ scores) sorted ws e e' = cc
ends_waiting id weights [] (c ∷ sorted) ws e e' = cc

ends_exhausted :
    (id : Ident) (weights : SchedulerWeights) (scores sorted : List CandidateScore)
    (ws : List WorkerState) (c : CandidateScore) (ds : List CandidateScore)
    → sorted ≡ []
    → scores ≡ c ∷ ds
    → c.eligible ≡ true
    → every (λ d. d.is_excluded_for_task) (select (λ d. d.eligible) scores) ≡ true
    → let d = decision id weights scores sorted ws in
      (d.status ≡ DecisionStatus.no_eligible_worker_remaining) × (d.selected_worker ≡ none)
unfolding decision
ends_exhausted id weights [] sorted ws c ds e e' el all = cc
ends_exhausted id weights (x ∷ scores) (t ∷ more) ws c ds e e' el all = cc
ends_exhausted id weights (x ∷ scores) [] ws c ds e e' el all = ground arith

assignable_free : (c : CandidateScore) → is_assignable c ≡ true → c.is_excluded_for_task ≡ false
assignable_free c e = ground arith

List-cases :
    (cs : List CandidateScore)
    → (cs ≡ []) ⊎ ((c : CandidateScore) × (ds : List CandidateScore) × (cs ≡ c ∷ ds))
List-cases [] = inl refl
List-cases (c ∷ ds) = inr (c, ds, refl)

module _ (score : SchedulerWeights → ScoreInput → ℕ × ScoreComponents)
    (kernel_of : Text → Option Ident) (ignore_battery : Bool) (s : ScoredScheduler)
    (store : Option Table) (task : Task) (workers : List WorkerState) where
  abbrev fitting : WorkerState → Bool
  fitting = fits score kernel_of ignore_battery s store task

  abbrev excluded : WorkerState → Bool
  excluded = barred score kernel_of ignore_battery s store task

  abbrev all_scores : List CandidateScore
  all_scores = scored score kernel_of ignore_battery s store task workers

  abbrev assignable : List CandidateScore
  assignable = select is_assignable all_scores

  abbrev row : WorkerState → CandidateScore
  row = entry score kernel_of ignore_battery s store task

  row_listed : (w : WorkerState) → Among w workers → fitting w ≡ true → Among (row w) all_scores
  row_listed w = Among-candidates score kernel_of ignore_battery s store task w workers

  -- Nobody is assignable: all that fit are excluded.
  all_excluded :
      select is_assignable all_scores ≡ []
      → (v : WorkerState) → Among v workers
      → fitting v ≡ true
      → excluded v ≡ true
  all_excluded e v there f = elim (Bool-cases (excluded v)) [
    | inl out ↦ out
    | inr free ↦ absurd (
        subst (Among (row v)) e
          (select-Among is_assignable (row v) all_scores (row_listed v there f) (ground arith)))
  ]

  none_fits : all_scores ≡ [] → (v : WorkerState) → Among v workers → fitting v ≡ false
  none_fits e v there = elim (Bool-cases (fitting v)) [
    | inl f ↦ absurd (subst (Among (row v)) e (row_listed v there f))
    | inr unfit ↦ unfit
  ]

  none_better :
      (w : WorkerState) (top : CandidateScore)
      → NoBetter by_score top (select is_assignable all_scores)
      → top ≡ row w
      → (v : WorkerState) → Among v workers
      → fitting v ≡ true
      → excluded v ≡ false
      → (row v).final_score ≤ (row w).final_score
  none_better w top best same v there f free =
      subst (λ c. (row v).final_score ≤ c.final_score) same
        (All-Among (λ c. c.final_score ≤ top.final_score) (row v) (select is_assignable all_scores)
          best (select-Among is_assignable (row v) all_scores (row_listed v there f) (rw free)))

  -- The decision refines the promise `Decides`: a worker that passes all tests of eligibility and of
  -- the task's demands, is not excluded for the task and has the highest score of all such workers
  -- is selected if there is one; else the status says whether some worker passes the tests. The
  -- identifiers of the workers are distinct.
  pub schedule_task-Decides :
      DistinctIds workers
      → Decides score kernel_of ignore_battery s store task workers
          (schedule_task score kernel_of ignore_battery s task workers store)
  unfolding schedule_task
  schedule_task-Decides d = elim (List-cases (sort_by_score assignable)) [
    | inr (top, others, e) ↦
        let (there, best) = sort_down-head by_score assignable top others e in
        let (listed, free) = Among-select is_assignable top all_scores there in
        let (w, among, f, same) =
          candidates-Origin score kernel_of ignore_battery s store task top workers listed in
        let found : find_worker top.worker_id workers ≡ some w =
          ap (λ c. find_worker c.worker_id workers) same ∙ find_worker-Among w workers d among in
        let (status, selected) =
          takes_top task.id s.weights all_scores (sort_by_score assignable) workers top others e in
        takes w status (selected ∙ found) among f
          (sym (ap (λ c. c.is_excluded_for_task) same) ∙ assignable_free top free)
          (none_better w top best same)
    | inl e ↦
        let nobody = sort_down-nil by_score assignable e in
        elim (List-cases all_scores) [
          | inl empty ↦
              let (status, selected) =
                ends_waiting task.id s.weights all_scores (sort_by_score assignable) workers e
                  empty in
              waits status selected (none_fits empty)
          | inr (c, ds, e') ↦
              let (w, among, f, same) =
                candidates-Origin score kernel_of ignore_battery s store task c workers
                  (rw e' (inl refl)) in
              let (status, selected) =
                ends_exhausted task.id s.weights all_scores (sort_by_score assignable) workers c ds
                  e e' (ap (λ r. r.eligible) same) (every_excluded all_scores nobody) in
              exhausted w status selected among f (all_excluded nobody)
        ]
  ]
