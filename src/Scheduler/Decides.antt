-- ===== src/Scheduler/Decides.antt =====
-- What `scheduleTask` of the scored scheduler promises, stated without its lists of candidates, and
-- that it keeps the promise.
use swarm_x.Common.{
  ℕ, Bool, true, false, ◌≤◌, Option, none, some, List, [], ◌∷◌, ◌≡◌, refl, sym, subst, ap, inl, inr,
  arith, includes, Bool-cases, ◌==◌, ==_iff, ==_refl,
}
use swarm_x.Common.Among.{Among}
use swarm_x.Task.{Ident, Text, Task}
use swarm_x.Store.Table.{Table}
use swarm_x.Workers.{WorkerState}
use swarm_x.Scheduler.{
  SchedulerWeights, ScoreComponents, CandidateScore, SchedulingDecision, ScoredScheduler,
  ScoreInput, DecisionStatus,
}
use swarm_x.Scheduler.Candidates.{is_fit}
use swarm_x.Scheduler.Scored.{excluded_ids, candidate, candidates, find_worker}

-- No identifier twice, as in the values of a map.
abbrev pub ids_of : List WorkerState → List Ident
ids_of [] = []
ids_of (w ∷ ws) = w.device_id ∷ ids_of ws

abbrev pub DistinctIds : List WorkerState → Type 0
DistinctIds [] = Unit
DistinctIds (w ∷ ws) = (includes (ids_of ws) w.device_id ≡ false) × DistinctIds ws

Among-includes :
    (w : WorkerState) (ws : List WorkerState) → Among w ws → includes (ids_of ws) w.device_id ≡ true
Among-includes w [] h = absurd h
Among-includes w (x ∷ ws) (inl e) =
    subst (λ y. includes (ids_of (x ∷ ws)) y.device_id ≡ true) e (rw (==_refl x.device_id))
Among-includes w (x ∷ ws) (inr h) = ground (arith, Among-includes w ws h)

pub find_worker-Among :
    (w : WorkerState) (ws : List WorkerState)
    → DistinctIds ws
    → Among w ws
    → find_worker w.device_id ws ≡ some w
find_worker-Among w [] d h = absurd h
find_worker-Among w (x ∷ ws) d (inl e) =
    subst (λ y. find_worker y.device_id (x ∷ ws) ≡ some y) e (rw (==_refl x.device_id))
find_worker-Among w (x ∷ ws) (fresh, d) (inr h) = elim (Bool-cases (x.device_id == w.device_id)) [
  | inr other ↦ rw other (find_worker-Among w ws d h)
  | inl same ↦
      let there = Among-includes w ws h in
      let here : includes (ids_of ws) w.device_id ≡ false =
        subst (λ i. includes (ids_of ws) i ≡ false) ((==_iff x.device_id w.device_id).0 same)
          fresh in
      absurd (cc (there, here))
]

module _ (score : SchedulerWeights → ScoreInput → ℕ × ScoreComponents)
    (kernel_of : Text → Option Ident) (ignore_battery : Bool) (s : ScoredScheduler)
    (store : Option Table) (task : Task) where
  abbrev pub fits : WorkerState → Bool
  fits w = is_fit ignore_battery kernel_of task w

  abbrev pub barred : WorkerState → Bool
  barred w = includes (excluded_ids store task.id) w.device_id

  abbrev pub score_of : WorkerState → ℕ
  score_of w = (candidate score kernel_of ignore_battery s store [] w).final_score

  -- A worker that fits, is not excluded and has the highest score of all such gets the task; if all that
  -- fit are excluded, nobody is left; if none fits, the task waits.
  pub data Decides (workers : List WorkerState) (d : SchedulingDecision) : Type 0 where
    takes :
        (w : WorkerState)
        → d.status ≡ DecisionStatus.assigned
        → d.selected_worker ≡ some w
        → Among w workers
        → fits w ≡ true
        → barred w ≡ false
        → ((v : WorkerState)
            → Among v workers
            → fits v ≡ true
            → barred v ≡ false
            → score_of v ≤ score_of w)
        → Decides workers d
    exhausted :
        (w : WorkerState)
        → d.status ≡ DecisionStatus.no_eligible_worker_remaining
        → d.selected_worker ≡ none
        → Among w workers
        → fits w ≡ true
        → ((v : WorkerState) → Among v workers → fits v ≡ true → barred v ≡ true)
        → Decides workers d
    waits :
        d.status ≡ DecisionStatus.waiting_for_eligible_worker
        → d.selected_worker ≡ none
        → ((v : WorkerState) → Among v workers → fits v ≡ false)
        → Decides workers d

  abbrev pub scored : List WorkerState → List CandidateScore
  scored = candidates score kernel_of ignore_battery s store task (excluded_ids store task.id)

  abbrev pub entry : WorkerState → CandidateScore
  entry = candidate score kernel_of ignore_battery s store (excluded_ids store task.id)

  pub Among-candidates :
      (w : WorkerState) (ws : List WorkerState)
      → Among w ws
      → fits w ≡ true
      → Among (entry w) (scored ws)
  unfolding candidates
  Among-candidates w [] h f = absurd h
  Among-candidates w (x ∷ ws) (inl e) f =
      rw (subst (λ y. fits y ≡ true) (sym e) f) (inl (ap entry e))
  Among-candidates w (x ∷ ws) (inr h) f = elim (Bool-cases (fits x)) [
    | inl fit ↦ rw fit (inr (Among-candidates w ws h f))
    | inr unfit ↦ rw unfit (Among-candidates w ws h f)
  ]

  abbrev pub Origin : List WorkerState → CandidateScore → Type 0
  Origin ws c = (w : WorkerState) × Among w ws × (fits w ≡ true) × (c ≡ entry w)

  pub candidates-Origin :
      (c : CandidateScore) (ws : List WorkerState) → Among c (scored ws) → Origin ws c
  unfolding candidates
  candidates-Origin c [] h = absurd h
  candidates-Origin c (x ∷ ws) h = elim (Bool-cases (fits x)) [
    | inr unfit ↦ behind (candidates-Origin c ws (rw unfit at h))
    | inl fit ↦ first fit (candidates-Origin c ws) (rw fit at h)
  ]
    where
      behind : Origin ws c → Origin (x ∷ ws) c
      behind (w, there, f, e) = (w, inr there, f, e)

      first :
          fits x ≡ true
          → (Among c (scored ws) → Origin ws c)
          → Among c (entry x ∷ scored ws)
          → Origin (x ∷ ws) c
      first fit rest (inl e) = (x, inl refl, fit, sym e)
      first fit rest (inr later) = behind (rest later)
