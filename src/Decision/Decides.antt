-- ===== src/Decision/Decides.antt =====
-- What `evaluate` promises, and that it keeps the promise.
use swarm_x.Common.{
  ℕ, ◌≤◌, Bool, true, false, none, some, List, [], ◌∷◌, ◌≡◌, refl, sym, ap, subst, ◌∙◌, ◌⊎◌, inl,
  inr, arith, All, Bool-cases, Option-cases, select, length, map, ltb, ◌<◌,
}
use swarm_x.Common.Among.{Among, All-Among}
use swarm_x.Common.Sorting.{length-sort_by}
use swarm_x.Common.Sorting.Ascending.{sort_by-head}
use swarm_x.Task.{Ident}
use swarm_x.Decision.{DistributionDecisionEngine, KernelDefinition, get_kernel}
use swarm_x.Decision.Gains.{Gains, Loses, gains_enough-Gains, gains_enough-Loses}
use swarm_x.Decision.Evaluate.{
  WorkerCandidateLoad, WorkerEvaluation, DecisionResult, swarm, on_host, faster, not_certified,
  below_minimum, no_eligible_workers, fits, evaluation, evaluate, evaluate_kernel, choose,
  local_time_ms, sorted_evaluations, gains_enough,
}

module _ (key_of : Ident → Ident → Ident) (ignore_battery : Bool) (e : DistributionDecisionEngine)
    (kernel_id : Ident) (bytes : ℕ) (workers : List WorkerCandidateLoad) where
  abbrev pub fitting : WorkerCandidateLoad → Bool
  fitting = fits key_of ignore_battery e kernel_id bytes

  abbrev pub completion_ms : WorkerCandidateLoad → ℕ
  completion_ms w = (evaluation key_of ignore_battery e kernel_id bytes w).effective_swarm_ms

  abbrev pub host_ms : ℕ
  host_ms = local_time_ms key_of ignore_battery e kernel_id bytes

  -- A worker that fits and is done first of all that fit.
  pub record Fastest (w : WorkerCandidateLoad) : Type 0 where
    pub listed : Among w workers
    pub fit : fitting w ≡ true
    pub first :
        (v : WorkerCandidateLoad)
        → Among v workers
        → fitting v ≡ true
        → completion_ms w ≤ completion_ms v

  -- The kernel is certified, and its minimum of bytes is there.
  abbrev pub Worthwhile : Type 0
  Worthwhile =
      (kernel : KernelDefinition) × (get_kernel e.kernel_registry kernel_id ≡ some kernel)
      × (kernel.min_beneficial_bytes ≤ bytes)

  -- With a certified kernel and its minimum of bytes, the decision names the fastest worker that fits,
  -- and is for the swarm if and only if that one gains enough over the host, or for the host if none
  -- fits; without, it is for the host. No two of these hold at once.
  pub data Decides (r : DecisionResult) : Type 0 where
    for_swarm :
        (w : WorkerCandidateLoad)
        → Worthwhile
        → Fastest w
        → r.selected_worker_id ≡ some w.device_id
        → r.estimated_swarm_time_ms ≡ some (completion_ms w)
        → r.estimated_local_time_ms ≡ host_ms
        → Gains e.config.min_gain_threshold host_ms (completion_ms w)
        → r.decision ≡ swarm
        → r.reason ≡ faster
        → Decides r
    too_slow :
        (w : WorkerCandidateLoad)
        → Worthwhile
        → Fastest w
        → r.selected_worker_id ≡ some w.device_id
        → r.estimated_swarm_time_ms ≡ some (completion_ms w)
        → r.estimated_local_time_ms ≡ host_ms
        → Loses e.config.min_gain_threshold host_ms (completion_ms w)
        → r.decision ≡ on_host
        → Decides r
    uncertified :
        get_kernel e.kernel_registry kernel_id ≡ none
        → r.decision ≡ on_host
        → r.reason ≡ not_certified
        → Decides r
    too_small :
        (kernel : KernelDefinition)
        → get_kernel e.kernel_registry kernel_id ≡ some kernel
        → bytes < kernel.min_beneficial_bytes
        → r.decision ≡ on_host
        → r.reason ≡ below_minimum
        → Decides r
    nobody :
        Worthwhile
        → ((v : WorkerCandidateLoad) → Among v workers → fitting v ≡ false)
        → r.decision ≡ on_host
        → r.reason ≡ no_eligible_workers
        → Decides r

  abbrev Origin : WorkerEvaluation → Type 0
  Origin c =
      (w : WorkerCandidateLoad) × Among w workers
      × (fitting w ≡ true)
      × (c ≡ evaluation key_of ignore_battery e kernel_id bytes w)

  abbrev timed : List WorkerCandidateLoad → List WorkerEvaluation
  timed ws = map (evaluation key_of ignore_battery e kernel_id bytes) (select fitting ws)

  Among-timed :
      (w : WorkerCandidateLoad) (ws : List WorkerCandidateLoad)
      → Among w ws
      → fitting w ≡ true
      → Among (evaluation key_of ignore_battery e kernel_id bytes w) (timed ws)
  Among-timed w [] h f = absurd h
  Among-timed w (x ∷ ws) h f = elim (Bool-cases (fitting x)) [
    | inl fit ↦ rw fit (later (λ there. Among-timed w ws there f) h)
    | inr unfit ↦ rw unfit (Among-timed w ws (behind unfit h) f)
  ]
    where
      later :
          (Among w ws → Among (evaluation key_of ignore_battery e kernel_id bytes w) (timed ws))
          → Among w (x ∷ ws)
          → Among
              (evaluation key_of ignore_battery e kernel_id bytes w)
              (evaluation key_of ignore_battery e kernel_id bytes x ∷ timed ws)
      later rest (inl same) = inl (ap (evaluation key_of ignore_battery e kernel_id bytes) same)
      later rest (inr there) = inr (rest there)

      behind : fitting x ≡ false → Among w (x ∷ ws) → Among w ws
      behind unfit (inl same) = absurd (cc (subst (λ y. fitting y ≡ false) same unfit, f))
      behind unfit (inr there) = there

  timed-Origin :
      (ws : List WorkerCandidateLoad)
      → ((w : WorkerCandidateLoad) → Among w ws → Among w workers)
      → All Origin (timed ws)
  timed-Origin [] in_all = tt
  timed-Origin (x ∷ ws) in_all = elim (Bool-cases (fitting x)) [
    | inl fit ↦
        rw fit ((x, in_all x (inl refl), fit, refl), timed-Origin ws (λ w h. in_all w (inr h)))
    | inr unfit ↦ rw unfit (timed-Origin ws (λ w h. in_all w (inr h)))
  ]

  abbrev sorted : List WorkerEvaluation
  sorted = sorted_evaluations key_of ignore_battery e kernel_id bytes workers

  empty_timed : sorted ≡ [] → timed workers ≡ []
  empty_timed h =
      nil (timed workers)
        (sym (length-sort_by (λ v. v.effective_swarm_ms) (timed workers)) ∙ ap length h)
    where
      nil : (xs : List WorkerEvaluation) → length xs ≡ 0 → xs ≡ []
      nil [] h = refl
      nil (x ∷ xs) h = absurd (omega (arith, h))

  head-Fastest :
      (best : WorkerEvaluation) (others : List WorkerEvaluation)
      → sorted ≡ best ∷ others
      → (w : WorkerCandidateLoad) × Fastest w
        × (best ≡ evaluation key_of ignore_battery e kernel_id bytes w)
  head-Fastest best others h =
      let ((w, there, fit, same), lowest) =
        sort_by-head (λ v. v.effective_swarm_ms) Origin (timed workers) best others h
          (timed-Origin workers (λ v in_list. in_list)) in
      (
        w,
        record {
          listed = there;
          fit = fit;
          first = λ v in_list fits_v.
              subst (λ c. c.effective_swarm_ms ≤ completion_ms v) same
                (All-Among (λ c. best.effective_swarm_ms ≤ c.effective_swarm_ms)
                  (evaluation key_of ignore_battery e kernel_id bytes v) (timed workers) lowest
                  (Among-timed v workers in_list fits_v));
        },
        same,
      )

  List-cases :
      (cs : List WorkerEvaluation)
      → (cs ≡ []) ⊎ ((c : WorkerEvaluation) × (ds : List WorkerEvaluation) × (cs ≡ c ∷ ds))
  List-cases [] = inl refl
  List-cases (c ∷ ds) = inr (c, ds, refl)

  none_fits : sorted ≡ [] → (v : WorkerCandidateLoad) → Among v workers → fitting v ≡ false
  none_fits h v there = elim (Bool-cases (fitting v)) [
    | inr unfit ↦ unfit
    | inl fit ↦ absurd (
        subst (Among (evaluation key_of ignore_battery e kernel_id bytes v)) (empty_timed h)
          (Among-timed v workers there fit))
  ]

  abbrev chosen : List WorkerEvaluation → DecisionResult
  chosen = choose key_of ignore_battery e kernel_id bytes (length (select fitting workers))

  chosen_best :
      (w : WorkerCandidateLoad) (others : List WorkerEvaluation)
      → Worthwhile
      → Fastest w
      → Decides (chosen (evaluation key_of ignore_battery e kernel_id bytes w ∷ others))
  unfolding choose
  chosen_best w others worth fastest =
      elim (Bool-cases (gains_enough e.config.min_gain_threshold host_ms (completion_ms w))) [
        | inl gain ↦
            for_swarm w worth fastest refl refl refl (gains_enough-Gains _ host_ms _ gain)
              (ground arith) (ground arith)
        | inr loss ↦
            too_slow w worth fastest refl refl refl (gains_enough-Loses _ host_ms _ loss)
              (ground arith)
      ]

  chosen-Decides : Worthwhile → Decides (chosen sorted)
  unfolding choose
  chosen-Decides worth = elim (List-cases sorted) [
    | inl h ↦
        let is : chosen sorted ≡ chosen [] = ap chosen h in
        nobody worth (none_fits h) (ap (λ r. r.decision) is) (ap (λ r. r.reason) is)
    | inr (best, others, h) ↦
        let (w, fastest, same) = head-Fastest best others h in
        subst Decides (sym (ap chosen h ∙ ap (λ c. chosen (c ∷ others)) same))
          (chosen_best w others worth fastest)
  ]

  -- With a certified kernel and at least the kernel's minimum of bytes, the worker that fits and is done
  -- first is named, and the decision is for the swarm if and only if that one gains enough over the
  -- host; it is for the host, with the reason, where no worker fits, where there are fewer bytes,
  -- and where the kernel is not certified.
  pub evaluate-Decides : Decides (evaluate key_of ignore_battery e kernel_id bytes workers)
  unfolding evaluate evaluate_kernel
  evaluate-Decides = elim (Option-cases (get_kernel e.kernel_registry kernel_id)) [
    | inl missing ↦ uncertified missing (ground arith) (ground arith)
    | inr (kernel, found) ↦ elim (Bool-cases (ltb bytes kernel.min_beneficial_bytes)) [
      | inl small ↦ too_small kernel found (ground arith) (ground arith) (ground arith)
      | inr large ↦
          let is : evaluate key_of ignore_battery e kernel_id bytes workers ≡ chosen sorted =
            ground arith in
          subst Decides (sym is) (chosen-Decides (kernel, found, ground arith))
    ]
  ]
