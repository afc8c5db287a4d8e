-- ===== src/Stealer/Attempts.antt =====
-- What `attemptSteal` promises, stated without its list of candidates, and that it keeps the promise.
use swarm_x.Common.{
  ◌&&◌, ◌==◌, not, none, sym, ℕ, ◌+◌, Bool, true, false, ◌≤◌, some, List, [], ◌∷◌, ◌≡◌, refl, subst,
  ap, inl, inr, Bool-cases,
}
use swarm_x.Common.Among.{Among, All-Among}
use swarm_x.Common.Dict.{Dict, get}
use swarm_x.Common.Sorting.Descending.{sort_down, sort_down-head}
use swarm_x.Task.{Ident}
use swarm_x.Store.Table.{Table, get_task, default_lease_duration_ms}
use swarm_x.Store.Stolen.{is_flying, Stolen}
use swarm_x.Stealer.{WorkStealer, InFlightTaskTracking, StealResult, is_disabled, nothing_straggles}
use swarm_x.Stealer.Detector.{is_task_straggling}
use swarm_x.Stealer.Steal.{StragglerCandidate, not_stolen, straggler_candidates, by_elapsed}

module _ (mean : ℕ → ℕ → ℕ) (s : WorkStealer) (thief : Ident) (t : Table) (now db_now : ℕ) where
  abbrev pub stealable : Ident → InFlightTaskTracking → Bool
  stealable task tracking =
      not (tracking.worker_id == thief) && (is_task_straggling mean s task now).is_straggler

  abbrev pub waited : Ident → ℕ
  waited task = (is_task_straggling mean s task now).elapsed_ms

  -- The tracking of a stolen task.
  abbrev pub tracked_for_thief : Ident → InFlightTaskTracking → InFlightTaskTracking
  tracked_for_thief task old = record {
    task_id = task;
    worker_id = thief;
    start_time_ms = now;
    expected_duration_ms = old.expected_duration_ms;
  }

  -- An entry that straggles, is not the thief's own, and has waited as long as any other such entry.
  pub record Target (task : Ident) (tracking : InFlightTaskTracking) : Type 0 where
    pub entered : Among (task, tracking) s.in_flight_tasks
    pub straggles : stealable task tracking ≡ true
    pub longest :
        (other : Ident) (its : InFlightTaskTracking)
        → Among (other, its) s.in_flight_tasks
        → stealable other its ≡ true
        → waited other ≤ waited task

  -- Stealing is off; or it is on, and nothing can be stolen; or the target, in flight in the store, is
  -- stolen, in the store and in the tracking; or the store does not have the target in flight, and
  -- nothing changes. No two of these hold at once.
  pub data Attempts (r : (WorkStealer × Table) × StealResult) : Type 0 where
    off :
        s.config.enable_work_stealing ≡ false
        → r ≡ ((s, t), not_stolen none is_disabled)
        → Attempts r
    idle :
        s.config.enable_work_stealing ≡ true
        → ((task : Ident) (tracking : InFlightTaskTracking)
            → Among (task, tracking) s.in_flight_tasks
            → stealable task tracking ≡ false)
        → r ≡ ((s, t), not_stolen none nothing_straggles)
        → Attempts r
    steals :
        (task : Ident) (tracking : InFlightTaskTracking)
        → s.config.enable_work_stealing ≡ true
        → Target task tracking
        → Stolen t task thief default_lease_duration_ms db_now r.0.1
        → r.1.task ≡ get_task r.0.1 task
        → r.1.stolen ≡ true
        → r.1.task_id ≡ some task
        → r.1.victim_worker_id ≡ some tracking.worker_id
        → get task r.0.0.in_flight_tasks ≡ some (tracked_for_thief task tracking)
        → r.0.0.total_steals_count ≡ s.total_steals_count + 1
        → r.0.0.config ≡ s.config
        → Attempts r
    refused :
        (task : Ident) (tracking : InFlightTaskTracking)
        → s.config.enable_work_stealing ≡ true
        → Target task tracking
        → is_flying t task ≡ false
        → r.1.stolen ≡ false
        → r.1.task_id ≡ some task
        → r.0 ≡ (s, t)
        → Attempts r

  abbrev pub entry : Ident → InFlightTaskTracking → StragglerCandidate
  entry task tracking = record { task_id = task; tracking = tracking; elapsed_ms = waited task }

  abbrev pub listed : Dict InFlightTaskTracking → List StragglerCandidate
  listed = straggler_candidates mean s thief now

  pub Among-straggler_candidates :
      (task : Ident) (tracking : InFlightTaskTracking) (entries : Dict InFlightTaskTracking)
      → Among (task, tracking) entries
      → stealable task tracking ≡ true
      → Among (entry task tracking) (listed entries)
  unfolding straggler_candidates
  Among-straggler_candidates task tracking [] h e = absurd h
  Among-straggler_candidates task tracking ((i, x) ∷ entries) (inl same) e =
      rw (subst (λ p. stealable p.0 p.1 ≡ true) (sym same) e) (inl (ap (λ p. entry p.0 p.1) same))
  Among-straggler_candidates task tracking ((i, x) ∷ entries) (inr h) e =
      elim (Bool-cases (stealable i x)) [
        | inl hit ↦ rw hit (inr (Among-straggler_candidates task tracking entries h e))
        | inr miss ↦ rw miss (Among-straggler_candidates task tracking entries h e)
      ]

  abbrev Origin : Dict InFlightTaskTracking → StragglerCandidate → Type 0
  Origin entries c =
      (task : Ident) × (tracking : InFlightTaskTracking) × Among (task, tracking) entries
      × (stealable task tracking ≡ true)
      × (c ≡ entry task tracking)

  straggler_candidates-Origin :
      (c : StragglerCandidate) (entries : Dict InFlightTaskTracking)
      → Among c (listed entries)
      → Origin entries c
  unfolding straggler_candidates
  straggler_candidates-Origin c [] h = absurd h
  straggler_candidates-Origin c ((i, x) ∷ entries) h = elim (Bool-cases (stealable i x)) [
    | inr miss ↦ behind (straggler_candidates-Origin c entries (rw miss at h))
    | inl hit ↦ first hit (straggler_candidates-Origin c entries) (rw hit at h)
  ]
    where
      behind : Origin entries c → Origin ((i, x) ∷ entries) c
      behind (task, tracking, there, e, same) = (task, tracking, inr there, e, same)

      first :
          stealable i x ≡ true
          → (Among c (listed entries) → Origin entries c)
          → Among c (entry i x ∷ listed entries)
          → Origin ((i, x) ∷ entries) c
      first hit rest (inl e) = (i, x, inl refl, hit, sym e)
      first hit rest (inr later) = behind (rest later)

  -- The first of the sorted candidates is a target.
  pub head-Target :
      (top : StragglerCandidate) (others : List StragglerCandidate)
      → sort_down by_elapsed (listed s.in_flight_tasks) ≡ top ∷ others
      → (task : Ident) × (tracking : InFlightTaskTracking) × Target task tracking
        × (top ≡ entry task tracking)
  head-Target top others e =
      let (there, best) = sort_down-head by_elapsed (listed s.in_flight_tasks) top others e in
      let (task, tracking, among, hit, same) =
        straggler_candidates-Origin top s.in_flight_tasks there in
      (
        task,
        tracking,
        record {
          entered = among;
          straggles = hit;
          longest = λ other its h its_hit.
              subst (λ c. waited other ≤ c.elapsed_ms) same
                (All-Among (λ c. c.elapsed_ms ≤ top.elapsed_ms) (entry other its)
                  (listed s.in_flight_tasks) best
                  (Among-straggler_candidates other its s.in_flight_tasks h its_hit));
        },
        same,
      )
