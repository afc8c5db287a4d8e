-- ===== src/Stealer/Bounds.antt =====
-- When a task straggles, and that one which was stolen just now does not.
use swarm_x.Common.{
  Bool-cases, ◌⊎◌, if◌then◌else◌, ℕ, ◌+◌, ◌-◌, ◌*◌, Bool, true, false, ◌≤◌, some, ◌≡◌, subst, ap,
  inl, inr, arith, Option-cases, ◌&&◌,
}
use native.Mathlib.Nat.{mul-le-mul_right, le_trans}
use swarm_x.Common.Dict.{get}
use swarm_x.Task.{Ident}
use swarm_x.Store.Table.{Table}
use swarm_x.Stealer.{WorkStealer, InFlightTaskTracking, StealResult}
use swarm_x.Stealer.Detector.{is_task_straggling, is_late, baseline}
use swarm_x.Stealer.Steal.{attempt_steal}
use swarm_x.Stealer.Attempts.{tracked_for_thief, off, idle, steals, refused}
use swarm_x.Stealer.Steals.{attempt_steal-Attempts}

second_holds : (a b : Bool) → a && b ≡ true → b ≡ true
second_holds a b e = ground arith

module _ (mean : ℕ → ℕ → ℕ) where
  -- The conditions of a late task, apart.
  is_late-parts :
      (s : WorkStealer) (tracking : InFlightTaskTracking) (now : ℕ)
      → is_late mean s tracking now ≡ true
      → (tracking.start_time_ms + s.config.min_duration_ms_threshold ≤ now)
        × (baseline mean s tracking * s.config.detection_threshold_multiplier
            ≤ (now - tracking.start_time_ms) * 100)
  is_late-parts s tracking now e = (ground arith, ground arith)

  is_late-bounds :
      (s : WorkStealer) (tracking : InFlightTaskTracking) (now : ℕ)
      → is_late mean s tracking now ≡ true
      → (tracking.start_time_ms + s.config.min_duration_ms_threshold ≤ now)
        × (s.config.min_duration_ms_threshold * s.config.detection_threshold_multiplier
            ≤ (now - tracking.start_time_ms) * 100)
  is_late-bounds s tracking now e =
      let (passed, late) = is_late-parts s tracking now e in
      let low : s.config.min_duration_ms_threshold ≤ baseline mean s tracking = omega arith in
      (passed, le_trans (mul-le-mul_right s.config.detection_threshold_multiplier low) late)

  -- A task that straggles is tracked, the minimum of time has passed since its start, and so has the
  -- minimum times the multiplier.
  pub is_task_straggling-bounds :
      (s : WorkStealer) (task : Ident) (now : ℕ)
      → (is_task_straggling mean s task now).is_straggler ≡ true
      → (tracking : InFlightTaskTracking) × (get task s.in_flight_tasks ≡ some tracking)
        × (tracking.start_time_ms + s.config.min_duration_ms_threshold ≤ now)
        × (s.config.min_duration_ms_threshold * s.config.detection_threshold_multiplier
            ≤ (now - tracking.start_time_ms) * 100)
  unfolding is_task_straggling
  is_task_straggling-bounds s task now e = elim (Option-cases (get task s.in_flight_tasks)) [
    | inl missing ↦ ground arith
    | inr (tracking, found) ↦
        let (passed, late) = is_late-bounds s tracking now (rw (found, is_task_straggling) at e) in
        (tracking, found, passed, late)
  ]

  module _ (s : WorkStealer) (thief : Ident) (t : Table) (now db_now : ℕ) where
    abbrev after : (WorkStealer × Table) × StealResult
    after = attempt_steal mean s thief t now db_now

    not_stolen-same : after.1.stolen ≡ false → after.0 ≡ (s, t)
    not_stolen-same e = elim (attempt_steal-Attempts mean s thief t now db_now) [
      | off h is ↦ ap (λ x. x.0) is
      | idle on h is ↦ ap (λ x. x.0) is
      | steals task tracking on target did is done named victim held count kept ↦ cc
      | refused task tracking on target grounded left named is ↦ is
    ]

    stolen-held :
        (task : Ident)
        → after.1.stolen ≡ true
        → after.1.task_id ≡ some task
        → (old : InFlightTaskTracking) × (get task after.0.0.in_flight_tasks
            ≡ some (tracked_for_thief mean s thief t now db_now task old))
          × (after.0.0.config ≡ s.config)
    stolen-held task e names = elim (attempt_steal-Attempts mean s thief t now db_now) [
      | off h is ↦ let left : after.1.stolen ≡ false = ap (λ x. x.1.stolen) is in cc
      | idle on h is ↦ let left : after.1.stolen ≡ false = ap (λ x. x.1.stolen) is in cc
      | refused task' tracking on target grounded left named is ↦ cc
      | steals task' tracking on target did is done named victim held count kept ↦
          let same : task' ≡ task = cc in
          (
            tracking,
            subst
                (λ i.
                  get i after.0.0.in_flight_tasks
                  ≡ some (tracked_for_thief mean s thief t now db_now i tracking))
                same held,
            kept,
          )
    ]

    stolen-count : after.1.stolen ≡ true → after.0.0.total_steals_count ≡ s.total_steals_count + 1
    stolen-count e = elim (attempt_steal-Attempts mean s thief t now db_now) [
      | off h is ↦ let left : after.1.stolen ≡ false = ap (λ x. x.1.stolen) is in cc
      | idle on h is ↦ let left : after.1.stolen ≡ false = ap (λ x. x.1.stolen) is in cc
      | refused task tracking on target grounded left named is ↦ cc
      | steals task tracking on target did is done named victim held count kept ↦ count
    ]

    -- An attempt counts one steal exactly if it says that it stole; if not, it changes neither the stealer
    -- nor the store, whatever it found, and made again at the same time it has the same outcome.
    pub attempt_steal-not_stolen :
        (after.0.0.total_steals_count ≡ s.total_steals_count + (if after.1.stolen then 1 else 0))
        × ((after.1.stolen ≡ true)
            ⊎ ((after.0 ≡ (s, t))
                × (attempt_steal mean after.0.0 thief after.0.1 now db_now ≡ after)))
    attempt_steal-not_stolen = elim (Bool-cases after.1.stolen) [
      | inl e ↦ (rw e (stolen-count e), inl e)
      | inr e ↦
          let same = not_stolen-same e in
          let count : after.0.0.total_steals_count ≡ s.total_steals_count =
            ap (λ x. x.0.total_steals_count) same in
          (
            rw e (omega (arith, count)),
            inr (same, ap (λ x. attempt_steal mean x.0 thief x.1 now db_now) same),
          )
    ]

    -- A stolen task straggles again only when the minimum of time has passed since the steal.
    stolen-rests :
        (task : Ident) (later : ℕ)
        → after.1.stolen ≡ true
        → after.1.task_id ≡ some task
        → (is_task_straggling mean after.0.0 task later).is_straggler ≡ true
        → now + s.config.min_duration_ms_threshold ≤ later
    stolen-rests task later e names late =
        let (tracking, found, passed, bound) =
          is_task_straggling-bounds after.0.0 task later late in
        let (old, held, kept) = stolen-held task e names in
        let started : tracking.start_time_ms ≡ now = ground arith in
        let min_same = ap (λ c. c.min_duration_ms_threshold) kept in omega arith

    stolen-late :
        (task : Ident)
        → after.1.stolen ≡ true
        → after.1.task_id ≡ some task
        → (is_task_straggling mean s task now).is_straggler ≡ true
    stolen-late task e names = elim (attempt_steal-Attempts mean s thief t now db_now) [
      | off h is ↦ let left : after.1.stolen ≡ false = ap (λ x. x.1.stolen) is in cc
      | idle on h is ↦ let left : after.1.stolen ≡ false = ap (λ x. x.1.stolen) is in cc
      | refused task' tracking on target grounded left named is ↦ cc
      | steals task' tracking on target did is done named victim held count kept ↦
          let same : task' ≡ task = cc in
          subst (λ i. (is_task_straggling mean s i now).is_straggler ≡ true) same
            (second_holds _ _ target.straggles)
    ]

  -- Two steals of one task, whoever the thieves are, are apart by the minimum of time at least: of two
  -- attempts in a row that both steal it, the second is made at least that much later.
  pub attempt_steal-attempt_steal :
      (s : WorkStealer) (thief thief' task : Ident) (t : Table) (now db_now later db_later : ℕ)
      → let first = attempt_steal mean s thief t now db_now in
        let again = attempt_steal mean first.0.0 thief' first.0.1 later db_later in
        (first.1.stolen ≡ true)
        → first.1.task_id ≡ some task
        → again.1.stolen ≡ true
        → again.1.task_id ≡ some task
        → now + s.config.min_duration_ms_threshold ≤ later
  attempt_steal-attempt_steal s thief thief' task t now db_now later db_later e names e' names' =
      let first = attempt_steal mean s thief t now db_now in
      stolen-rests s thief t now db_now task later e names
        (stolen-late first.0.0 thief' first.0.1 later db_later task e' names')
