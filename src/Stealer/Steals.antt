-- ===== src/Stealer/Steals.antt =====
-- `attemptSteal` keeps its promise, and what follows for the next attempts.
use swarm_x.Common.{
  ℕ, true, false, some, none, List, [], ◌∷◌, ◌≡◌, refl, sym, subst, ap, ◌∙◌, ◌⊎◌, inl, inr, arith,
  Bool-cases,
}
use swarm_x.Common.Among.{Among}
use swarm_x.Common.Dict.{set, get, get-set}
use swarm_x.Common.Sorting.Descending.{sort_down, sort_down-nil}
use swarm_x.Task.{Ident}
use swarm_x.Store.Table.{Table, default_lease_duration_ms}
use swarm_x.Store.Stolen.{did_take, is_missing, is_settled, steal_task_ends}
use swarm_x.Stealer.{is_disabled, WorkStealer, InFlightTaskTracking, StealResult}
use swarm_x.Stealer.Steal.{
  not_stolen, StragglerCandidate, attempt_steal, steal_first, after_steal, by_elapsed,
}
use swarm_x.Stealer.Attempts.{
  Attempts, off, idle, steals, refused, Target, entry, listed, stealable, head-Target,
  Among-straggler_candidates,
}

List-cases :
    (cs : List StragglerCandidate)
    → (cs ≡ []) ⊎ ((c : StragglerCandidate) × (ds : List StragglerCandidate) × (cs ≡ c ∷ ds))
List-cases [] = inl refl
List-cases (c ∷ ds) = inr (c, ds, refl)

module _ (mean : ℕ → ℕ → ℕ) (s : WorkStealer) (thief : Ident) (t : Table) (now db_now : ℕ) where
  abbrev Promise : (WorkStealer × Table) × StealResult → Type 0
  Promise = Attempts mean s thief t now db_now

  abbrev sorted : List StragglerCandidate
  sorted = sort_down by_elapsed (listed mean s thief t now db_now s.in_flight_tasks)

  none_stealable :
      listed mean s thief t now db_now s.in_flight_tasks ≡ []
      → (task : Ident) (tracking : InFlightTaskTracking) → Among (task, tracking) s.in_flight_tasks
      → stealable mean s thief t now db_now task tracking ≡ false
  none_stealable e task tracking there =
      elim (Bool-cases (stealable mean s thief t now db_now task tracking)) [
        | inr miss ↦ miss
        | inl hit ↦ absurd (
            subst (Among (entry mean s thief t now db_now task tracking)) e (
              Among-straggler_candidates mean s thief t now db_now task tracking s.in_flight_tasks
                there hit))
      ]

  tracked :
      (task : Ident) (tracking : InFlightTaskTracking)
      → get task (set task tracking s.in_flight_tasks) ≡ some tracking
  tracked task tracking = ground (arith, get-set task task tracking s.in_flight_tasks)

  -- The steal of a target.
  steal_first-Target :
      (task : Ident) (tracking : InFlightTaskTracking) (others : List StragglerCandidate)
      → s.config.enable_work_stealing ≡ true
      → Target mean s thief t now db_now task tracking
      → Promise (
          steal_first mean s thief t now db_now
            (entry mean s thief t now db_now task tracking ∷ others))
  unfolding steal_first after_steal
  steal_first-Target task tracking others enabled target =
      elim (steal_task_ends t task thief default_lease_duration_ms db_now) [
        | did_take r e now_reads did ↦ rw e (
            steals task tracking enabled target did (sym now_reads) refl refl refl (tracked task _)
              refl refl)
        | is_missing e same grounded ↦
            rw (e, same) (refused task tracking enabled target grounded refl refl refl)
        | is_settled row e same grounded ↦
            rw (e, same) (refused task tracking enabled target grounded refl refl refl)
      ]

  abbrev from : List StragglerCandidate → (WorkStealer × Table) × StealResult
  from = steal_first mean s thief t now db_now

  attempt_steal-on :
      s.config.enable_work_stealing ≡ true → attempt_steal mean s thief t now db_now ≡ from sorted
  unfolding attempt_steal
  attempt_steal-on e = ground arith

  attempt_steal-off :
      s.config.enable_work_stealing ≡ false
      → attempt_steal mean s thief t now db_now ≡ ((s, t), not_stolen none is_disabled)
  unfolding attempt_steal
  attempt_steal-off e = ground arith

  steal_first-Promise : s.config.enable_work_stealing ≡ true → Promise (from sorted)
  unfolding steal_first
  steal_first-Promise enabled = elim (List-cases sorted) [
    | inl e ↦
        let nothing : from sorted ≡ from [] = ap from e in
        idle enabled (none_stealable (sort_down-nil by_elapsed _ e)) nothing
    | inr (top, others, e) ↦
        let (task, tracking, target, same) = head-Target mean s thief t now db_now top others e in
        subst Promise (sym (ap from e ∙ ap (λ c. from (c ∷ others)) same))
          (steal_first-Target task tracking others enabled target)
  ]

  -- An attempt does nothing where stealing is off, or where no other worker's task straggles. Else it picks
  -- such a task that has waited longest; if the store finds it in flight, the store's row and the
  -- tracking have the thief for its worker; if not, neither the store nor the tracking changes.
  pub attempt_steal-Attempts : Promise (attempt_steal mean s thief t now db_now)
  attempt_steal-Attempts = elim (Bool-cases s.config.enable_work_stealing) [
    | inl enabled ↦ subst Promise (sym (attempt_steal-on enabled)) (steal_first-Promise enabled)
    | inr disabled ↦ off disabled (attempt_steal-off disabled)
  ]
