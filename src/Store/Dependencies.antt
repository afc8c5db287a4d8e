-- ===== src/Store/Dependencies.antt =====
-- What `areDependenciesSatisfied` counts.
use swarm_x.Common.{
  ℕ, ◌+◌, ◌≤◌, ◌≡◌, ◌↔◌, refl, Bool, true, false, ◌&&◌, none, some, List, [], ◌∷◌, arith,
  if◌then◌else◌, includes, length, All,
}
use native.Mathlib.Decide.{ℕ_discrete}
use swarm_x.Task.{Ident, Task, is_completed}
use swarm_x.Store.Table.{
  Table, find_row, map_row_to_task, count_where, get_task, are_dependencies_satisfied,
}
use swarm_x.Store.Rows.{Unique, get_task-of_row}

-- The table has the task, and it is completed.
abbrev pub has_completed : Table → Ident → Bool
has_completed t d = elim (find_row d t) [ none ↦ false | some row ↦ is_completed row.status ]

-- No id stands twice in a list.
abbrev pub Distinct : List Ident → Type 0
Distinct [] = Unit
Distinct (d ∷ ds) = (includes ds d ≡ false) × Distinct ds

abbrev completed_among : List Ident → Table → ℕ
completed_among ds t = count_where (λ row. includes ds row.id && is_completed row.status) t

-- One more id adds at most one to the count.
count-cons :
    (d : Ident) (ds : List Ident) (t : Table)
    → Unique t
    → completed_among (d ∷ ds) t
      ≡ completed_among ds t + (if includes ds d then 0 else if has_completed t d then 1 else 0)
count-cons d ds [] u = ground arith
count-cons d ds (row ∷ t) u = elim (ℕ_discrete d row.id) [
  | yes same ↦ ground (arith, count-cons d ds t u.1)
  | no other ↦ ground (arith, count-cons d ds t u.1)
]

count-nil : (t : Table) → completed_among [] t ≡ 0
count-nil [] = refl
count-nil (row ∷ t) = count-nil t

count-le : (ds : List Ident) (t : Table) → Unique t → completed_among ds t ≤ length ds
count-le [] t u = omega (arith, count-nil t)
count-le (d ∷ ds) t u = ground (arith, count-cons d ds t u, count-le ds t u)

count-full :
    (ds : List Ident) (t : Table)
    → Unique t
    → (completed_among ds t ≡ length ds) ↔ (Distinct ds × All (λ d. has_completed t d ≡ true) ds)
count-full [] t u = (λ _. (tt, tt), λ _. count-nil t)
count-full (d ∷ ds) t u =
    let (split, join) = count-full ds t u in
    (
      λ e.
          let new : includes ds d ≡ false = ground (arith, count-cons d ds t u, count-le ds t u) in
          let done : has_completed t d ≡ true =
            ground (arith, count-cons d ds t u, count-le ds t u) in
          let (distinct, all) = split (ground (arith, count-cons d ds t u, count-le ds t u)) in
          ((new, distinct), (done, all)),
      λ ((new, distinct), (done, all)).
          let rest = join (distinct, all) in ground (arith, count-cons d ds t u),
    )

-- For a task of a table where no id stands twice, `are_dependencies_satisfied` holds exactly when
-- its list of dependencies has no id twice and every id in it is of a completed task. (A list
-- with a repeated id is never satisfied, since the count is of rows.)
pub are_dependencies_satisfied_iff :
    (t : Table) (id : Ident) (row : Task)
    → Unique t
    → find_row id t ≡ some row
    → (are_dependencies_satisfied t id ≡ true)
      ↔ (Distinct row.dependencies × All (λ d. has_completed t d ≡ true) row.dependencies)
unfolding are_dependencies_satisfied map_row_to_task
are_dependencies_satisfied_iff t id row u found =
    let (split, join) = count-full row.dependencies t u in
    let counts = counted (get_task-of_row t id row found) in
    (λ e. split (counts.0 e), λ h. counts.1 (join h))
  where
    counted :
        get_task t id ≡ some (map_row_to_task row)
        → (are_dependencies_satisfied t id ≡ true)
          ↔ (completed_among row.dependencies t ≡ length row.dependencies)
    counted e = ground (arith, count-le row.dependencies t u)
