-- ===== src/Store/Rows.antt =====
-- What the statements do to the rows: lookups, counts and predicates after an UPDATE.
use swarm_x.Common.{
  ◌≡◌, refl, sym, subst, inl, inr, Bool, true, false, ◌&&◌, Option, none, some, [], ◌∷◌, arith,
  Bool-cases, Option-cases, ◌==◌, if◌then◌else◌, All,
}
use native.Mathlib.Decide.{ℕ_discrete}
use swarm_x.Task.{Ident, Task}
use swarm_x.Store.Table.{Table, find_row, update_where, count_where, get_task, map_row_to_task}

-- The primary key: no two rows have one id.
abbrev pub Unique : Table → Type 0
Unique [] = Unit
Unique (row ∷ t) = (find_row row.id t ≡ none) × Unique t

-- An UPDATE that leaves the column `id` alone.
abbrev pub KeepsId : (Task → Task) → Type 0
KeepsId f = (row : Task) → (f row).id ≡ row.id

-- A row after an UPDATE.
abbrev pub updated : (Task → Bool) → (Task → Task) → Option Task → Option Task
updated p f none = none
updated p f (some row) = some (if p row then f row else row)

module _ (p : Task → Bool) (f : Task → Task) (keeps : KeepsId f) where
  pub find_row-update_where :
      (id : Ident) (t : Table) → find_row id (update_where p f t) ≡ updated p f (find_row id t)
  find_row-update_where id [] = refl
  find_row-update_where id (row ∷ t) = ground (arith, keeps row, find_row-update_where id t)

  pub Unique-update_where : (t : Table) → Unique t → Unique (update_where p f t)
  Unique-update_where [] h = tt
  Unique-update_where (row ∷ t) h =
      (ground (arith, keeps row, find_row-update_where row.id t), Unique-update_where t h.1)

pub All-update_where {ℓ} :
    (P : Task → Type ℓ) (p : Task → Bool) (f : Task → Task) (t : Table)
    → ((row : Task) → P row → p row ≡ true → P (f row))
    → All P t
    → All P (update_where p f t)
All-update_where P p f [] step h = tt
All-update_where P p f (row ∷ t) step h = (
  elim (Bool-cases (p row)) [ inl hit ↦ rw hit (step row h.0 hit) | inr miss ↦ rw miss h.0 ],
  All-update_where P p f t step h.1,
)

pub All-find_row {ℓ} :
    (P : Task → Type ℓ) (id : Ident) (t : Table) {row : Task}
    → All P t
    → find_row id t ≡ some row
    → P row
All-find_row P id [] h e = cc
All-find_row P id (r ∷ t) {row} h e = elim (Bool-cases (r.id == id)) [
  | inl hit ↦ let same : r ≡ row = ground arith in subst P same h.0
  | inr miss ↦ All-find_row P id t h.1 (rw miss at e)
]

pub find_row-id : (id : Ident) (t : Table) (row : Task) → find_row id t ≡ some row → row.id ≡ id
find_row-id id [] row e = cc
find_row-id id (r ∷ t) row e = ground (arith, find_row-id id t row)

-- In a table with a primary key the count of a row's test is at most 1, and 1 if the row has it.
pub count_where-id :
    (q : Task → Bool) (id : Ident) (t : Table) (row : Task)
    → find_row id t ≡ some row
    → q row ≡ true
    → (count_where (λ r. r.id == id && q r) t == 0) ≡ false
count_where-id q id [] row e h = cc
count_where-id q id (r ∷ t) row e h = ground (arith, count_where-id q id t row)

-- `getTask` reads the row that the table has.
pub get_task-eq-some :
    (t : Table) (id : Ident) (task : Task)
    → get_task t id ≡ some task
    → (row : Task) × (find_row id t ≡ some row) × (task ≡ map_row_to_task row)
unfolding get_task
get_task-eq-some t id task e = elim (Option-cases (find_row id t)) [
  | inl no_row ↦ ground arith
  | inr (row, found) ↦ (row, found, ground arith)
]

pub get_task-of_row :
    (t : Table) (id : Ident) (row : Task)
    → find_row id t ≡ some row
    → get_task t id ≡ some (map_row_to_task row)
unfolding get_task
get_task-of_row t id row e = ground arith

-- An UPDATE of one id: the test picks rows of that id only.
abbrev pub OnlyId : Ident → (Task → Bool) → Type 0
OnlyId id p = (row : Task) → p row ≡ true → row.id ≡ id

pub update_where-missing :
    (p : Task → Bool) (f : Task → Task) (id : Ident) (t : Table)
    → OnlyId id p
    → find_row id t ≡ none
    → update_where p f t ≡ t
update_where-missing p f id [] only e = refl
update_where-missing p f id (row ∷ t) only e =
    ground (arith, only row, update_where-missing p f id t)

-- In a table with a primary key such an UPDATE changes the row that `getTask` reads and no other.
pub All-update_one {ℓ} :
    (P : Task → Type ℓ) (p : Task → Bool) (f : Task → Task) (id : Ident) (t : Table) (found : Task)
    → Unique t
    → OnlyId id p
    → find_row id t ≡ some found
    → (P found → p found ≡ true → P (f found))
    → All P t
    → All P (update_where p f t)
All-update_one P p f id [] found u only e step h = tt
All-update_one P p f id (row ∷ t) found u only e step h = elim (ℕ_discrete row.id id) [
  | yes named ↦
      let same : row ≡ found = ground arith in
      let rest : update_where p f t ≡ t =
        update_where-missing p f id t only (subst (λ i. find_row i t ≡ none) named u.0) in
      (
        subst (λ r. P (if p r then f r else r)) (sym same) (kept (subst P same h.0)),
        subst (All P) (sym rest) h.1,
      )
  | no other ↦
      let miss : p row ≡ false = ground (arith, only row) in
      (rw miss h.0, All-update_one P p f id t found u.1 only (ground arith) step h.1)
]
  where
    kept : P found → P (if p found then f found else found)
    kept good = elim (Bool-cases (p found)) [
      | inl hit ↦ rw hit (step good hit)
      | inr miss ↦ rw miss good
    ]
