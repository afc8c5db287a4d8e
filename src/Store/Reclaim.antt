-- ===== src/Store/Reclaim.antt =====
-- The loops of the recoveries, which read rows first and then update one row at a time, do what one
-- UPDATE of all the rows would do.
use swarm_x.Common.{
  ℕ, ◌+◌, ◌≡◌, ◌≢◌, refl, ap, ◌∙◌, Bool, none, List, [], ◌∷◌, arith, ◌==◌, select, length,
  length-append, Bool-cases, inl, inr, ==_ne, All,
}
use swarm_x.Task.{Ident, Task, Reason}
use swarm_x.Store.Table.{get_task, Table, find_row, update_where}
use swarm_x.Store.Recovery.{Reclaimed, reclaim, reclaim_one, reclaim_rows}
use swarm_x.Store.Rows.{Unique, update_where-missing}

module _ (why : Reason) (max_retries now : ℕ) where
  -- The loop without its two lists.
  abbrev update_each : List Task → Table → Table
  update_each [] t = t
  update_each (seen ∷ rows) t =
      update_each rows
        (update_where (λ row. row.id == seen.id) (reclaim why max_retries now seen) t)

  reclaim_rows-table :
      (rows : List Task) (t : Table) (r : Reclaimed)
      → (reclaim_rows why max_retries now rows (t, r)).0 ≡ update_each rows t
  unfolding reclaim_rows
  reclaim_rows-table [] t r = refl
  reclaim_rows-table (seen ∷ rows) t r =
      reclaim_rows-table rows (reclaim_one why max_retries now seen (t, r)).0
        (reclaim_one why max_retries now seen (t, r)).1

  -- Rows of other ids pass over the first row of a table.
  abbrev Others : Ident → List Task → Type 0
  Others id rows = All (λ row. id ≢ row.id) rows

  update_each-cons :
      (rows : List Task) (row : Task) (t : Table)
      → Others row.id rows
      → update_each rows (row ∷ t) ≡ row ∷ update_each rows t
  update_each-cons [] row t h = refl
  update_each-cons (seen ∷ rows) row t h =
      rw (==_ne row.id seen.id h.0) (update_each-cons rows row _ h.1)

  Others-select :
      (p : Task → Bool) (id : Ident) (t : Table) → find_row id t ≡ none → Others id (select p t)
  Others-select p id [] e = tt
  Others-select p id (row ∷ t) e = elim (Bool-cases (p row)) [
    | inl hit ↦ rw hit (ground arith, Others-select p id t (ground arith))
    | inr miss ↦ rw miss (Others-select p id t (ground arith))
  ]

  -- One UPDATE of the rows that the test picks.
  abbrev pub reclaim_where : (Task → Bool) → Table → Table
  reclaim_where p t = update_where p (λ row. reclaim why max_retries now row row) t

  update_each-select :
      (p : Task → Bool) (t : Table) → Unique t → update_each (select p t) t ≡ reclaim_where p t
  update_each-select p [] u = refl
  update_each-select p (row ∷ t) u = elim (Bool-cases (p row)) [
    | inr miss ↦ rw miss (
        update_each-cons (select p t) row t (Others-select p row.id t u.0)
        ∙ ap (λ rest. row ∷ rest) (update_each-select p t u.1))
    | inl hit ↦
        let new = reclaim why max_retries now row row in
        let first : update_where (λ r. r.id == row.id) (reclaim why max_retries now row) (row ∷ t)
            ≡ new ∷ t =
          ground (
            arith,
            update_where-missing (λ r. r.id == row.id) (reclaim why max_retries now row) row.id t,
          ) in
        rw hit (
          ap (update_each (select p t)) first
          ∙ update_each-cons (select p t) new t (Others-select p row.id t u.0)
          ∙ ap (λ rest. new ∷ rest) (update_each-select p t u.1))
  ]

  pub reclaim_rows-reclaim_where :
      (p : Task → Bool) (t : Table) (r : Reclaimed)
      → Unique t
      → (reclaim_rows why max_retries now (select p t) (t, r)).0 ≡ reclaim_where p t
  reclaim_rows-reclaim_where p t r u =
      reclaim_rows-table (select p t) t r ∙ update_each-select p t u

  -- Every row that was read ends in one of the two lists.
  pub reclaim_rows-count :
      (rows : List Task) (t : Table) (r : Reclaimed)
      → let r' = (reclaim_rows why max_retries now rows (t, r)).1 in
        length r'.recovered + length r'.failed ≡ length rows + length r.recovered + length r.failed
  unfolding reclaim_rows
  reclaim_rows-count [] t r = omega arith
  reclaim_rows-count (seen ∷ rows) t r =
      let (t', r') = reclaim_one why max_retries now seen (t, r) in
      let read = get_task t' seen.id ∷ [] in
      ground (
        arith,
        reclaim_rows-count rows t' r',
        length-append {0} r.recovered read,
        length-append {0} r.failed read,
      )
