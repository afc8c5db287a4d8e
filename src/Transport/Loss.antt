-- ===== src/Transport/Loss.antt =====
-- What the loss of one worker leaves: no task of its own in flight, and no other worker with more.
use swarm_x.Common.{
  refl, ◌≢◌, true, ℕ, ◌≤◌, ◌≡◌, sym, subst, Bool, false, none, [], ◌∷◌, arith, if◌then◌else◌, ◌==◌,
}
use swarm_x.Common.Dict.{get, get-delete}
use swarm_x.Task.{Ident, Task, worker_disconnected}
use swarm_x.Store.Table.{Table, update_where, count_where, default_max_retries}
use swarm_x.Store.Ops.{held_by}
use swarm_x.Store.Recovery.{
  recover_worker_loss, nothing_reclaimed, get_active_task_count_for_worker,
}
use swarm_x.Store.Rows.{Unique, Unique-update_where}
use swarm_x.Store.Reclaim.{reclaim_where, reclaim_rows-reclaim_where}
use swarm_x.Store.Recovered.{recover_worker_loss_lem}
use swarm_x.Transport.{TransportServer}
use swarm_x.Transport.Peers.{lose_worker}

-- How many tasks a worker has in flight.
abbrev pub tasks_of : TransportServer → Ident → ℕ
tasks_of s worker = get_active_task_count_for_worker s.pipeline.table worker

count_where-update_where-le :
    (q p : Task → Bool) (f : Task → Task) (t : Table)
    → ((row : Task) → q (f row) ≡ false)
    → count_where q (update_where p f t) ≤ count_where q t
count_where-update_where-le q p f [] clears = omega arith
count_where-update_where-le q p f (row ∷ t) clears =
    ground (arith, clears row, count_where-update_where-le q p f t clears)

count_where-update_where-eq :
    (q p : Task → Bool) (f : Task → Task) (t : Table)
    → ((row : Task) → p row ≡ true → q row ≡ false)
    → ((row : Task) → q (f row) ≡ false)
    → count_where q (update_where p f t) ≡ count_where q t
count_where-update_where-eq q p f [] apart clears = refl
count_where-update_where-eq q p f (row ∷ t) apart clears =
    ground (arith, apart row, clears row, count_where-update_where-eq q p f t apart clears)

held_by-apart :
    (worker v : Ident) (row : Task) → worker ≢ v → held_by worker row ≡ true → held_by v row ≡ false
held_by-apart worker v row other held = ground arith

module _ (s : TransportServer) (worker : Ident) (now : ℕ) (u : Unique s.pipeline.table) where
  abbrev lost : TransportServer
  lost = lose_worker s worker now

  lose_worker-table :
      lost.pipeline.table
      ≡ reclaim_where worker_disconnected default_max_retries now (held_by worker) s.pipeline.table
  unfolding lose_worker recover_worker_loss
  lose_worker-table =
      reclaim_rows-reclaim_where worker_disconnected default_max_retries now (held_by worker)
        s.pipeline.table nothing_reclaimed u

  pub lose_worker-Unique : Unique lost.pipeline.table
  lose_worker-Unique =
      subst Unique (sym lose_worker-table)
        (Unique-update_where (held_by worker) _ (λ row. ground arith) s.pipeline.table u)

  pub lose_worker-tasks_of : (v : Ident) → tasks_of lost v ≤ tasks_of s v
  unfolding get_active_task_count_for_worker
  lose_worker-tasks_of v =
      subst (λ t. count_where (held_by v) t ≤ count_where (held_by v) s.pipeline.table)
        (sym lose_worker-table)
        (count_where-update_where-le (held_by v) (held_by worker) _ s.pipeline.table
          (λ row. ground arith))

  -- The tasks of another worker stay with it.
  pub lose_worker-others : (v : Ident) → worker ≢ v → tasks_of lost v ≡ tasks_of s v
  unfolding get_active_task_count_for_worker
  lose_worker-others v other =
      subst (λ t. count_where (held_by v) t ≡ count_where (held_by v) s.pipeline.table)
        (sym lose_worker-table)
        (count_where-update_where-eq (held_by v) (held_by worker) _ s.pipeline.table
          (λ row held. held_by-apart worker v row other held) (λ row. ground arith))

  pub lose_worker-idle : tasks_of lost worker ≡ 0
  unfolding lose_worker
  lose_worker-idle = (recover_worker_loss_lem s.pipeline.table default_max_retries now u worker).0

pub lose_worker-get :
    (s : TransportServer) (worker : Ident) (now : ℕ) (j : Ident)
    → get j (lose_worker s worker now).workers ≡ (if worker == j then none else get j s.workers)
unfolding lose_worker
lose_worker-get s worker now j = get-delete worker j s.workers
