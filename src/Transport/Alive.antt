-- ===== src/Transport/Alive.antt =====
-- A worker that is alive is kept by the sweep, with its socket and its tasks.
use swarm_x.Common.{
  if◌then◌else◌, ℕ, ◌≡◌, ◌≢◌, refl, sym, ap, subst, ◌∙◌, ◌⊎◌, Bool, true, false, not, ◌&&◌, ◌||◌,
  Option, none, some, List, [], ◌∷◌, arith, ◌==◌, ==_iff, ==_ne, Bool-cases, Option-cases, inl, inr,
}
use swarm_x.Common.Among.{Among}
use swarm_x.Common.Dict.{Dict, get, delete, get-set, get-delete}
use swarm_x.Task.{Ident}
use swarm_x.Store.Rows.{Unique}
use swarm_x.Workers.{WorkerState}
use swarm_x.Transport.{TransportServer, Host}
use swarm_x.Transport.Peers.{open_socket, lose_worker}
use swarm_x.Transport.Messages.{close_socket}
use swarm_x.Transport.Sockets.{
  close_if_open, drop_worker, heartbeat_expired, is_dead, sweep_worker, sweep_all,
}
use swarm_x.Transport.Loss.{tasks_of, lose_worker-get, lose_worker-others, lose_worker-Unique}
use swarm_x.Transport.Sweep.{bereft}

-- A device other than the given one is bound to the socket.
abbrev pub binds_other : Ident → ℕ → Dict ℕ → Bool
binds_other id ws [] = false
binds_other id ws ((j, v) ∷ d) = (v == ws && not (j == id)) || binds_other id ws d

abbrev pub shares_socket : TransportServer → Ident → Bool
shares_socket s id = elim (get id s.worker_sockets) [
  | none ↦ false
  | some ws ↦ binds_other id ws s.worker_sockets
]

pub binds_other-get :
    (id j : Ident) (ws : ℕ) (d : Dict ℕ) → binds_other id ws d ≡ false → get j d ≡ some ws → j ≡ id
binds_other-get id j ws [] alone e = cc
binds_other-get id j ws ((i, v) ∷ d) alone e = elim (Bool-cases (i == j)) [
  | inr later ↦ binds_other-get id j ws d (ground arith) (rw later at e)
  | inl here ↦
      let same : v ≡ ws = ground arith in
      let i_id : (i == id) ≡ true = ground arith in sym ((==_iff i j).0 here) ∙ (==_iff i id).0 i_id
]

close_if_open-workers :
    (s : TransportServer) (o : Option ℕ) → (close_if_open s o).workers ≡ s.workers
close_if_open-workers s none = refl
close_if_open-workers s (some ws) = refl

close_if_open-pipeline :
    (s : TransportServer) (o : Option ℕ) → (close_if_open s o).pipeline ≡ s.pipeline
close_if_open-pipeline s none = refl
close_if_open-pipeline s (some ws) = refl

close_if_open-worker_sockets :
    (s : TransportServer) (o : Option ℕ) → (close_if_open s o).worker_sockets ≡ s.worker_sockets
close_if_open-worker_sockets s none = refl
close_if_open-worker_sockets s (some ws) = refl

drop_worker-get :
    (s : TransportServer) (id : Ident) (now : ℕ) (j : Ident)
    → get j (drop_worker s id now).workers ≡ (if id == j then none else get j s.workers)
drop_worker-get s id now j =
    ap (get j) (close_if_open-workers (bereft s id now) (open_socket s id))
    ∙ lose_worker-get _ id now j

pub open_socket-bound :
    (s : TransportServer) (id : Ident) (ws : ℕ)
    → open_socket s id ≡ some ws
    → get id s.worker_sockets ≡ some ws
open_socket-bound s id ws e = ground arith

close_socket-other :
    (s : TransportServer) (ws ws' : ℕ) (id : Ident)
    → ws' ≢ ws
    → open_socket s id ≡ some ws
    → open_socket (close_socket s ws') id ≡ some ws
close_socket-other s ws ws' id other e = elim (Option-cases (get ws' s.sockets)) [
  | inl missing ↦ ground arith
  | inr (socket, found) ↦
      ground (arith, get-set ws' ws (record socket { is_open = false }) s.sockets)
]

bereft-other :
    (s : TransportServer) (x id : Ident) (now ws : ℕ)
    → x ≢ id
    → open_socket s id ≡ some ws
    → open_socket (bereft s x now) id ≡ some ws
unfolding lose_worker
bereft-other s x id now ws other e = ground (arith, get-delete x id s.worker_sockets)

-- The loss of another worker leaves the socket of a worker open, if the other one is not bound to it.
drop_worker-open_socket :
    (s : TransportServer) (x id : Ident) (now ws : ℕ)
    → x ≢ id
    → open_socket s id ≡ some ws
    → ((j : Ident) → get j s.worker_sockets ≡ some ws → j ≡ id)
    → open_socket (drop_worker s x now) id ≡ some ws
drop_worker-open_socket s x id now ws other e alone = elim (Option-cases (open_socket s x)) [
  | inl closed ↦ rw closed (bereft-other s x id now ws other e)
  | inr (ws', its) ↦
      let apart : ws' ≢ ws =
        λ same. other (alone x (open_socket-bound s x ws' its ∙ ap some same)) in
      rw its
        (close_socket-other (bereft s x now) ws ws' id apart (bereft-other s x id now ws other e))
]

drop_worker-worker_sockets :
    (s : TransportServer) (x : Ident) (now : ℕ) (j : Ident) (ws : ℕ)
    → get j (drop_worker s x now).worker_sockets ≡ some ws
    → get j s.worker_sockets ≡ some ws
unfolding lose_worker
drop_worker-worker_sockets s x now j ws e =
    let e' : get j (delete x s.worker_sockets) ≡ some ws =
      ap (get j) (sym (close_if_open-worker_sockets (bereft s x now) (open_socket s x))) ∙ e in
    ground (arith, get-delete x j s.worker_sockets)

module _ (host : Host) (now : ℕ) (w : WorkerState) (tasks : ℕ) where
  -- The worker is there with its tasks; and it is simulated, or its heartbeat is new and its socket open,
  -- with no other device bound to it.
  pub record Lives (t : TransportServer) : Type 0 where
    pub there : get w.device_id t.workers ≡ some w
    pub unique : Unique t.pipeline.table
    pub has_tasks : tasks_of t w.device_id ≡ tasks
    pub connected :
        (host.is_simulated w.device_id ≡ true)
        ⊎ ((ws : ℕ) × (open_socket t w.device_id ≡ some ws)
            × (heartbeat_expired now w ≡ false)
            × ((j : Ident) → get j t.worker_sockets ≡ some ws → j ≡ w.device_id))

  Lives-alive : (t : TransportServer) → Lives t → is_dead host now t w ≡ false
  Lives-alive t l = elim l.connected [
    | inl simulated ↦ ground arith
    | inr (ws, is_open, recent, alone) ↦ ground arith
  ]

  drop_worker-Lives :
      (t : TransportServer) (x : Ident) → x ≢ w.device_id → Lives t → Lives (drop_worker t x now)
  drop_worker-Lives t x other l =
      let unbound = record t { worker_sockets = delete x t.worker_sockets } in
      let same = close_if_open-pipeline (bereft t x now) (open_socket t x) in
      record {
        there = drop_worker-get t x now w.device_id ∙ rw (==_ne x w.device_id other) l.there;
        unique = rw same (lose_worker-Unique unbound x now l.unique);
        has_tasks =
            rw same (lose_worker-others unbound x now l.unique w.device_id other ∙ l.has_tasks);
        connected = elim l.connected [
          | inl simulated ↦ inl simulated
          | inr (ws, is_open, recent, alone) ↦ inr (
            ws,
            drop_worker-open_socket t x w.device_id now ws other is_open alone,
            recent,
            λ j e. alone j (drop_worker-worker_sockets t x now j ws e),
          )
        ];
      }

  sweep_worker-Lives :
      (x : WorkerState) (t : TransportServer)
      → (x.device_id ≡ w.device_id → x ≡ w)
      → Lives t
      → Lives (sweep_worker host now x t)
  sweep_worker-Lives x t only l = elim (Bool-cases (is_dead host now t x)) [
    | inr alive ↦ rw alive l
    | inl dead ↦
        let other : x.device_id ≢ w.device_id = λ same.
          cc
            (dead, subst (λ v. is_dead host now t v ≡ false) (sym (only same)) (Lives-alive t l)) in
        rw dead (drop_worker-Lives t x.device_id other l)
  ]

  pub sweep_all-Lives :
      (workers : List WorkerState) (t : TransportServer)
      → ((v : WorkerState) → Among v workers → v.device_id ≡ w.device_id → v ≡ w)
      → Lives t
      → Lives (sweep_all host now workers t)
  unfolding sweep_all
  sweep_all-Lives [] t only l = l
  sweep_all-Lives (x ∷ workers) t only l =
      sweep_all-Lives workers (sweep_worker host now x t) (λ v h. only v (inr h))
        (sweep_worker-Lives x t (only x (inl refl)) l)
