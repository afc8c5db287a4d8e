-- ===== src/Transport/Sweep.antt =====
-- The sweep takes out the workers that are dead, with their tasks.
use swarm_x.Common.{
  ℕ, ◌≤◌, ◌≡◌, sym, ap, subst, ◌∙◌, true, false, Option, none, some, List, [], ◌∷◌, arith, ==_refl,
  Bool-cases, Option-cases, inl, inr,
}
use swarm_x.Common.Among.{Among}
use swarm_x.Common.Dict.{get, delete, get-set, get-delete}
use swarm_x.Task.{Ident}
use swarm_x.Store.Rows.{Unique}
use swarm_x.Workers.{WorkerState}
use swarm_x.Transport.{TransportServer, Host}
use swarm_x.Transport.Peers.{open_socket, lose_worker}
use swarm_x.Transport.Messages.{close_socket}
use swarm_x.Transport.Sockets.{close_if_open, drop_worker, is_dead, sweep_worker, sweep_all}
use swarm_x.Transport.Loss.{
  tasks_of, lose_worker-Unique, lose_worker-tasks_of, lose_worker-idle, lose_worker-get,
}

-- Later in a sweep: sockets only close, workers only go, and nobody gets a task.
pub record Shrinks (s t : TransportServer) : Type 0 where
  pub open_before : (id : Ident) (ws : ℕ) → open_socket t id ≡ some ws → open_socket s id ≡ some ws
  pub there_before :
      (id : Ident) (w : WorkerState) → get id t.workers ≡ some w → get id s.workers ≡ some w
  pub unique : Unique s.pipeline.table → Unique t.pipeline.table
  pub fewer : Unique s.pipeline.table → (v : Ident) → tasks_of t v ≤ tasks_of s v

Shrinks-refl : (s : TransportServer) → Shrinks s s
Shrinks-refl s = record {
  open_before = λ id ws e. e;
  there_before = λ id w e. e;
  unique = λ u. u;
  fewer = λ u v. omega arith;
}

Shrinks-trans : (s t r : TransportServer) → Shrinks s t → Shrinks t r → Shrinks s r
Shrinks-trans s t r h k = record {
  open_before = λ id ws e. h.open_before id ws (k.open_before id ws e);
  there_before = λ id w e. h.there_before id w (k.there_before id w e);
  unique = λ u. k.unique (h.unique u);
  fewer = λ u v. omega (arith, h.fewer u v, k.fewer (h.unique u) v);
}

close_socket-open_socket :
    (s : TransportServer) (ws : ℕ) (id : Ident) (ws' : ℕ)
    → open_socket (close_socket s ws) id ≡ some ws'
    → open_socket s id ≡ some ws'
close_socket-open_socket s ws id ws' e = elim (Option-cases (get ws s.sockets)) [
  | inl missing ↦ ground arith
  | inr (socket, found) ↦ elim (Option-cases (get id s.worker_sockets)) [
    | inl unbound ↦ ground arith
    | inr (mine, bound) ↦
        ground (arith, get-set ws mine (record socket { is_open = false }) s.sockets)
  ]
]

close_socket-Shrinks : (s : TransportServer) (ws : ℕ) → Shrinks s (close_socket s ws)
close_socket-Shrinks s ws = record {
  open_before = close_socket-open_socket s ws;
  there_before = λ id w e. e;
  unique = λ u. u;
  fewer = λ u v. omega arith;
}

-- The state after the loss, before the socket is closed.
abbrev pub bereft : TransportServer → Ident → ℕ → TransportServer
bereft s id now = lose_worker (record s { worker_sockets = delete id s.worker_sockets }) id now

bereft-open_socket :
    (s : TransportServer) (id : Ident) (now : ℕ) (j : Ident) (ws : ℕ)
    → open_socket (bereft s id now) j ≡ some ws
    → open_socket s j ≡ some ws
unfolding lose_worker
bereft-open_socket s id now j ws e = ground (arith, get-delete id j s.worker_sockets)

bereft-Shrinks : (s : TransportServer) (id : Ident) (now : ℕ) → Shrinks s (bereft s id now)
bereft-Shrinks s id now =
    let unbound = record s { worker_sockets = delete id s.worker_sockets } in
    record {
      open_before = bereft-open_socket s id now;
      there_before = λ j w e. ground (arith, lose_worker-get unbound id now j);
      unique = λ u. lose_worker-Unique unbound id now u;
      fewer = λ u v. lose_worker-tasks_of unbound id now u v;
    }

close_if_open-Shrinks :
    (s t : TransportServer) (o : Option ℕ) → Shrinks s t → Shrinks s (close_if_open t o)
close_if_open-Shrinks s t none h = h
close_if_open-Shrinks s t (some ws) h =
    Shrinks-trans s t (close_socket t ws) h (close_socket-Shrinks t ws)

drop_worker-Shrinks :
    (s : TransportServer) (id : Ident) (now : ℕ) → Shrinks s (drop_worker s id now)
drop_worker-Shrinks s id now =
    close_if_open-Shrinks s (bereft s id now) (open_socket s id) (bereft-Shrinks s id now)

-- A worker that is dropped is gone, and has no task.
pub record Gone (s : TransportServer) (id : Ident) : Type 0 where
  pub unregistered : get id s.workers ≡ none
  pub idle : tasks_of s id ≡ 0

close_if_open-Gone :
    (t : TransportServer) (o : Option ℕ) (id : Ident) → Gone t id → Gone (close_if_open t o) id
close_if_open-Gone t none id g = g
close_if_open-Gone t (some ws) id g = record { unregistered = g.unregistered; idle = g.idle }

drop_worker-Gone :
    (s : TransportServer) (id : Ident) (now : ℕ)
    → Unique s.pipeline.table
    → Gone (drop_worker s id now) id
drop_worker-Gone s id now u =
    let unbound = record s { worker_sockets = delete id s.worker_sockets } in
    close_if_open-Gone (bereft s id now) (open_socket s id) id (record {
      unregistered = lose_worker-get unbound id now id ∙ rw (==_refl id);
      idle = lose_worker-idle unbound id now u;
    })

Shrinks-Gone :
    (s t : TransportServer) (id : Ident)
    → Unique s.pipeline.table
    → Shrinks s t
    → Gone s id
    → Gone t id
Shrinks-Gone s t id u h g = record {
  unregistered = elim (Option-cases (get id t.workers)) [
    | inl missing ↦ missing
    | inr (w, found) ↦ absurd (cc (g.unregistered, h.there_before id w found))
  ];
  idle = omega (arith, h.fewer u id, g.idle);
}

module _ (host : Host) (now : ℕ) where
  pub is_dead-Shrinks :
      (s t : TransportServer) (w : WorkerState)
      → Shrinks s t
      → is_dead host now s w ≡ true
      → is_dead host now t w ≡ true
  is_dead-Shrinks s t w h dead = elim (Option-cases (open_socket t w.device_id)) [
    | inl closed ↦ ground (arith, closed)
    | inr (ws, here) ↦ ground (arith, here, h.open_before w.device_id ws here)
  ]

  sweep_worker-Shrinks :
      (w : WorkerState) (s : TransportServer) → Shrinks s (sweep_worker host now w s)
  sweep_worker-Shrinks w s = elim (Bool-cases (is_dead host now s w)) [
    | inl dead ↦ rw dead (drop_worker-Shrinks s w.device_id now)
    | inr alive ↦ rw alive (Shrinks-refl s)
  ]

  pub sweep_all-Shrinks :
      (workers : List WorkerState) (s : TransportServer) → Shrinks s (sweep_all host now workers s)
  unfolding sweep_all
  sweep_all-Shrinks [] s = Shrinks-refl s
  sweep_all-Shrinks (w ∷ workers) s =
      Shrinks-trans s (sweep_worker host now w s) _ (sweep_worker-Shrinks w s)
        (sweep_all-Shrinks workers (sweep_worker host now w s))

  sweep_worker-Gone :
      (w : WorkerState) (s : TransportServer)
      → is_dead host now s w ≡ true
      → Unique s.pipeline.table
      → Gone (sweep_worker host now w s) w.device_id
  sweep_worker-Gone w s dead u = rw dead (drop_worker-Gone s w.device_id now u)

  pub sweep_all-Gone :
      (workers : List WorkerState) (s : TransportServer) (w : WorkerState)
      → Among w workers
      → is_dead host now s w ≡ true
      → Unique s.pipeline.table
      → Gone (sweep_all host now workers s) w.device_id
  unfolding sweep_all
  sweep_all-Gone [] s w h dead u = absurd h
  sweep_all-Gone (x ∷ workers) s w (inl e) dead u =
      let one = sweep_worker-Shrinks x s in
      let s' = sweep_worker host now x s in
      let same : x.device_id ≡ w.device_id = ap (λ v. v.device_id) e in
      let dead' : is_dead host now s x ≡ true =
        subst (λ v. is_dead host now s v ≡ true) (sym e) dead in
      subst (Gone (sweep_all host now workers s')) same (
        Shrinks-Gone s' (sweep_all host now workers s') x.device_id (one.unique u)
          (sweep_all-Shrinks workers s') (sweep_worker-Gone x s dead' u))
  sweep_all-Gone (x ∷ workers) s w (inr h) dead u =
      let one = sweep_worker-Shrinks x s in
      sweep_all-Gone workers (sweep_worker host now x s) w h
        (is_dead-Shrinks s (sweep_worker host now x s) w one dead) (one.unique u)
