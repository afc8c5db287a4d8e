-- ===== src/Transport/Watchdog.antt =====
-- What `sweepDeadWorkers` promises.
use swarm_x.Common.{
  Option-cases, sym, ℕ, ◌≡◌, ap, subst, Bool, true, false, not, ◌&&◌, ◌||◌, none, some, [], ◌∷◌,
  arith, ◌==◌, ==_iff, ==_refl, Bool-cases, inl, inr, ltb,
}
use swarm_x.Common.Among.{Among}
use swarm_x.Common.Dict.{Dict, get, values}
use swarm_x.Task.{Ident}
use swarm_x.Store.Rows.{Unique}
use swarm_x.Workers.{WorkerState}
use swarm_x.Transport.{TransportServer, Host}
use swarm_x.Transport.Peers.{open_socket}
use swarm_x.Transport.Sockets.{is_dead, sweep_all, sweep_dead_workers}
use swarm_x.Transport.Loss.{tasks_of}
use swarm_x.Transport.Alive.{
  Lives, shares_socket, binds_other-get, sweep_all-Lives, open_socket-bound,
}
use swarm_x.Transport.Sweep.{Gone, sweep_all-Gone}

-- Each worker stands once, under its own identifier.
abbrev pub Named : Dict WorkerState → Type 0
Named [] = Unit
Named ((id, w) ∷ d) = (w.device_id ≡ id) × (get id d ≡ none) × Named d

get-Among :
    (d : Dict WorkerState) (id : Ident) (w : WorkerState) → get id d ≡ some w → Among w (values d)
get-Among [] id w e = cc
get-Among ((j, v) ∷ d) id w e = elim (Bool-cases (j == id)) [
  | inl here ↦ inl (ground arith)
  | inr later ↦ inr (get-Among d id w (rw later at e))
]

Among-get :
    (d : Dict WorkerState) (v : WorkerState)
    → Named d
    → Among v (values d)
    → get v.device_id d ≡ some v
Among-get [] v n h = absurd h
Among-get ((j, x) ∷ d) v (named, fresh, n) (inl e) =
    subst (λ y. get y.device_id ((j, x) ∷ d) ≡ some y) e (rw (named, ==_refl j))
Among-get ((j, x) ∷ d) v (named, fresh, n) (inr h) = elim (Bool-cases (j == v.device_id)) [
  | inr other ↦ rw other (Among-get d v n h)
  | inl same ↦
      let here = Among-get d v n h in absurd (cc (fresh, here, (==_iff j v.device_id).0 same))
]

get-Named :
    (d : Dict WorkerState) (id : Ident) (w : WorkerState)
    → Named d
    → get id d ≡ some w
    → w.device_id ≡ id
get-Named [] id w n e = cc
get-Named ((j, v) ∷ d) id w (named, fresh, n) e = elim (Bool-cases (j == id)) [
  | inr later ↦ get-Named d id w n (rw later at e)
  | inl here ↦ ground arith
]

abbrev pub is_registered : TransportServer → Ident → Bool
is_registered s id = elim (get id s.workers) [ none ↦ false | some w ↦ true ]

not_registered_idle :
    (s : TransportServer) (id : Ident) (dead : Bool)
    → get id s.workers ≡ none
    → tasks_of s id ≡ 0
    → (dead && (is_registered s id || ltb 0 (tasks_of s id))) ≡ false
not_registered_idle s id dead e idle = ground arith

kept_registered :
    (t s : TransportServer) (id : Ident) (w : WorkerState) (alive alone : Bool)
    → get id t.workers ≡ some w
    → tasks_of t id ≡ tasks_of s id
    → (alive && alone && not (is_registered t id && tasks_of t id == tasks_of s id)) ≡ false
kept_registered t s id w alive alone e same = ground (arith, ==_refl (tasks_of s id))

-- A worker that is alive, with a socket of its own.
alive_Lives :
    (host : Host) (now : ℕ) (s : TransportServer) (id : Ident) (w : WorkerState)
    → Unique s.pipeline.table
    → get id s.workers ≡ some w
    → w.device_id ≡ id
    → is_dead host now s w ≡ false
    → shares_socket s id ≡ false
    → Lives host now w (tasks_of s id) s
alive_Lives host now s id w u found same alive alone =
    let alone' : shares_socket s w.device_id ≡ false =
      subst (λ i. shares_socket s i ≡ false) (sym same) alone in
    record {
      there = subst (λ i. get i s.workers ≡ some w) (sym same) found;
      unique = u;
      has_tasks = ap (tasks_of s) same;
      connected = elim (Bool-cases (host.is_simulated w.device_id)) [
        | inl simulated ↦ inl simulated
        | inr real ↦ elim (Option-cases (open_socket s w.device_id)) [
          | inl closed ↦ ground (arith, real, closed)
          | inr (ws, is_open) ↦ inr (
            ws,
            is_open,
            ground (arith, real, is_open),
            λ j e.
                binds_other-get w.device_id j ws s.worker_sockets
                  (rw (open_socket-bound s w.device_id ws is_open, shares_socket) at alone') e,
          )
        ]
      ];
    }

module _ (host : Host) (now : ℕ) (s : TransportServer) (id : Ident) (w : WorkerState)
    (u : Unique s.pipeline.table) (named : Named s.workers)
    (found : get id s.workers ≡ some w) where
  abbrev swept : TransportServer
  swept = sweep_all host now (values s.workers) s

  swept_dead :
      (is_dead host now s w && (is_registered swept id || ltb 0 (tasks_of swept id))) ≡ false
  swept_dead = elim (Bool-cases (is_dead host now s w)) [
    | inr alive ↦ rw alive
    | inl dead ↦
        let gone = subst (Gone swept) (get-Named s.workers id w named found) (
          sweep_all-Gone host now (values s.workers) s w (get-Among s.workers id w found) dead u) in
        not_registered_idle swept id (is_dead host now s w) gone.unregistered gone.idle
  ]

  -- Registered, with the given number of tasks.
  swept_alive :
      (not (is_dead host now s w)
        && not (shares_socket s id)
        && not (is_registered swept id && tasks_of swept id == tasks_of s id))
      ≡ false
  swept_alive = elim (Bool-cases (is_dead host now s w)) [
    | inl dead ↦ rw dead
    | inr alive ↦ elim (Bool-cases (shares_socket s id)) [
      | inl shares ↦ rw (alive, shares)
      | inr alone ↦
          let same = get-Named s.workers id w named found in
          let l0 = alive_Lives host now s id w u found same alive alone in
          let only : (v : WorkerState)
              → Among v (values s.workers)
              → v.device_id ≡ w.device_id
              → v ≡ w =
            λ v h its. cc (Among-get s.workers v named h, found, same, its) in
          let l = sweep_all-Lives host now w (tasks_of s id) (values s.workers) s only l0 in
          kept_registered swept s id w (not (is_dead host now s w)) (not (shares_socket s id))
            (subst (λ i. get i swept.workers ≡ some w) same l.there)
            (subst (λ i. tasks_of swept i ≡ tasks_of s id) same l.has_tasks)
    ]
  ]

-- After a sweep, a worker that was dead before it, for it is not simulated and had no open socket or no
-- heartbeat for more than ten seconds, is not registered and has no task in flight; a worker that
-- was alive before it is registered, and has as many tasks in flight as before, if no other device
-- is bound to its socket. The rows of the table have distinct identifiers, and each worker stands
-- once, under its own.
pub sweep_dead_workers_lem :
    (host : Host) (now : ℕ) (s : TransportServer) (id : Ident) (w : WorkerState)
    → Unique s.pipeline.table
    → Named s.workers
    → get id s.workers ≡ some w
    → let s' = sweep_dead_workers host now s in
      ((is_dead host now s w && (is_registered s' id || ltb 0 (tasks_of s' id))) ≡ false)
      × ((not (is_dead host now s w)
            && not (shares_socket s id)
            && not (is_registered s' id && tasks_of s' id == tasks_of s id))
          ≡ false)
unfolding sweep_dead_workers
sweep_dead_workers_lem host now s id w u named found =
    (swept_dead host now s id w u named found, swept_alive host now s id w u named found)
