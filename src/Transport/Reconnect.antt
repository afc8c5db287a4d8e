-- ===== src/Transport/Reconnect.antt =====
-- What the end of a connection does to the worker that has another.
use swarm_x.Common.{ℕ, ◌≡◌, ◌≢◌, refl, sym, ap, subst, ◌∙◌, false, none, some, ◌==◌, ==_refl, ==_ne}
use swarm_x.Common.Dict.{get}
use swarm_x.Task.{Ident}
use swarm_x.Store.Rows.{Unique}
use swarm_x.Transport.{TransportServer}
use swarm_x.Transport.Peers.{open_socket, lose_worker}
use swarm_x.Transport.Messages.{device_of}
use swarm_x.Transport.Sockets.{is_current, end_connection, on_close}
use swarm_x.Transport.Loss.{tasks_of, lose_worker-idle, lose_worker-get}

lose_worker-open_socket :
    (s : TransportServer) (worker : Ident) (now : ℕ) (j : Ident)
    → open_socket (lose_worker s worker now) j ≡ open_socket s j
unfolding lose_worker
lose_worker-open_socket s worker now j = refl

end_connection-replaced :
    (s : TransportServer) (ws newer now : ℕ) (device : Ident)
    → device ≢ 0
    → get device s.worker_sockets ≡ some newer
    → newer ≢ ws
    → end_connection s ws device now ≡ lose_worker s device now
unfolding end_connection
end_connection-replaced s ws newer now device real bound other =
    let a : (device == 0) ≡ false = ==_ne device 0 real in
    let b : is_current (get device s.worker_sockets) ws ≡ false =
      subst (λ o. is_current o ws ≡ false) (sym bound) (==_ne newer ws other) in
    rw (a, b)

-- The end of a connection that a newer one of the same device has replaced.
on_close-replaced :
    (s : TransportServer) (ws newer now : ℕ) (device : Ident)
    → device_of s ws ≡ device
    → device ≢ 0
    → get device s.worker_sockets ≡ some newer
    → newer ≢ ws
    → on_close s ws now ≡ lose_worker s device now
unfolding on_close
on_close-replaced s ws newer now device named real bound other =
    ap (λ d. end_connection s ws d now) named
    ∙ end_connection-replaced s ws newer now device real bound other

-- When a device has connected anew, the end of its older connection leaves the socket of the newer one
-- as it is, and yet the device is not registered afterwards and no task is in flight with it.
pub on_close-newer :
    (s : TransportServer) (ws newer now : ℕ) (device : Ident)
    → device_of s ws ≡ device
    → device ≢ 0
    → get device s.worker_sockets ≡ some newer
    → newer ≢ ws
    → Unique s.pipeline.table
    → let s' = on_close s ws now in
      (open_socket s' device ≡ open_socket s device)
      × (get device s'.workers ≡ none)
      × (tasks_of s' device ≡ 0)
on_close-newer s ws newer now device named real bound other u =
    rw (on_close-replaced s ws newer now device named real bound other) (
      lose_worker-open_socket s device now device,
      lose_worker-get s device now device ∙ rw (==_refl device),
      lose_worker-idle s device now u,
    )
