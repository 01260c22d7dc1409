-- ===== src/RpcServer/Serving.antt =====
-- `run_ipc_server` of src/rpc_server.rs: a stale socket, accepts that fail, and the stop signal.
use ubt_exex.Common.{
  true, false, List, [], ◌∷◌, ◌++◌, String, ◌≡◌, refl, ap, Foreign, done, All, Bool-cases, inl, inr,
}
use ubt_exex.RpcServer.{
  Net, Event, accepted, accept_failed, stopped, Run, accept_loop, serve_on, listen, run_ipc_server,
}

-- The connections among some events, each with the service that answers it.
unfoldable pub connections : {A B : Type 0} → A → List (Event B) → List (A × B)
connections a [] = []
connections a (accepted s ∷ es) = (a, s) ∷ connections a es
connections a (accept_failed e ∷ es) = connections a es
connections a (stopped ∷ es) = connections a es

abbrev pub NotStopped : {B : Type 0} → Event B → Type 0
NotStopped (accepted s) = Unit {0}
NotStopped (accept_failed e) = Unit {0}
NotStopped stopped = ⊥

-- A process may make and remove sockets at some paths: removing a file there works and leaves the
-- path without a file, and binding works where there is no file.
pub record HasSockets (N : Net) : Type 1 where
  pub Allowed : String → N.World → Type 0
  pub remove_works :
      (p : String) (w : N.World)
      → Allowed p w
      → N.exists p w ≡ true
      → (w' : N.World) × ((N.remove_file p w ≡ (done tt, w'))
          × ((N.exists p w' ≡ false) × Allowed p w'))
  pub bind_works :
      (p : String) (w : N.World)
      → Allowed p w
      → N.exists p w ≡ false
      → (l : N.Listener) × (w' : N.World) × (N.bind p w ≡ (done l, w'))

module _ (N : Net) where
  accept_loop-stopped :
      (svc : N.Service) (before after : List (Event N.Stream))
      → All NotStopped before
      → accept_loop N svc (before ++ stopped ∷ after)
        ≡ record { served = connections svc before; over = true }
  unfolding accept_loop connections
  accept_loop-stopped svc [] after h = refl
  accept_loop-stopped svc (accepted s ∷ es) after h = rw (accept_loop-stopped svc es after h.1) refl
  accept_loop-stopped svc (accept_failed e ∷ es) after h = accept_loop-stopped svc es after h.1
  accept_loop-stopped svc (stopped ∷ es) after h = absurd h.0

  module _ (laws : HasSockets N) where
    open laws use {Allowed}

    abbrev Served : N.Methods → List (Event N.Stream) → Foreign (Run N.Service N.Stream) → Type 0
    Served methods before r =
        r ≡ done (record { served = connections (N.build_service methods) before; over = true })

    listen-Served :
        (p : String) (methods : N.Methods) (before after : List (Event N.Stream)) (w : N.World)
        → Allowed p w
        → N.exists p w ≡ false
        → All NotStopped before
        → Served methods before (listen N p methods (before ++ stopped ∷ after) (done tt, w)).0
    unfolding listen serve_on
    listen-Served p methods before after w may empty h =
        let b : (l : N.Listener) × (w' : N.World) × (N.bind p w ≡ (done l, w')) =
          laws.bind_works p w may empty in
        rw (b.2) (ap done (accept_loop-stopped (N.build_service methods) before after h))

    -- At a path where the process may make and remove sockets, whether a stale file stands there
    -- or not: if the stop signal comes, the server ends without an error, and it has handed the
    -- service each connection that it accepted before the signal, in order, whatever accepts
    -- failed in between.
    pub run_ipc_server-Served :
        (p : String) (methods : N.Methods) (before after : List (Event N.Stream)) (w : N.World)
        → Allowed p w
        → All NotStopped before
        → Served methods before (run_ipc_server N p methods (before ++ stopped ∷ after) w).0
    unfolding run_ipc_server
    run_ipc_server-Served p methods before after w may h = elim (Bool-cases (N.exists p w)) [
      | inl stale ↦
          let r : (w' : N.World) × ((N.remove_file p w ≡ (done tt, w'))
                × ((N.exists p w' ≡ false) × Allowed p w')) =
            laws.remove_works p w may stale in
          rw (stale, r.1.0) (listen-Served p methods before after r.0 r.1.1.1 r.1.1.0 h)
      | inr empty ↦ rw empty (listen-Served p methods before after w may empty h)
    ]
