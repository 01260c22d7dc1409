-- ===== src/Tests/Sockets.antt =====
-- The server on a Unix socket, on a machine with one path.
use ubt_exex.Common.{
  Bool, true, false, ℕ, List, [], ◌∷◌, ◌++◌, ◌≡◌, refl, Foreign, done, failed, Option,
}
use ubt_exex.RpcServer.{
  Net, Event, accepted, accept_failed, stopped, run_ipc_server, ipc, http, start_rpc_servers,
}
use ubt_exex.RpcServer.Serving.{HasSockets, connections, run_ipc_server-Served}

abbrev bind_at : Bool → Foreign (Unit {0}) × Bool
bind_at true = (failed "Address already in use", true)
bind_at false = (done tt, true)

-- The state of the machine is whether a file stands at the path.
abbrev one_path : Net
one_path = record {
  World = Bool;
  Listener = Unit {0};
  Stream = ℕ;
  HttpServer = Unit {0};
  Methods = Unit {0};
  Service = Unit {0};
  exists = λ p w. w;
  remove_file = λ p w. (done tt, false);
  bind = λ p w. bind_at w;
  build_service = λ m. m;
  build_http = λ a w. (done tt, w);
  serve_http = λ s m w. w;
}

abbrev one_path-HasSockets : HasSockets one_path
one_path-HasSockets = record {
  Allowed = λ p w. Unit {0};
  remove_works = λ p w _ _. (false, (refl, (refl, tt)));
  bind_works = λ p w _ h. rw h (tt, true, refl);
}

abbrev before : List (Event ℕ)
before = accepted 1 ∷ accept_failed "too many open files" ∷ accepted 2 ∷ []

run_ipc_server-Served_example :
    (run_ipc_server one_path "/tmp/ubt.ipc" tt (before ++ stopped ∷ accepted 3 ∷ []) true).0
    ≡ done (record { served = connections tt before; over = true })
run_ipc_server-Served_example =
    run_ipc_server-Served one_path one_path-HasSockets "/tmp/ubt.ipc" tt before (accepted 3 ∷ [])
      true tt (tt, (tt, (tt, tt)))

both_started :
    start_rpc_servers one_path tt
      (record { http_addr = Option.some "127.0.0.1:9845"; ipc_path = Option.some "/tmp/ubt.ipc" })
    ≡ (ipc "/tmp/ubt.ipc" tt ∷ http "127.0.0.1:9845" tt ∷ [])
unfolding start_rpc_servers
both_started = refl
