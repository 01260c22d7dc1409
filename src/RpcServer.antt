-- ===== src/RpcServer.antt =====
-- src/rpc_server.rs: which servers are started, and the server on a Unix socket. Files, sockets and
-- the services of jsonrpsee are outside the repository, so they are parameters, and so is the order
-- in which `tokio::select!` sees connections and the stop signal.
pub mod Serving
use ubt_exex.Common.{
  Bool, true, false, Option, none, some, List, [], ◌∷◌, ◌++◌, String, Foreign, done, failed,
  if◌then◌else◌,
}

pub record RpcServerConfig : Type 0 where
  pub http_addr : Option String
  pub ipc_path : Option String

pub record Net : Type 1 where
  -- the files and sockets of the machine
  pub World : Type 0
  pub Listener : Type 0
  pub Stream : Type 0
  pub HttpServer : Type 0
  pub Methods : Type 0
  pub Service : Type 0
  pub exists : String → World → Bool
  pub remove_file : String → World → Foreign (Unit {0}) × World
  pub bind : String → World → Foreign Listener × World
  pub build_service : Methods → Service
  pub build_http : String → World → Foreign HttpServer × World
  -- `server.start(methods)`, and the wait until the server has stopped
  pub serve_http : HttpServer → Methods → World → World

-- What one round of the loop waits for.
pub data Event (Stream : Type 0) : Type 0 where
  accepted : Stream → Event Stream
  accept_failed : String → Event Stream
  stopped : Event Stream

-- The connections handed to tasks of their own, and whether the loop has ended.
pub record Run (Service Stream : Type 0) : Type 0 where
  pub served : List (Service × Stream)
  pub over : Bool

pub data Task (Methods : Type 0) : Type 0 where
  ipc : String → Methods → Task Methods
  http : String → Methods → Task Methods

module _ (N : Net) where
  open N use {World, Stream, Service, Methods}

  unfoldable pub accept_loop : Service → List (Event Stream) → Run Service Stream
  accept_loop svc [] = record { served = []; over = false }
  accept_loop svc (accepted s ∷ es) =
      let rest : Run Service Stream = accept_loop svc es in
      record { served = (svc, s) ∷ rest.served; over = rest.over }
  accept_loop svc (accept_failed e ∷ es) = accept_loop svc es
  accept_loop svc (stopped ∷ es) = record { served = []; over = true }

  unfoldable pub serve_on :
      Methods
      → List (Event Stream)
      → Foreign N.Listener × World
      → Foreign (Run Service Stream) × World
  unfolding accept_loop
  serve_on methods events (done listener, w) =
      (done (accept_loop (N.build_service methods) events), w)
  serve_on methods events (failed e, w) = (failed e, w)

  unfoldable pub listen :
      String
      → Methods
      → List (Event Stream)
      → Foreign (Unit {0}) × World
      → Foreign (Run Service Stream) × World
  unfolding serve_on
  listen path methods events (done u, w) = serve_on methods events (N.bind path w)
  listen path methods events (failed e, w) = (failed e, w)

  unfoldable pub run_ipc_server :
      String → Methods → List (Event Stream) → World → Foreign (Run Service Stream) × World
  unfolding listen
  run_ipc_server path methods events w =
      listen path methods events (if N.exists path w then N.remove_file path w else (done tt, w))

  unfoldable pub serve_built : Methods → Foreign N.HttpServer × World → Foreign (Unit {0}) × World
  serve_built methods (done server, w) = (done tt, N.serve_http server methods w)
  serve_built methods (failed e, w) = (failed e, w)

  unfoldable pub run_http_server : String → Methods → World → Foreign (Unit {0}) × World
  unfolding serve_built
  run_http_server addr methods w = serve_built methods (N.build_http addr w)

  -- The tasks that are spawned, in order; `rpc` is the module that `into_rpc` makes.
  unfoldable pub ipc_task : Option String → Methods → List (Task Methods)
  ipc_task none methods = []
  ipc_task (some path) methods = ipc path methods ∷ []

  unfoldable pub http_task : Option String → Methods → List (Task Methods)
  http_task none methods = []
  http_task (some addr) methods = http addr methods ∷ []

  unfoldable pub start_rpc_servers : Methods → RpcServerConfig → List (Task Methods)
  unfolding ipc_task http_task
  start_rpc_servers rpc config = ipc_task config.ipc_path rpc ++ http_task config.http_addr rpc

  -- A server that fails is only logged.
  unfoldable pub run_task : Task Methods → List (Event Stream) → World → World
  unfolding run_ipc_server run_http_server
  run_task (ipc path methods) events w = (run_ipc_server path methods events w).1
  run_task (http addr methods) events w = (run_http_server addr methods w).1
