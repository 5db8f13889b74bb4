-- ===== src/History/Main.antt =====
-- `main` of services/history/main.cc, up to the call of `Wait` in which the server then runs. What is
-- printed, to either stream, is a list of texts, but for what the pool prints.
pub mod Started
pub mod Serving
mod Tests
use Prim.Native.String.{◌++◌ as append}
use two_services.Base.{ℕ, String, Bool, true, false, Option, none, some, List, [], ◌∷◌, ◌++◌}
use two_services.Base.Exec.{Except, ok, throw}
use two_services.Utils.Convert.{TimeUtil}
use two_services.History.Pool.{Driver, create_prepared_pool}
use two_services.History.Service.{EventService, grpc_event_service_impl}
use two_services.History.Settings.{PgSettings, pg_settings, make_db_connection_string, server_port}
use two_services.History.UseCases.{EventRepository, use_cases}

-- kPgConnections
abbrev pub pg_connections : ℕ
pg_connections = 5

-- What becomes of the process. With `crashed` it calls `Wait` on a null pointer; with `blocked` it waits
-- for ever for a connection that is to be prepared.
pub data Process (Connection Timestamp S : Type 0) : Type 0 where
  exited : (code : ℕ) (printed : List String) → Process Connection Timestamp S
  blocked crashed : (printed : List String) → Process Connection Timestamp S
  serving :
      (server_address : String) (pool : List Connection) (service : EventService Timestamp S)
      (printed : List String)
      → Process Connection Timestamp S

abbrev pub connecting_to : PgSettings → String
connecting_to env =
    append "Connecting to: " (append env.host (append ":" (append env.port "...\n")))

abbrev pub listening_on : String → String
listening_on server_address =
    append "History service server listening on " (append server_address "\n")

abbrev pub error_line : String → String
error_line what = append "Error: " (append what "\n")

-- `connect text k` is what the `k`th opening of a connection with that text does, `reconnect` the same
-- for a connection that is opened again, `prepare` a connection after `PrepareStatements`, `say` writes to
-- the standard output while the service runs, and `build_and_start` is whether gRPC's `BuildAndStart` gives
-- a server or null
module _ (driver : Driver) {S : Type 0} (time : TimeUtil)
    (connect reconnect : String → ℕ → Except driver.Connection)
    (prepare : driver.Connection → driver.Connection)
    (postgres_events_repo : List driver.Connection → EventRepository S) (say : String → S → S)
    (build_and_start : String → EventService time.Timestamp S → Except Bool) where
  open driver use {Connection}

  -- what stands behind `BuildAndStart`
  abbrev pub after_build_and_start :
      String
      → List Connection
      → EventService time.Timestamp S
      → List String
      → Except Bool
      → Process Connection time.Timestamp S
  after_build_and_start server_address pool service printed (throw what) =
      exited 1 (printed ++ error_line what ∷ [])
  after_build_and_start server_address pool service printed (ok false) =
      crashed (printed ++ listening_on server_address ∷ [])
  after_build_and_start server_address pool service printed (ok true) =
      serving server_address pool service (printed ++ listening_on server_address ∷ [])

  -- what stands behind the making of the pool
  abbrev pub run_server :
      String → List Connection → List String → Process Connection time.Timestamp S
  run_server server_address pool printed =
      let service = grpc_event_service_impl time (use_cases (postgres_events_repo pool)) say in
      after_build_and_start server_address pool service printed
        (build_and_start server_address service)

  -- `main` once the pool was made, or was not
  abbrev pub with_pool :
      String → List String → Except (Option (List Connection)) → Process Connection time.Timestamp S
  with_pool server_address printed (throw what) = exited 1 (printed ++ error_line what ∷ [])
  with_pool server_address printed (ok none) = blocked printed
  with_pool server_address printed (ok (some pool)) = run_server server_address pool printed

  unfoldable pub main : (String → Option String) → Process Connection time.Timestamp S
  main getenv =
      let env = pg_settings getenv in
      let conn_str = make_db_connection_string env in
      with_pool (append "0.0.0.0:" (server_port getenv)) (connecting_to env ∷ [])
        (create_prepared_pool driver prepare (connect conn_str) (reconnect conn_str) pg_connections)
