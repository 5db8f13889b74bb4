-- ===== src/History/Main/Serving.antt =====
-- The service that `main` starts, over the pool that it makes.
use Prim.Native.String.{◌++◌}
use two_services.Base.{
  ℕ, ◌≡◌, refl, sym, ap, subst, ◌∙◌, inl, inr, String, Bool, true, false, Option, none, some, List,
  [], ◌∷◌, All,
}
use two_services.Base.Exec.{Except, ok, throw, Except-cases}
use two_services.Utils.Convert.{TimeUtil}
use two_services.History.Pool.{Driver, create_prepared_pool}
use two_services.History.Postgres.{Engine}
use two_services.History.UseCases.{use_cases}
use two_services.History.Stream.{silent}
use two_services.History.Service.{EventService, grpc_event_service_impl, Rpc, answer_all}
use two_services.History.Service.Alike.{answer_all-Same}
use two_services.History.Service.Durable.{postgres_use_cases}
use two_services.History.Settings.{pg_settings, make_db_connection_string, server_port}
use two_services.History.Pooled.{Meanwhile}
use two_services.History.Pooled.Calls.{Stays}
use two_services.History.Pooled.Created.{created-prepared}
use two_services.History.Pooled.Ready.{
  Ready, write, pooled_events_repo, Serves, pooled_events_repo-Alike,
}
use two_services.History.Main.{
  Process, connecting_to, after_build_and_start, serving, main, pg_connections,
}

module _ (engine : Engine) (driver : Driver) (is_prepared : driver.Connection → Bool)
    (meanwhile : ℕ → Meanwhile engine driver is_prepared) (time : TimeUtil)
    (connect reconnect : String → ℕ → Except driver.Connection)
    (prepare : driver.Connection → driver.Connection)
    (build_and_start : String
      → EventService time.Timestamp (Ready engine driver is_prepared meanwhile)
      → Except Bool) where
  open driver use {Connection, is_open}

  abbrev Running : Type 0
  Running = Process Connection time.Timestamp (Ready engine driver is_prepared meanwhile)

  abbrev pub pooled_service :
      EventService time.Timestamp (Ready engine driver is_prepared meanwhile)
  pooled_service =
      grpc_event_service_impl time
        (use_cases (pooled_events_repo engine driver is_prepared meanwhile))
        (write engine driver is_prepared meanwhile)

  -- `main` with the repository over the pool
  abbrev pub run : (String → Option String) → Running
  run getenv =
      main driver time connect reconnect prepare
        (λ pool. pooled_events_repo engine driver is_prepared meanwhile)
        (write engine driver is_prepared meanwhile) build_and_start getenv

  after_build_and_start-serving :
      (address' address : String) (conns pool : List Connection)
      (service : EventService time.Timestamp (Ready engine driver is_prepared meanwhile))
      (printed' printed : List String) (r : Except Bool)
      → Path Running
          (after_build_and_start driver time connect reconnect prepare
            (λ pool. pooled_events_repo engine driver is_prepared meanwhile)
            (write engine driver is_prepared meanwhile)
            build_and_start
            address'
            conns
            pooled_service
            printed'
            r)
          (serving address pool service printed)
      → (conns ≡ pool) × (pooled_service ≡ service)
  after_build_and_start-serving address' address conns pool service printed' printed (throw what)
        h =
      absurd (cc h)
  after_build_and_start-serving address' address conns pool service printed' printed (ok false) h =
      absurd (cc h)
  after_build_and_start-serving address' address conns pool service printed' printed (ok true) h =
      (cc h, cc h)

  -- Where `main` serves, the pool was created and the service is the one over it.
  pub run-serving :
      (getenv : String → Option String) (address : String) (pool : List Connection)
      (service : EventService time.Timestamp (Ready engine driver is_prepared meanwhile))
      (printed : List String)
      → run getenv ≡ serving address pool service printed
      → let text = make_db_connection_string (pg_settings getenv) in
        (create_prepared_pool driver prepare (connect text) (reconnect text) pg_connections
          ≡ ok (some pool))
        × (pooled_service ≡ service)
  unfolding main
  run-serving getenv address pool service printed h =
      let text = make_db_connection_string (pg_settings getenv) in
      let made =
        create_prepared_pool driver prepare (connect text) (reconnect text) pg_connections in
      elim (Except-cases made) [
        | inr (what, e) ↦ absurd (cc (rw e at h))
        | inl (none, e) ↦ absurd (cc (rw e at h))
        | inl (some conns, e) ↦
            let address' = "0.0.0.0:" ++ server_port getenv in
            let (pools, services) =
              after_build_and_start-serving address' address conns pool service
                (connecting_to (pg_settings getenv) ∷ []) printed
                (build_and_start address' pooled_service) (rw e at h) in
            (e ∙ ap (λ p. ok (some p)) pools, services)
      ]

  module _ (stays_open : (conn : Connection) → is_open (prepare conn) ≡ true)
      (prepares : (conn : Connection) → is_prepared (prepare conn) ≡ true)
      (stays : (k : ℕ)
        → Stays engine driver is_prepared (λ conn. is_prepared conn ≡ true) (meanwhile k)) where
    -- Where `main` comes to serve, the preparer prepares a connection and does not close it, and the
    -- connections stay open and prepared: to any calls of all kinds, one after another, the service gives
    -- the answers of the service over the repository without a pool, from the same database and with the
    -- same faults, and it leaves the same database; none of the calls waits for a connection.
    pub run-answer_all :
        (getenv : String → Option String) (address : String) (pool : List Connection)
        (service : EventService time.Timestamp (Ready engine driver is_prepared meanwhile))
        (printed : List String)
        → run getenv ≡ serving address pool service printed
        → (start : Ready engine driver is_prepared meanwhile) (rpcs : List (Rpc time.Timestamp))
        → start.first ∷ start.others ≡ pool
        → let plain = grpc_event_service_impl time (postgres_use_cases engine) silent in
          ((answer_all service rpcs start).0 ≡ (answer_all plain rpcs start.db).0)
          × ((answer_all service rpcs start).1.db ≡ (answer_all plain rpcs start.db).1)
    run-answer_all getenv address pool service printed h start rpcs from =
        let plain = grpc_event_service_impl time (postgres_use_cases engine) silent in
        let text = make_db_connection_string (pg_settings getenv) in
        let (made, services) = run-serving getenv address pool service printed h in
        let (size, prepared) =
          created-prepared engine driver is_prepared prepare stays_open prepares (connect text)
            (reconnect text) pg_connections pool made in
        let (same, serves) =
          answer_all-Same (postgres_use_cases engine) silent
            (use_cases (pooled_events_repo engine driver is_prepared meanwhile))
            (write engine driver is_prepared meanwhile)
            (Serves engine driver is_prepared meanwhile stays)
            (pooled_events_repo-Alike engine driver is_prepared meanwhile stays) time rpcs start.db
            start
            (record {
              same = refl;
              prepared = subst (All (λ conn. is_prepared conn ≡ true)) (sym from) prepared;
            }) in
        subst
          (λ (running : EventService time.Timestamp (Ready engine driver is_prepared meanwhile)).
            ((answer_all running rpcs start).0 ≡ (answer_all plain rpcs start.db).0)
            × ((answer_all running rpcs start).1.db ≡ (answer_all plain rpcs start.db).1))
          services (sym same, serves.same)
