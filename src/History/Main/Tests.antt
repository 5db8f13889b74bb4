-- ===== src/History/Main/Tests.antt =====
-- The service started with a database that refuses the third connection, and with one that refuses none.
use Prim.Native.String.{◌++◌}
use two_services.Base.{
  All, false, ℕ, zero, suc, ◌<◌, ◌≡◌, refl, ◌⊎◌, String, Bool, true, Option, none, some, List, [],
  ◌∷◌, map, length, ◌==◌, if◌then◌else◌,
}
use two_services.Base.Exec.{Except, ok, throw}
use two_services.History.Pool.{
  Driver, create_prepared_pool, open_connections, prepare_all, destroy, return_connection,
}
use two_services.History.Pooled.{Meanwhile}
use two_services.History.Pooled.Ready.{Ready}
use two_services.History.Service.{Rpc, grpc_event_service_impl, answer_all}
use two_services.History.Service.Durable.{postgres_use_cases}
use two_services.History.Main.Serving.{run, pooled_service, run-answer_all}
use two_services.Samples.{empty_db}
use two_services.Samples.Data.{event_message, stream}
use two_services.History.Repo.{Db, postgres_events_repo}
use two_services.History.Stream.{silent}
use two_services.History.Service.{EventService}
use two_services.History.Settings.{pg_settings, make_db_connection_string, server_port}
use two_services.History.Main.{serving, exited, run_server, main, connecting_to, error_line}
use two_services.History.Main.Started.{Open, FailsAt, main_outcome}
use two_services.Samples.{engine, time_util}

abbrev driver : Driver
driver = record { Connection = String; is_open = λ conn. true }

abbrev getenv : String → Option String
getenv name = if name == "POSTGRES_HOST" then some "db" else none

abbrev connect : String → ℕ → Except String
connect text n = ok text

abbrev two_at_most : String → ℕ → Except String
two_at_most text zero = ok text
two_at_most text (suc zero) = ok text
two_at_most text (suc (suc n)) = throw "too many clients"

abbrev prepare : String → String
prepare conn = "prepared " ++ conn

abbrev build_and_start : String → EventService String (Db engine) → Except Bool
build_and_start server_address service = ok true

settings_from_environment :
    make_db_connection_string (pg_settings getenv)
    ≡ "host=db port=5432 dbname=mydb user=admin password=admin"
unfolding make_db_connection_string pg_settings
settings_from_environment = refl

third_refused :
    main driver time_util two_at_most connect prepare
      (λ pool. postgres_events_repo engine)
      silent
      build_and_start
      getenv
    ≡ exited 1 ("Connecting to: db:5432...\n" ∷ "Error: too many clients\n" ∷ [])
unfolding main create_prepared_pool open_connections make_db_connection_string pg_settings
third_refused = refl

-- connections that are prepared, or are not, and stay so
abbrev lasting : Driver
lasting = record { Connection = Bool; is_open = λ conn. true }

abbrev connect_unprepared : String → ℕ → Except Bool
connect_unprepared text k = ok false

abbrev quiet : ℕ → Meanwhile engine lasting (λ conn. conn)
quiet k = record { used = λ conn. conn; again = ok false }

abbrev five : List Bool
five = true ∷ true ∷ true ∷ true ∷ true ∷ []

abbrev begun : Ready engine lasting (λ conn. conn) quiet
begun = record {
  first = true;
  others = true ∷ true ∷ true ∷ true ∷ [];
  db = empty_db;
  calls = 0;
  printed = [];
}

abbrev running : EventService String (Ready engine lasting (λ conn. conn) quiet)
running =
    pooled_service engine lasting (λ conn. conn) quiet time_util (λ text k. ok false)
      (λ text k. ok false) (λ conn. true) (λ address service. ok true)

abbrev printed : List String
printed = "Connecting to: db:5432...\n" ∷ "History service server listening on 0.0.0.0:50051\n" ∷ []

comes_to_serve :
    run engine lasting
      (λ conn. conn)
      quiet
      time_util
      (λ text k. ok false)
      (λ text k. ok false)
      (λ conn. true)
      (λ address service. ok true)
      getenv
    ≡ serving "0.0.0.0:50051" five running printed
unfolding main create_prepared_pool open_connections prepare_all destroy return_connection
    pg_settings server_port
comes_to_serve = refl

abbrev rpcs : List (Rpc String)
rpcs =
    Rpc.save_event (record { event = event_message ∷ [] })
    ∷ Rpc.save_events_stream stream
    ∷ Rpc.get_events (record { event_filter = none })
    ∷ Rpc.get_stats
    ∷ []

main_outcome_example :
    let env = pg_settings getenv in
    let attempts = connect_unprepared (make_db_connection_string env) in
    let outcome =
      main lasting time_util connect_unprepared connect_unprepared
        (λ conn. true)
        (λ pool. postgres_events_repo engine)
        silent
        build_and_start
        getenv in
    ((connections : List Bool) × (pool : List Bool) × (length connections ≡ 5)
      × Open lasting attempts 0 connections
      × (pool ≡ map (λ conn. true) connections)
      × All (λ conn. conn ≡ true) pool
      × (outcome
          ≡ run_server lasting time_util connect_unprepared connect_unprepared
              (λ conn. true)
              (λ pool. postgres_events_repo engine)
              silent
              build_and_start
              ("0.0.0.0:" ++ server_port getenv)
              pool
              (connecting_to env ∷ [])))
    ⊎ ((k : ℕ) × (what : String) × (k < 5)
        × FailsAt lasting attempts 0 k what
        × (outcome ≡ exited 1 (connecting_to env ∷ error_line what ∷ [])))
main_outcome_example =
    main_outcome lasting time_util connect_unprepared connect_unprepared (λ conn. true)
      (λ pool. postgres_events_repo engine) silent build_and_start (λ conn. conn) getenv
      (λ conn. refl) (λ conn. refl)

run-answer_all_example :
    let plain = grpc_event_service_impl time_util (postgres_use_cases engine) silent in
    ((answer_all running rpcs begun).0 ≡ (answer_all plain rpcs empty_db).0)
    × ((answer_all running rpcs begun).1.db ≡ (answer_all plain rpcs empty_db).1)
run-answer_all_example =
    run-answer_all engine lasting (λ conn. conn) quiet time_util (λ text k. ok false)
      (λ text k. ok false) (λ conn. true) (λ address service. ok true) (λ conn. refl) (λ conn. refl)
      (λ k conn h. (refl, h)) getenv "0.0.0.0:50051" five running printed comes_to_serve begun rpcs
      refl
