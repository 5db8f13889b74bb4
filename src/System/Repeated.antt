-- ===== src/System/Repeated.antt =====
-- Calls that gRPC makes again under the retry policy of the client.
use two_services.Base.{◌≡◌, refl, ap, ◌∙◌, String, true, Option, some, List, [], ◌∷◌}
use two_services.Proto
use two_services.Utils.Convert.{TimeUtil, from_proto_event_filter}
use two_services.History.Postgres.{Engine, Tables}
use two_services.History.Repo
use two_services.History.Repo.{Db}
use two_services.History.Repo.Steps.{read_events-Unchanged, read_stats-Unchanged}
use two_services.History.Server
use two_services.History.Stream.{silent}
use two_services.History.UseCases.{use_cases, execute_get, execute_stats}
use two_services.History.Service.{Rpc, EventService, answer, grpc_event_service_impl}
use two_services.History.Service.Durable.{postgres_use_cases}
use two_services.Ipv4Filter.Retry.{is_retried}

module _ (engine : Engine) (time : TimeUtil) where
  -- the service over the repository
  abbrev pub plain : EventService time.Timestamp (Db engine)
  plain = grpc_event_service_impl time (postgres_use_cases engine) silent

  -- What attempts of a call leave whose handlers ran, each with its faults, and whose answers were lost.
  unfoldable pub attempted :
      Rpc time.Timestamp → List (List (Option String)) → Db engine → Db engine
  attempted rpc [] db = db
  attempted rpc (faults ∷ later) db =
      attempted rpc later (answer plain rpc (record db { faults = faults })).1

  answer-tables :
      (rpc : Rpc time.Timestamp) (db : Db engine)
      → is_retried rpc ≡ true
      → (answer plain rpc db).1.tables ≡ db.tables
  unfolding answer grpc_event_service_impl is_retried Server.get_events Server.get_stats use_cases
      execute_get execute_stats Repo.get_events Repo.get_stats
  answer-tables (Rpc.save_event request) db h = absurd (cc h)
  answer-tables (Rpc.save_events_stream stream) db h = absurd (cc h)
  answer-tables (Rpc.get_events request) db h =
      read_events-Unchanged engine
        (from_proto_event_filter time (some (Proto.filter_or_default request.event_filter))) db
  answer-tables Rpc.get_stats db h = read_stats-Unchanged engine db

  attempted-tables :
      (rpc : Rpc time.Timestamp) (before : List (List (Option String))) (db : Db engine)
      → is_retried rpc ≡ true
      → (attempted rpc before db).tables ≡ db.tables
  unfolding attempted
  attempted-tables rpc [] db h = refl
  attempted-tables rpc (faults ∷ later) db h =
      attempted-tables rpc later (answer plain rpc (record db { faults = faults })).1 h
      ∙ answer-tables rpc (record db { faults = faults }) h

  -- Where the client's retry policy lets a call be made again: however many attempts of it the service has
  -- handled, with any faults, and whose answers were lost, the tables are what they were, and `GetStats`
  -- then answers, and leaves the database, as it would have done before the attempts.
  pub is_retried-attempted :
      (rpc : Rpc time.Timestamp) (before : List (List (Option String)))
      (faults : List (Option String)) (db : Db engine)
      → is_retried rpc ≡ true
      → ((attempted rpc before db).tables ≡ db.tables)
        × (answer plain Rpc.get_stats (record (attempted rpc before db) { faults = faults })
            ≡ answer plain Rpc.get_stats (record db { faults = faults }))
  is_retried-attempted rpc before faults db h =
      let same = attempted-tables rpc before db h in
      (
        same,
        ap
            (λ (t : Tables engine).
              answer plain Rpc.get_stats (record { tables = t; faults = faults }))
            same,
      )
