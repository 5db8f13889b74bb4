-- ===== src/System/Started.antt =====
-- From a log file to the tables, with the service that `main` of services/history starts.
use two_services.Base.{
  Bool, ℕ, ◌≡◌, refl, sym, subst, String, true, Option, List, ◌∷◌, concat, All, ◌∙◌,
}
use two_services.Base.Exec.{Except, ok}
use two_services.Shared.Dto
use two_services.Shared.Result.{VoidResult}
use two_services.NetLogger.{NetLogger}
use two_services.Utils.Builder.{Clock}
use two_services.Utils.Convert.{TimeUtil}
use two_services.History.Pool.{Driver}
use two_services.History.Postgres.{Engine}
use two_services.History.Repo.Invariant.{IsConsistent}
use two_services.History.Repo.Save.{IsStored}
use two_services.History.UseCases.{use_cases}
use two_services.History.Stream.Success.{Saves}
use two_services.History.Pooled.{Meanwhile}
use two_services.History.Pooled.Calls.{Stays}
use two_services.History.Pooled.Ready.{Ready, write, pooled_events_repo, pooled_events_repo-Alike}
use two_services.History.Pooled.Created.{created-prepared}
use two_services.History.Service.{EventService}
use two_services.History.Settings.{pg_settings, make_db_connection_string}
use two_services.History.Main.{serving, pg_connections}
use two_services.History.Main.Serving.{run, pooled_service, run-serving}
use two_services.Shared.Console.{Console}
use two_services.Ipv4Filter.GrpcService.{Stub, event_saver}
use two_services.Ipv4Filter.UseCases
use two_services.Ipv4Filter.UseCases.{SaveRequest}
use two_services.Ipv4Filter.EventBuilder.{event_builder}
use two_services.Ipv4Filter.UseCases.Built.{built}
use two_services.System.Delivery.{Delivers}
use two_services.System.Sent.{execute_save-R}
use two_services.System.Stored.{StoresOn, postgres_saves}

module _ (engine : Engine) (driver : Driver) (is_prepared : driver.Connection → Bool)
    (meanwhile : ℕ → Meanwhile engine driver is_prepared)
    (stays : (k : ℕ)
      → Stays engine driver is_prepared (λ conn. is_prepared conn ≡ true) (meanwhile k)) where
  open driver use {Connection, is_open}

  abbrev Prepared : Ready engine driver is_prepared meanwhile → Type 0
  Prepared s = All (λ conn. is_prepared conn ≡ true) (s.first ∷ s.others)

  -- over a prepared pool, which stays prepared
  abbrev StoresReady :
      List Dto.Event
      → Ready engine driver is_prepared meanwhile
      → Ready engine driver is_prepared meanwhile
      → Type 0
  StoresReady events s t = Prepared s → Prepared t × StoresOn engine events s.db t.db

  saved-StoresReady :
      (events : List Dto.Event) (s : Ready engine driver is_prepared meanwhile)
      (result : VoidResult)
      → ((use_cases (pooled_events_repo engine driver is_prepared meanwhile)).save_event.execute
          events s).0
        ≡ ok result
      → result.success ≡ true
      → StoresReady events s
          ((use_cases (pooled_events_repo engine driver is_prepared meanwhile)).save_event.execute
            events s).1
  saved-StoresReady events s result returned success prepared =
      let alike = pooled_events_repo-Alike engine driver is_prepared meanwhile stays in
      let (same, serves) =
        alike.saves.saved events s.db s (record { same = refl; prepared = prepared }) in
      (
        serves.prepared,
        subst (StoresOn engine events s.db) (sym serves.same)
            ((postgres_saves engine).success events s.db result (same ∙ returned) success),
      )

  pooled_saves :
      Saves (use_cases (pooled_events_repo engine driver is_prepared meanwhile)) StoresReady
  pooled_saves = record {
    nothing = λ s prepared. (prepared, (postgres_saves engine).nothing s.db);
    then_more = λ first rest s m e p q prepared.
        let (still, stored) = p prepared in
        let (at_last, more) = q still in
        (at_last, (postgres_saves engine).then_more first rest s.db m.db e.db stored more);
    success = saved-StoresReady;
  }

  module _ (time : TimeUtil) (connect reconnect : String → ℕ → Except Connection)
      (prepare : Connection → Connection)
      (build_and_start : String
        → EventService time.Timestamp (Ready engine driver is_prepared meanwhile)
        → Except Bool)
      (stays_open : (conn : Connection) → is_open (prepare conn) ≡ true)
      (prepares : (conn : Connection) → is_prepared (prepare conn) ≡ true) where
    abbrev service : EventService time.Timestamp (Ready engine driver is_prepared meanwhile)
    service =
        pooled_service engine driver is_prepared meanwhile time connect reconnect prepare
          build_and_start

    -- Where `main` of the history service comes to serve over a pool, its preparer prepares a connection and
    -- does not close it, the connections stay open and prepared, and the stub delivers to that service, with
    -- that pool and consistent tables: where `Execute` of the client returns true, the events of the log, one
    -- for each entry with a line, stand in the tables, after the rows that were there, in the order of the
    -- entries, and nothing else was added.
    pub execute_save-run :
        (net : NetLogger) (clock : Clock) (now : ℕ → clock.TimePoint) (src : String)
        (getenv : String → Option String) (address : String) (pool : List Connection)
        (printed : List String)
        → run engine driver is_prepared meanwhile time connect reconnect prepare build_and_start
            getenv
          ≡ serving address pool service printed
        → {W : Type 0} (stub : Stub time.Timestamp W)
          (delivers : Delivers
            (use_cases (pooled_events_repo engine driver is_prepared meanwhile))
            (write engine driver is_prepared meanwhile)
            stub)
          (request : SaveRequest net.CompositeFilter) (input : String) (k : ℕ) (c : Console W)
        → (delivers.server c.world).first ∷ (delivers.server c.world).others ≡ pool
        → IsConsistent engine (delivers.server c.world).db.tables
        → (UseCases.execute_save net
            (event_builder net clock now src)
            (event_saver time stub)
            request
            input
            (k, c)).0
          ≡ true
        → IsStored engine
            (built net clock now src (concat (net.process_stream input request.filter)) k)
            (delivers.server c.world).db.tables
            (delivers.server
              (UseCases.execute_save net
                (event_builder net clock now src)
                (event_saver time stub)
                request
                input
                (k, c)).1.1.world).db.tables
    execute_save-run net clock now src getenv address pool printed h stub delivers request input k c
          from consistent saved =
        let text = make_db_connection_string (pg_settings getenv) in
        let (made, services) =
          run-serving engine driver is_prepared meanwhile time connect reconnect prepare
            build_and_start getenv address pool service printed h in
        let (size, prepared) =
          created-prepared engine driver is_prepared prepare stays_open prepares (connect text)
            (reconnect text) pg_connections pool made in
        let (still, stored) =
          execute_save-R net clock now src
            (use_cases (pooled_events_repo engine driver is_prepared meanwhile)) StoresReady
            pooled_saves time stub (write engine driver is_prepared meanwhile) (λ text es s t r. r)
            delivers request input k c saved
            (subst (All (λ conn. is_prepared conn ≡ true)) (sym from) prepared) in
        stored consistent
