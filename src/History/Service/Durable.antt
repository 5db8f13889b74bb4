-- ===== src/History/Service/Durable.antt =====
-- The service over its repository: any calls of it, one after another.
use two_services.History.Stream.{silent}
use two_services.Base.{◌≡◌, refl, ap, ◌∙◌, String, Bool, true, Option, some, List, ◌++◌, map}
use two_services.Base.Exec.{ok}
use two_services.Grpc.{Status}
use two_services.Shared.Dto
use two_services.Proto
use two_services.Utils.Convert.{TimeUtil, to_dto_event}
use two_services.History.Postgres.{Engine}
use two_services.History.Postgres.Select.{Joined}
use two_services.History.Repo.{Db, postgres_events_repo}
use two_services.History.Repo.Invariant.{IsConsistent, Columns, view}
use two_services.History.Repo.Save.{IsStored, added_rows, all_columns}
use two_services.History.Repo.Steps.{
  saved, fetched, counted, Extends, Extends-same, Extends-trans, Call-keeps,
}
use two_services.History.UseCases.{UseCases, use_cases, execute_save, execute_get, execute_stats}
use two_services.History.Server
use two_services.History.Server.Unary.{save_event-success}
use two_services.History.Stream
use two_services.History.Stream.Success.{save_events_stream_success}
use two_services.History.Stream.Scan.{scan}
use two_services.History.Service.{grpc_event_service_impl, Rpc, serve}
use two_services.History.Service.Kept.{Keeps, serve-R}
use two_services.System.Stored.{StoresOn, postgres_saves}

module _ (engine : Engine) where
  -- the use cases and the service, as main.cc puts them together
  abbrev pub postgres_use_cases : UseCases (Db engine)
  postgres_use_cases = use_cases (postgres_events_repo engine)

  -- Consistent tables stay consistent, with the old rows in front.
  abbrev pub KeepsRows : Db engine → Db engine → Type 0
  KeepsRows db end =
      IsConsistent engine db.tables
      → IsConsistent engine end.tables × Extends engine db.tables end.tables

  pub KeepsRows-also : (s t u : Db engine) → KeepsRows s t → KeepsRows t u → KeepsRows s u
  KeepsRows-also s t u p q h =
      let (consistent, first) = p h in
      let (still, second) = q consistent in
      (still, Extends-trans engine s.tables t.tables u.tables first second)

  postgres_keeps : Keeps postgres_use_cases KeepsRows
  unfolding use_cases execute_save execute_get execute_stats
  postgres_keeps = record {
    same = λ s h. (h, Extends-same engine s.tables s.tables refl);
    also = KeepsRows-also;
    saved = λ events s. Call-keeps engine (saved events s);
    fetched = λ filter s. Call-keeps engine (fetched filter s);
    counted = λ s. Call-keeps engine (counted s);
  }

  module _ (time : TimeUtil) where
    -- Calls that clients make of the service, whose repository calls follow one another; in between, the
    -- connections to the database may get better or worse.
    pub data Served (start : Db engine) : Db engine → Type 0 where
      begin : Served start start
      served :
          {db : Db engine}
          → Served start db
          → (rpc : Rpc time.Timestamp)
          → Served start (serve (grpc_event_service_impl time postgres_use_cases silent) rpc db)
      disturbed :
          {db : Db engine}
          → Served start db
          → (faults : List (Option String)) → Served start (record db { faults = faults })

    Served-KeepsRows : {start end : Db engine} → Served start end → KeepsRows start end
    Served-KeepsRows {start} begin h = (h, Extends-same engine start.tables start.tables refl)
    Served-KeepsRows {start} (served {db} before rpc) h =
        KeepsRows-also start db
          (serve (grpc_event_service_impl time postgres_use_cases silent) rpc db)
          (Served-KeepsRows before)
          (serve-R postgres_use_cases silent KeepsRows postgres_keeps
            (λ text s. postgres_keeps.same s) time rpc db)
          h
    Served-KeepsRows (disturbed before faults) h = Served-KeepsRows before h

    -- A call whose reply tells the client that its events were saved, and those events.
    pub data Acknowledged (db : Db engine) : Rpc time.Timestamp → List Dto.Event → Type 0 where
      unary :
          (request : Proto.SaveEventRequest) (status : Status) (response : Proto.SaveEventsResponse)
          → (Server.save_event postgres_use_cases request db).0 ≡ ok (status, response)
          → response.success ≡ true
          → Acknowledged db (Rpc.save_event request) (map to_dto_event request.event)
      streamed :
          (stream : List (Proto.SaveEventsRequest × Bool))
          → (Stream.save_events_stream postgres_use_cases silent stream db).0.1.success ≡ true
          → Acknowledged db (Rpc.save_events_stream stream) (scan stream).0

    Acknowledged-IsStored :
        {db : Db engine} {rpc : Rpc time.Timestamp} {events : List Dto.Event}
        → Acknowledged db rpc events
        → IsConsistent engine db.tables
        → IsStored engine events db.tables
            (serve (grpc_event_service_impl time postgres_use_cases silent) rpc db).tables
    unfolding serve grpc_event_service_impl
    Acknowledged-IsStored {db} (unary request status response replied success) h =
        let end = (Server.save_event postgres_use_cases request db).1 in
        save_event-success postgres_use_cases (StoresOn engine) (postgres_saves engine) request db
          end status response (ap (λ r. (r, end)) replied) success h
    Acknowledged-IsStored {db} (streamed stream success) h =
        (save_events_stream_success postgres_use_cases silent (StoresOn engine)
            (postgres_saves engine) (λ text es s t h. h) stream db success).1
          h

    -- What the service has acknowledged stays: on consistent tables, once a call has replied that its
    -- events were saved, then after any further calls, of any kind and with any faults, the tables are
    -- consistent and hold the rows from before the call, then one row for each of its events, in order,
    -- then what came later.
    pub Acknowledged-stays :
        {db end : Db engine} {rpc : Rpc time.Timestamp} {events : List Dto.Event}
        → IsConsistent engine db.tables
        → Acknowledged db rpc events
        → Served (serve (grpc_event_service_impl time postgres_use_cases silent) rpc db) end
        → (columns : List (Columns engine)) × (later : List (Joined engine)) × (all_columns engine
              events
            ≡ some columns)
          × (view engine end.tables
              ≡ (view engine db.tables ++ added_rows engine events columns db.tables.next_id)
                ++ later)
          × IsConsistent engine end.tables
    Acknowledged-stays consistent acknowledged calls =
        let stored = Acknowledged-IsStored acknowledged consistent in
        let (still, (later, rows)) = Served-KeepsRows calls stored.consistent in
        (stored.columns, later, stored.admitted, rows ∙ ap (λ l. l ++ later) stored.rows, still)
