-- ===== src/System/Crowded.antt =====
-- The client against a service that has other clients too.
use two_services.History.Stream.{silent}
use two_services.Base.{ℕ, ◌≡◌, String, true, List, ◌++◌, concat}
use two_services.NetLogger.{NetLogger}
use two_services.Utils.Builder.{Clock}
use two_services.Utils.Convert.{TimeUtil}
use two_services.History.Postgres.{Engine}
use two_services.History.Postgres.Select.{Joined}
use two_services.History.Repo.Invariant.{IsConsistent, view}
use two_services.History.Service.Interleaved.{use_cases_among, StoresAmong, among_saves, Woven}
use two_services.Shared.Console.{Console}
use two_services.Ipv4Filter.GrpcService.{Stub, event_saver}
use two_services.Ipv4Filter.UseCases
use two_services.Ipv4Filter.UseCases.{SaveRequest}
use two_services.Ipv4Filter.EventBuilder.{event_builder}
use two_services.Ipv4Filter.UseCases.Built.{built}
use two_services.System.Delivery.{Delivers}
use two_services.System.Sent.{execute_save-R}

-- Over a stub that delivers to a service whose repository others use too, before each call that the
-- handlers of this client make of it, and from consistent tables: where `Execute` of the client
-- returns true, the tables are consistent, no row from before was lost or changed, and among the
-- new rows stand those of the events of the log, one for each entry with a line, in the order of
-- the entries.
pub execute_save-among :
    (engine : Engine) (net : NetLogger) (clock : Clock) (now : ℕ → clock.TimePoint) (src : String)
    {W : Type 0} (time : TimeUtil) (stub : Stub time.Timestamp W)
    (delivers : Delivers (use_cases_among engine) silent stub)
    (request : SaveRequest net.CompositeFilter) (input : String) (k : ℕ) (c : Console W)
    → IsConsistent engine (delivers.server c.world).db.tables
    → (UseCases.execute_save net
        (event_builder net clock now src)
        (event_saver time stub)
        request
        input
        (k, c)).0
      ≡ true
    → let (saved, (readings, d)) =
        UseCases.execute_save net
          (event_builder net clock now src)
          (event_saver time stub)
          request
          input
          (k, c) in
      IsConsistent engine (delivers.server d.world).db.tables
      × (more : List (Joined engine)) × (view engine (delivers.server d.world).db.tables
          ≡ view engine (delivers.server c.world).db.tables ++ more)
      × Woven engine
          (built net clock now src (concat (net.process_stream input request.filter)) k)
          more
execute_save-among engine net clock now src time stub delivers request input k c consistent h =
    execute_save-R net clock now src (use_cases_among engine) (StoresAmong engine)
      (among_saves engine) time stub silent (λ text es s t h. h) delivers request input k c h
      consistent
