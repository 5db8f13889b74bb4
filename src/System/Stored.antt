-- ===== src/System/Stored.antt =====
-- From a log file to the tables: `SaveEventUseCase::Execute` of the client, over gRPC, with the
-- PostgreSQL repository behind the service.
use two_services.History.Stream.{silent}
use two_services.Base.{ℕ, ◌≡◌, String, true, List, concat}
use two_services.Shared.Dto
use two_services.NetLogger.{NetLogger}
use two_services.Utils.Builder.{Clock}
use two_services.Utils.Convert.{TimeUtil}
use two_services.History.Postgres.{Engine}
use two_services.History.Repo.{Db, postgres_events_repo}
use two_services.History.Repo.Invariant.{IsConsistent}
use two_services.History.Repo.Save.{IsStored, IsStored-nil}
use two_services.History.Repo.Appended.{IsStored-append}
use two_services.History.Repo.Success.{save_events_success}
use two_services.History.UseCases.{use_cases, execute_save}
use two_services.History.Stream.Success.{Saves}
use two_services.Shared.Console.{Console}
use two_services.Ipv4Filter.GrpcService.{Stub, event_saver}
use two_services.Ipv4Filter.UseCases
use two_services.Ipv4Filter.UseCases.{SaveRequest}
use two_services.Ipv4Filter.EventBuilder.{event_builder}
use two_services.Ipv4Filter.UseCases.Built.{built}
use two_services.System.Sent.{execute_save-R}
use two_services.System.Delivery.{Delivers}

module _ (engine : Engine) where
  -- on consistent tables
  abbrev pub StoresOn : List Dto.Event → Db engine → Db engine → Type 0
  StoresOn events db end =
      IsConsistent engine db.tables → IsStored engine events db.tables end.tables

  pub postgres_saves : Saves (use_cases (postgres_events_repo engine)) StoresOn
  unfolding use_cases execute_save
  postgres_saves = record {
    nothing = λ db h. IsStored-nil engine db.tables h;
    then_more = λ first rest s m e p q h.
        IsStored-append engine first rest s.tables m.tables e.tables (p h) (q (p h).consistent);
    success = λ events db result r good h. save_events_success engine events db result h r good;
  }

  module _ (net : NetLogger) (clock : Clock) (now : ℕ → clock.TimePoint) (src : String) where
    -- Over a stub that delivers to the service with its repository, and from consistent tables:
    -- where `Execute` of the client returns true, the events of the log, one for each entry with a
    -- line, stand in the tables, after the rows that were there, in the order of the entries, and
    -- nothing else was added.
    pub execute_save-IsStored :
        {W : Type 0} (time : TimeUtil) (stub : Stub time.Timestamp W)
        (delivers : Delivers (use_cases (postgres_events_repo engine)) silent stub)
        (request : SaveRequest net.CompositeFilter) (input : String) (k : ℕ) (c : Console W)
        → IsConsistent engine (delivers.server c.world).tables
        → (UseCases.execute_save net
            (event_builder net clock now src)
            (event_saver time stub)
            request
            input
            (k, c)).0
          ≡ true
        → IsStored engine
            (built net clock now src (concat (net.process_stream input request.filter)) k)
            (delivers.server c.world).tables
            (delivers.server
              (UseCases.execute_save net
                (event_builder net clock now src)
                (event_saver time stub)
                request
                input
                (k, c)).1.1.world).tables
    execute_save-IsStored time stub delivers request input k c consistent h =
        execute_save-R net clock now src (use_cases (postgres_events_repo engine)) StoresOn
          postgres_saves time stub silent (λ text es s t h. h) delivers request input k c h
          consistent
