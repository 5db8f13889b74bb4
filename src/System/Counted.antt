-- ===== src/System/Counted.antt =====
-- The counts that a client gets: `GetStats` of the client, over gRPC, with the PostgreSQL repository
-- behind the service.
use two_services.Base.{[], ◌+◌, ◌≡◌, sym, ap, ◌∙◌, true, some, length}
use two_services.Base.Exec.{ok}
use two_services.Grpc.{is_ok, status_ok}
use two_services.Shared.Dto
use two_services.Shared.Result.{ok_value}
use two_services.Utils.Convert.{TimeUtil, to_proto_stats}
use two_services.Utils.RoundTrip.{stats_there_and_back}
use two_services.History.Postgres.{Engine, Tables}
use two_services.History.Repo.{Db, postgres_events_repo}
use two_services.History.Repo
use two_services.History.Repo.Invariant.{IsConsistent, view}
use two_services.History.Repo.Query.{get_stats_adds_up, with_status}
use two_services.History.UseCases.{use_cases, execute_stats}
use two_services.History.Server
use two_services.History.Server.{stats_response}
use two_services.Shared.Console.{Console}
use two_services.Ipv4Filter.GrpcService
use two_services.Ipv4Filter.GrpcService.{Stub}
use two_services.System.Fetched.{Answers}

module _ (engine : Engine) {W : Type 0} (time : TimeUtil) (stub : Stub time.Timestamp W)
    (answers : Answers (use_cases (postgres_events_repo engine)) time stub) where
  server_stats :
      (t : Tables engine) (stats : Dto.Stats)
      → Repo.get_stats engine (record { tables = t; faults = [] })
        ≡ (ok (ok_value stats), record { tables = t; faults = [] })
      → Server.get_stats
          (use_cases (postgres_events_repo engine))
          (record { tables = t; faults = [] })
        ≡ (
          ok (status_ok, stats_response (ok_value stats) true (some stats)),
          record { tables = t; faults = [] },
        )
  unfolding Server.get_stats use_cases execute_stats
  server_stats t stats h = rw h

  -- Over a stub that answers for the service with its repository, on consistent tables and without
  -- faults: where the call ends with OK, the client gets the number of the stored events, the
  -- number of those with the status "success" and the number of those with the status "error", which add up
  -- to it.
  pub get_stats_fetched :
      (c : Console W) (t : Tables engine)
      → answers.server c.world ≡ record { tables = t; faults = [] }
      → IsConsistent engine t
      → is_ok (stub.get_stats c.world).0.0 ≡ true
      → (stats : Dto.Stats) × ((GrpcService.get_stats time stub c).0 ≡ some stats)
        × (stats.events_total ≡ length (view engine t))
        × (stats.events_success ≡ with_status engine "success" (view engine t))
        × (stats.events_error ≡ with_status engine "error" (view engine t))
        × (stats.events_total ≡ stats.events_success + stats.events_error)
  unfolding GrpcService.get_stats
  get_stats_fetched c t same h status =
      let (stats, runs, total, success, error, sum) = get_stats_adds_up engine t h in
      let replied =
        sym (answers.counted c.world status)
        ∙ ap (Server.get_stats (use_cases (postgres_events_repo engine))) same
        ∙ server_stats t stats runs in
      let reply : (stub.get_stats c.world).0
          ≡ (status_ok, stats_response (ok_value stats) true (some stats)) =
        cc (ap (λ x. x.0) replied) in
      (
        stats,
        rw reply (ap some (stats_there_and_back stats (to_proto_stats stats)).0),
        total,
        success,
        error,
        sum,
      )
