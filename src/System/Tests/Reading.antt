-- ===== src/System/Tests/Reading.antt =====
-- The client and the service at work on two stored rows.
use two_services.History.Repo.Query.{with_status}
use two_services.Samples.Facts.{text_ne}
use two_services.Base.{
  All, ◌≢◌, ◌+◌, length, String, none, some, arith, ◌≡◌, refl, true, [], ◌∷◌, ◌≤◌,
}
use two_services.Ipv4Filter.Cli.Quoted.{quoted, has_no_quote}
use two_services.Ipv4Filter.Cli.Options.{options}
use two_services.Ipv4Filter.Cli.Handlers.{run_line, print_events}
use two_services.System.Typed.{Prints, run_line-page}
use two_services.History.Repo.{
  read_stats, read_events, query_events, events_of_rows, event_of_row, save_events, insert_all,
  save_all, save_one,
}
use two_services.History.Repo.Invariant.{view, IsConsistent}
use two_services.Base.Exec.{ok}
use two_services.Grpc.{is_ok}
use two_services.Shared.Dto
use two_services.Shared.Dto.{str_to_status, status_to_str}
use two_services.Proto
use two_services.Utils.Convert.{
  to_proto_event_filter, to_proto_filter, to_timestamp_from_str, from_proto_event_filter,
  from_proto_filter, from_timestamp_to_str, from_proto_event_status,
}
use two_services.Utils.RoundTrip.{cut_to_uint32}
use two_services.History.Postgres.{Tables}
use two_services.History.Postgres.Select
use two_services.History.Repo
use two_services.History.Repo.Reading.{IsTaken, page}
use two_services.Ipv4Filter.GrpcService
use two_services.System.Counted.{get_stats_fetched}
use two_services.System.Fetched.{found_line, get_events-page_fetched}
use two_services.Samples.Delivered.{answering}
use two_services.Base.Decimal.{to_string, to_string_onto}
use two_services.History.Server
use two_services.History.UseCases.{use_cases}
use two_services.History.UseCases
use two_services.Ipv4Filter.GrpcService.{save_batch, do_save_request}
use two_services.Ipv4Filter.Config.{AppConfig}
use two_services.Ipv4Filter.Main.{World, help_text, save_file, get_page, get_counts}
use two_services.Samples.{net, clock, now, engine, time_util, stub, service, empty_db, Peer}
use two_services.History.Postgres.Select.{limit_of}
use two_services.History.Repo.Limit.{get_events-limit}
use two_services.Shared.Console.{Console}

-- an accepted line, and one before it
abbrev two_rows : Tables engine
two_rows = record {
  events =
      record {
        id = 1;
        source_service = "ipv4_filter";
        timestamp_utc = "2025-01-31 09:05:00";
        status = "success";
      }
      ∷ record {
        id = 2;
        source_service = "ipv4_filter";
        timestamp_utc = "2025-01-31 09:04:00";
        status = "error";
      }
      ∷ [];
  payloads =
      record {
        event_id = 1;
        raw_line = "GET";
        parsed_ip = some 3_232_235_777;
        filter_decision = "accepted";
        reject_reason = none;
      }
      ∷ record {
        event_id = 2;
        raw_line = "x";
        parsed_ip = none;
        filter_decision = "rejected";
        reject_reason = some "Invalid Format";
      }
      ∷ [];
  next_id = 3;
}

two_rows-IsConsistent : IsConsistent engine two_rows
two_rows-IsConsistent = record {
  fresh_events = (omega arith, (omega arith, tt));
  fresh_payloads = (omega arith, (omega arith, tt));
  good = ((refl, refl, (_, refl, refl)), ((refl, refl, (_, refl, refl)), tt));
}

abbrev full_peer : Peer
full_peer = record { db = record { tables = two_rows; faults = [] }; sent = []; start = empty_db }

abbrev started : Console Peer
started = record { printed = []; world = full_peer }

abbrev filter : Dto.EventFilter
filter = record Dto.no_filter { from = some "2025-01-31 09:00:00"; limit = some 1 }

abbrev filter_message : Proto.EventFilter String
filter_message = record Proto.default_filter { from = some "2025-01-31 09:00:00"; limit = some 1 }

abbrev filter_taken : IsTaken engine (cut_to_uint32 filter)
filter_taken = record {
  from = some "2025-01-31 09:00:00";
  to = none;
  from_read = refl;
  to_read = refl;
  limit_fits = omega arith;
  offset_fits = omega arith;
}

filter_is_sent : to_proto_event_filter time_util (some filter) ≡ ok (some filter_message)
unfolding to_proto_event_filter to_proto_filter to_timestamp_from_str
filter_is_sent = refl

filter_is_answered :
    is_ok (stub.get_events (record { event_filter = some filter_message }) full_peer).0.0 ≡ true
unfolding Server.get_events use_cases UseCases.execute_get Repo.get_events read_events query_events
    Select.get_events events_of_rows event_of_row str_to_status from_proto_event_filter
    from_proto_filter from_timestamp_to_str from_proto_event_status
filter_is_answered = refl

get_events-page_fetched_example :
    ((GrpcService.get_events time_util stub filter started).0
      ≡ ok (some (page engine (cut_to_uint32 filter) (some "2025-01-31 09:00:00") none two_rows)))
    × ((GrpcService.get_events time_util stub filter started).1.printed
        ≡ found_line (page engine (cut_to_uint32 filter) (some "2025-01-31 09:00:00") none two_rows)
          ∷ [])
get_events-page_fetched_example =
    get_events-page_fetched engine time_util stub answering filter started two_rows filter_message
      filter_taken ("2025-01-31 09:00:00", refl, refl) tt refl two_rows-IsConsistent filter_is_sent
      filter_is_answered

stats_are_answered : is_ok (stub.get_stats full_peer).0.0 ≡ true
unfolding Server.get_stats use_cases UseCases.execute_stats Repo.get_stats read_stats
    Select.get_stats
stats_are_answered = refl

get_stats_fetched_example :
    (stats : Dto.Stats) × ((GrpcService.get_stats time_util stub started).0 ≡ some stats)
    × (stats.events_total ≡ length (view engine two_rows))
    × (stats.events_success ≡ with_status engine "success" (view engine two_rows))
    × (stats.events_error ≡ with_status engine "error" (view engine two_rows))
    × (stats.events_total ≡ stats.events_success + stats.events_error)
get_stats_fetched_example =
    get_stats_fetched engine time_util stub answering started two_rows refl two_rows-IsConsistent
      stats_are_answered

-- what a user types to see one event
abbrev typed : Dto.EventFilter
typed = record Dto.no_filter { limit = some 1 }

abbrev typed_message : Proto.EventFilter String
typed_message = record Proto.default_filter { limit = some 1 }

abbrev typed_taken : IsTaken engine (cut_to_uint32 typed)
typed_taken = record {
  from = none;
  to = none;
  from_read = refl;
  to_read = refl;
  limit_fits = omega arith;
  offset_fits = omega arith;
}

typed_is_plain : All (λ arg. (arg ≢ "") × (has_no_quote arg ≡ true)) ("get" ∷ options typed)
unfolding options to_string to_string_onto
typed_is_plain =
    ((text_ne _ _ refl, refl), ((text_ne _ _ refl, refl), ((text_ne _ _ refl, refl), tt)))

typed_is_sent : to_proto_event_filter time_util (some typed) ≡ ok (some typed_message)
unfolding to_proto_event_filter to_proto_filter
typed_is_sent = refl

typed_is_answered :
    is_ok (stub.get_events (record { event_filter = some typed_message }) full_peer).0.0 ≡ true
unfolding Server.get_events use_cases UseCases.execute_get Repo.get_events read_events query_events
    Select.get_events events_of_rows event_of_row str_to_status from_proto_event_filter
    from_proto_filter from_timestamp_to_str from_proto_event_status
typed_is_answered = refl

abbrev client : AppConfig
client = record { service_name = "ipv4_filter"; server_address = "localhost"; server_port = 50_051 }

abbrev console : Console (World Peer)
console = record { printed = []; world = (0, full_peer) }

run_line-page_example :
    Prints console
      (found_line (page engine (cut_to_uint32 typed) none none two_rows)
        ∷ print_events (some (page engine (cut_to_uint32 typed) none none two_rows)))
      (run_line help_text
        (λ path. none)
        (save_file net clock now time_util stub client)
        (get_page net clock now time_util stub)
        (get_counts net clock now time_util stub)
        (quoted ("get" ∷ options typed))
        console)
run_line-page_example =
    run_line-page engine net clock now time_util stub answering client (λ path. none) typed console
      two_rows typed_message typed_taken refl refl (omega arith) tt typed_is_plain refl
      two_rows-IsConsistent typed_is_sent typed_is_answered

abbrev one_event : Proto.GetEventsRequest String
one_event = record { event_filter = some typed_message }

one_event_is_found :
    (Server.get_events service time_util one_event full_peer.db).0
    ≡ ok (stub.get_events one_event full_peer).0
unfolding Server.get_events use_cases UseCases.execute_get Repo.get_events read_events query_events
    Select.get_events events_of_rows event_of_row str_to_status from_proto_event_filter
    from_proto_filter from_timestamp_to_str from_proto_event_status
one_event_is_found = refl

get_events-limit_example : length (stub.get_events one_event full_peer).0.1.events ≤ 1
get_events-limit_example =
    get_events-limit engine time_util one_event full_peer.db
      (stub.get_events one_event full_peer).0.0 (stub.get_events one_event full_peer).0.1
      one_event_is_found
