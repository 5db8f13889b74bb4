-- ===== src/System/Tests.antt =====
-- The client and the service at work on a small log.
mod Reading
mod Crowded
mod Started
mod Repeated
use two_services.History.Stream.{silent}
use two_services.Samples.Facts.{no_tables-IsConsistent, text_ne}
use two_services.Base.{
  All, ◌≢◌, ◌==◌, false, eq_iff, ◌+◌, length, String, none, some, arith, ◌≡◌, refl, true, map, [],
  ◌∷◌, concat, if◌then◌else◌, Option, ℕ, List, ◌<◌, ◌≤◌, ◌%◌, ◌*◌, ◌/◌, ◌-◌, ◌++◌,
}
use two_services.Ipv4Filter.Cli.Quoted.{quoted, has_no_quote}
use two_services.Ipv4Filter.Cli.Options.{options}
use two_services.Ipv4Filter.Cli.Handlers.{run_line, print_events}
use two_services.System.Typed.{Prints, run_line-page}
use two_services.History.Repo.{
  read_stats, read_events, query_events, events_of_rows, event_of_row, save_events, insert_all,
  save_all, save_one,
}
use two_services.History.Repo.Invariant.{view, IsConsistent}
use two_services.Base.Exec.{ok}
use two_services.Grpc.{is_ok}
use two_services.Shared.Dto
use two_services.Shared.Dto.{str_to_status, status_to_str}
use two_services.Proto
use two_services.Utils.Convert.{
  to_proto_event_filter, to_proto_filter, to_timestamp_from_str, from_proto_event_filter,
  from_proto_filter, from_timestamp_to_str, to_proto_event, to_proto_event_status,
  to_proto_filter_decision, to_dto_event, to_dto_payload, from_proto_event_status,
  from_proto_filter_decision,
}
use two_services.Utils.RoundTrip.{cut_to_uint32}
use two_services.History.Postgres.{
  Tables, insert_event, insert_event_row, insert_payload, insert_payload_row,
}
use two_services.History.Postgres.Select
use two_services.History.Repo
use two_services.History.Repo.Reading.{IsTaken, page}
use two_services.Ipv4Filter.GrpcService
use two_services.System.Counted.{get_stats_fetched}
use two_services.System.Fetched.{get_events-page_fetched}
use two_services.Samples.Delivered.{answering, delivered}
use two_services.Base.Decimal.{to_string, to_string_onto, read_digits}
use two_services.Utils.Builder.{
  format_timestamp, put_time, two_digits, ipv4_address_to_string, get_filter_decision,
  filter_reject_reason_to_str,
}
use two_services.Utils.Address.{read_ipv4, read_octets, after_dot, at_end}
use two_services.History.Server
use two_services.History.Validate.{validate_save_event_request, validate_events, validate_event}
use two_services.History.UseCases.{use_cases}
use two_services.History.UseCases
use two_services.Ipv4Filter.EventBuilder.{build, event_at, event_builder}
use two_services.History.Repo.Save.{IsStored}
use two_services.Ipv4Filter.GrpcService.{
  event_saver, save_batch, do_save_request, write_all, progress_interval,
}
use two_services.Ipv4Filter.UseCases.{SaveRequest, execute_save, on_batches, on_batch}
use two_services.Ipv4Filter.UseCases.Built.{built}
use two_services.System.Messages.{over_the_wire}
use two_services.System.Stored.{execute_save-IsStored, StoresOn, postgres_saves}
use two_services.Samples.{
  engine, net, clock, now, time_util, stub, service, empty_db, no_tables, Peer,
}
use two_services.Samples.Data.{event, error_event}
use two_services.Ipv4Filter.Config.{AppConfig}
use two_services.Ipv4Filter.Main.{World, save_file, get_page, get_counts}
use two_services.System.TypedSave.{Saved, run_line-Saved}
use two_services.Shared.Console.{Console}
use two_services.Ipv4Filter.GrpcService.Progress.{reports, ten_thousands, write_all_progress}

abbrev peer : Peer
peer = record { db = empty_db; sent = []; start = empty_db }

abbrev started : Console Peer
started = record { printed = []; world = peer }

abbrev request : SaveRequest net.CompositeFilter
request = record { filter = tt; source_service_name = "ipv4_filter" }

log_is_saved :
    (execute_save net
      (event_builder net clock now "ipv4_filter")
      (event_saver time_util stub)
      request
      "GET"
      (0, started)).0
    ≡ true
unfolding execute_save save_batch do_save_request on_batches on_batch build event_at
    format_timestamp put_time two_digits to_string to_string_onto read_digits ipv4_address_to_string
    get_filter_decision filter_reject_reason_to_str to_proto_event to_proto_event_status
    to_proto_filter_decision to_dto_event to_dto_payload from_proto_event_status
    from_proto_filter_decision Server.save_event validate_save_event_request validate_events
    validate_event use_cases UseCases.execute_save save_events insert_all save_all save_one
    insert_event insert_event_row insert_payload insert_payload_row status_to_str read_ipv4
    read_octets after_dot at_end
log_is_saved = refl

execute_save-IsStored_example :
    IsStored engine
      (built net clock now "ipv4_filter" (concat (net.process_stream "GET" tt)) 0)
      no_tables
      (execute_save net
        (event_builder net clock now "ipv4_filter")
        (event_saver time_util stub)
        request
        "GET"
        (0, started)).1.1.world.db.tables
execute_save-IsStored_example =
    execute_save-IsStored engine net clock now "ipv4_filter" time_util stub delivered request "GET"
      0 started no_tables-IsConsistent log_is_saved

batch_is_saved : (save_batch time_util stub (event ∷ error_event ∷ []) started).0 ≡ true
unfolding save_batch do_save_request read_digits to_proto_event to_proto_event_status
    to_proto_filter_decision to_dto_event to_dto_payload from_proto_event_status
    from_proto_filter_decision Server.save_event validate_save_event_request validate_events
    validate_event use_cases UseCases.execute_save save_events insert_all save_all save_one
    insert_event insert_event_row insert_payload insert_payload_row status_to_str read_ipv4
    read_octets after_dot at_end
batch_is_saved = refl

abbrev client : AppConfig
client = record { service_name = "ipv4_filter"; server_address = "localhost"; server_port = 50_051 }

abbrev one_file : String → Option String
one_file path = if path == "my log.txt" then some "GET" else none

abbrev console : Console (World Peer)
console = record { printed = []; world = (0, peer) }

run_line-Saved_example :
    Saved engine net clock now time_util stub delivered "" one_file client "GET" console (
      run_line "" one_file
        (save_file net clock now time_util stub client)
        (get_page net clock now time_util stub)
        (get_counts net clock now time_util stub)
        (quoted ("save" ∷ "my log.txt" ∷ []))
        console)
run_line-Saved_example =
    run_line-Saved engine net clock now time_util stub delivered "" one_file client "my log.txt"
      "GET" [] console ((text_ne _ _ refl, refl), ((text_ne _ _ refl, refl), tt)) refl
      no_tables-IsConsistent

two_are_written : (write_all time_util stub 2 0 (event ∷ error_event ∷ []) started).0 ≡ some 2
unfolding write_all
two_are_written = refl

write_all_progress_example :
    let outcome = write_all time_util stub 2 0 (event ∷ error_event ∷ []) started in
    (outcome.0 ≡ some 2) × (outcome.1.printed ≡ [] ++ reports 2 (ten_thousands 0 0))
write_all_progress_example =
    write_all_progress time_util stub event (error_event ∷ []) started 2 two_are_written
