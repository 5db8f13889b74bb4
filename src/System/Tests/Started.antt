-- ===== src/System/Tests/Started.antt =====
-- A log that is sent to a service that was started.
use two_services.Samples.Facts.{no_tables-IsConsistent}
use two_services.Base.{String, ◌≡◌, refl, true, [], ◌∷◌, concat, List}
use two_services.History.Repo.{save_events, insert_all, save_all, save_one}
use two_services.Shared.Dto.{status_to_str}
use two_services.Utils.Convert.{
  to_proto_event, to_proto_event_status, to_proto_filter_decision, to_dto_event, to_dto_payload,
  from_proto_event_status, from_proto_filter_decision,
}
use two_services.History.Postgres.{
  insert_event, insert_event_row, insert_payload, insert_payload_row,
}
use two_services.Base.Decimal.{to_string, to_string_onto, read_digits}
use two_services.Utils.Builder.{
  format_timestamp, put_time, two_digits, ipv4_address_to_string, get_filter_decision,
  filter_reject_reason_to_str,
}
use two_services.Utils.Address.{read_ipv4, read_octets, after_dot, at_end}
use two_services.History.Server
use two_services.History.Validate.{validate_save_event_request, validate_events, validate_event}
use two_services.History.UseCases.{use_cases}
use two_services.History.UseCases
use two_services.Ipv4Filter.EventBuilder.{build, event_at, event_builder}
use two_services.Ipv4Filter.GrpcService.{event_saver, save_batch, do_save_request}
use two_services.Ipv4Filter.UseCases.{SaveRequest, execute_save, on_batches, on_batch}
use two_services.Ipv4Filter.UseCases.Built.{built}
use two_services.Samples.{engine, net, clock, now, time_util, empty_db, no_tables}
use two_services.Shared.Console.{Console}
use two_services.Samples.{PeerOf}
use two_services.Ipv4Filter.GrpcService.{Stub}
use two_services.Base.{Bool, ℕ, Option, none, false, refl, ◌≡◌}
use two_services.Base.Exec.{Except, ok}
use two_services.History.Repo.Save.{IsStored}
use two_services.History.Pool.{
  Driver, create_prepared_pool, open_connections, prepare_all, destroy, return_connection, acquire,
}
use two_services.History.Pooled.{Meanwhile}
use two_services.History.Pooled
use two_services.History.Pooled.Ready.{
  Ready, write, pooled_events_repo, uncons, returned, save_events_returned,
}
use two_services.History.Settings.{pg_settings, server_port}
use two_services.History.Service.{EventService}
use two_services.History.Main
use two_services.History.Main.{serving}
use two_services.History.Main.Serving.{run, pooled_service}
use two_services.System.Started.{execute_save-run}
use two_services.Samples.{stub_logging}
use two_services.Samples.Delivered.{delivered_logging}

abbrev driver : Driver
driver = record { Connection = Bool; is_open = λ conn. true }

abbrev quiet : ℕ → Meanwhile engine driver (λ conn. conn)
quiet k = record { used = λ conn. conn; again = ok false }

abbrev ReadyHere : Type 0
ReadyHere = Ready engine driver (λ conn. conn) quiet

abbrev getenv : String → Option String
getenv name = none

abbrev five : List Bool
five = true ∷ true ∷ true ∷ true ∷ true ∷ []

abbrev printed : List String
printed =
    "Connecting to: localhost:5432...\n" ∷ "History service server listening on 0.0.0.0:50051\n"
    ∷ []

abbrev build_and_start : String → EventService String ReadyHere → Except Bool
build_and_start address service = ok true

comes_to_serve :
    run engine driver
      (λ conn. conn)
      quiet
      time_util
      (λ text k. ok false)
      (λ text k. ok false)
      (λ conn. true)
      build_and_start
      getenv
    ≡ serving "0.0.0.0:50051" five
        (pooled_service engine driver
          (λ conn. conn)
          quiet
          time_util
          (λ text k. ok false)
          (λ text k. ok false)
          (λ conn. true)
          build_and_start)
        printed
unfolding Main.main create_prepared_pool open_connections prepare_all destroy return_connection
    pg_settings server_port
comes_to_serve = refl

abbrev begun : ReadyHere
begun = record {
  first = true;
  others = true ∷ true ∷ true ∷ true ∷ [];
  db = empty_db;
  calls = 0;
  printed = printed;
}

abbrev started : Console (PeerOf ReadyHere)
started = record { printed = []; world = record { db = begun; sent = []; start = begun } }

abbrev request : SaveRequest net.CompositeFilter
request = record { filter = tt; source_service_name = "ipv4_filter" }

abbrev started_stub : Stub String (PeerOf ReadyHere)
started_stub =
    stub_logging (use_cases (pooled_events_repo engine driver (λ conn. conn) quiet))
      (write engine driver (λ conn. conn) quiet)

log_is_saved :
    (execute_save net
      (event_builder net clock now "ipv4_filter")
      (event_saver time_util started_stub)
      request
      "GET"
      (0, started)).0
    ≡ true
unfolding execute_save save_batch do_save_request on_batches on_batch build event_at
    format_timestamp put_time two_digits to_string to_string_onto read_digits ipv4_address_to_string
    get_filter_decision filter_reject_reason_to_str to_proto_event to_proto_event_status
    to_proto_filter_decision to_dto_event to_dto_payload from_proto_event_status
    from_proto_filter_decision Server.save_event validate_save_event_request validate_events
    validate_event use_cases UseCases.execute_save save_events insert_all save_all save_one
    insert_event insert_event_row insert_payload insert_payload_row status_to_str read_ipv4
    read_octets after_dot at_end pooled_events_repo save_events_returned returned uncons
    Pooled.save_events acquire destroy return_connection
log_is_saved = refl

execute_save-run_example :
    let end =
      (execute_save net
        (event_builder net clock now "ipv4_filter")
        (event_saver time_util started_stub)
        request
        "GET"
        (0, started)).1.1.world.db in
    IsStored engine
      (built net clock now "ipv4_filter" (concat (net.process_stream "GET" tt)) 0)
      no_tables
      end.db.tables
execute_save-run_example =
    execute_save-run engine driver (λ conn. conn) quiet (λ k conn h. (refl, h)) time_util
      (λ text k. ok false) (λ text k. ok false) (λ conn. true) build_and_start (λ conn. refl)
      (λ conn. refl) net clock now "ipv4_filter" getenv "0.0.0.0:50051" five printed comes_to_serve
      started_stub
      (delivered_logging (use_cases (pooled_events_repo engine driver (λ conn. conn) quiet))
        (write engine driver (λ conn. conn) quiet))
      request "GET" 0 started refl no_tables-IsConsistent log_is_saved
