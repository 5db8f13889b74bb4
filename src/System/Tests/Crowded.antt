-- ===== src/System/Tests/Crowded.antt =====
-- A log that is sent while another client saves an event.
use two_services.Samples.Facts.{no_tables-IsConsistent}
use two_services.Base.{String, ◌≡◌, refl, true, [], ◌∷◌, concat, List, ◌++◌}
use two_services.History.Repo.{save_events, insert_all, save_all, save_one}
use two_services.History.Repo.Invariant.{view, IsConsistent}
use two_services.Shared.Dto.{status_to_str}
use two_services.Utils.Convert.{
  to_proto_event, to_proto_event_status, to_proto_filter_decision, to_dto_event, to_dto_payload,
  from_proto_event_status, from_proto_filter_decision,
}
use two_services.History.Postgres.{
  insert_event, insert_event_row, insert_payload, insert_payload_row,
}
use two_services.Base.Decimal.{to_string, to_string_onto, read_digits}
use two_services.Utils.Builder.{
  format_timestamp, put_time, two_digits, ipv4_address_to_string, get_filter_decision,
  filter_reject_reason_to_str,
}
use two_services.Utils.Address.{read_ipv4, read_octets, after_dot, at_end}
use two_services.History.Server
use two_services.History.Validate.{validate_save_event_request, validate_events, validate_event}
use two_services.History.UseCases.{use_cases}
use two_services.History.UseCases
use two_services.Ipv4Filter.EventBuilder.{build, event_at, event_builder}
use two_services.Ipv4Filter.GrpcService.{event_saver, save_batch, do_save_request}
use two_services.Ipv4Filter.UseCases.{SaveRequest, execute_save, on_batches, on_batch}
use two_services.Ipv4Filter.UseCases.Built.{built}
use two_services.Samples.{engine, net, clock, now, time_util, empty_db, no_tables}
use two_services.Samples.Data.{error_event}
use two_services.Shared.Console.{Console}
use two_services.History.Service.Interleaved.{Action, Among, use_cases_among, Woven}
use two_services.History.Postgres.Select.{Joined}
use two_services.History.Repo.Invariant.{view}
use two_services.Samples.{stub_of, PeerOf}
use two_services.Ipv4Filter.GrpcService.{Stub}
use two_services.Samples.Delivered.{delivered_of}
use two_services.System.Crowded.{execute_save-among}

-- the other client saves before the batch of this one is saved
abbrev among : Among engine
among = record { db = empty_db; others = (Action.saves (error_event ∷ []) ∷ []) ∷ [] }

abbrev started : Console (PeerOf (Among engine))
started = record { printed = []; world = record { db = among; sent = []; start = among } }

abbrev request : SaveRequest net.CompositeFilter
request = record { filter = tt; source_service_name = "ipv4_filter" }

abbrev crowded_stub : Stub String (PeerOf (Among engine))
crowded_stub = stub_of (use_cases_among engine)

log_is_saved :
    (execute_save net
      (event_builder net clock now "ipv4_filter")
      (event_saver time_util crowded_stub)
      request
      "GET"
      (0, started)).0
    ≡ true
unfolding execute_save save_batch do_save_request on_batches on_batch build event_at
    format_timestamp put_time two_digits to_string to_string_onto read_digits ipv4_address_to_string
    get_filter_decision filter_reject_reason_to_str to_proto_event to_proto_event_status
    to_proto_filter_decision to_dto_event to_dto_payload from_proto_event_status
    from_proto_filter_decision Server.save_event validate_save_event_request validate_events
    validate_event use_cases UseCases.execute_save save_events insert_all save_all save_one
    insert_event insert_event_row insert_payload insert_payload_row status_to_str read_ipv4
    read_octets after_dot at_end
log_is_saved = refl

execute_save-among_example :
    let (saved, (readings, d)) =
      execute_save net
        (event_builder net clock now "ipv4_filter")
        (event_saver time_util crowded_stub)
        request
        "GET"
        (0, started) in
    IsConsistent engine d.world.db.db.tables
    × (more : List (Joined engine)) × (view engine d.world.db.db.tables
        ≡ view engine no_tables ++ more)
    × Woven engine (built net clock now "ipv4_filter" (concat (net.process_stream "GET" tt)) 0) more
execute_save-among_example =
    execute_save-among engine net clock now "ipv4_filter" time_util crowded_stub
      (delivered_of (use_cases_among engine)) request "GET" 0 started no_tables-IsConsistent
      log_is_saved
