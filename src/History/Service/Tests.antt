-- ===== src/History/Service/Tests.antt =====
-- The service over an empty database: a message that is saved, and calls after it.
use two_services.History.Stream.{silent}
use two_services.Samples.Facts.{no_tables-IsConsistent}
use two_services.Base.{Bool, true, false, ◌≡◌, refl, String, none, some, List, [], ◌∷◌, ◌++◌, map}
use two_services.Base.Decimal.{read_digits}
use two_services.Shared.Dto.{status_to_str}
use two_services.Grpc.{status_ok}
use two_services.Proto
use two_services.Utils.Address.{read_ipv4, read_octets, after_dot, at_end}
use two_services.Utils.Convert.{
  to_dto_event, to_dto_payload, from_proto_event_status, from_proto_filter_decision,
}
use two_services.History.Postgres.{
  insert_event, insert_event_row, insert_payload, insert_payload_row,
}
use two_services.History.Postgres.Select.{Joined}
use two_services.History.Repo.{Db, save_events, insert_all, save_all, save_one}
use two_services.History.Repo.Invariant.{IsConsistent, Columns, view}
use two_services.History.Repo.Save.{all_columns, added_rows}
use two_services.History.Server
use two_services.History.Server.{save_response}
use two_services.History.Validate.{
  validate_save_event_request, validate_events, validate_event, validate_save_events_request,
}
use two_services.History.UseCases.{use_cases, execute_save}
use two_services.Shared.Result.{void_ok}
use two_services.History.Service.{EventService, grpc_event_service_impl, Rpc, serve}
use two_services.History.Service.Durable.{
  Served, begin, served, disturbed, Acknowledged, unary, postgres_use_cases, Acknowledged-stays,
}
use two_services.Samples.{engine, no_tables, empty_db, time_util}
use two_services.Samples.Data.{event_message, stream, error_event}
use two_services.History.Stream
use two_services.History.Stream.Scan.{Stop, scan}
use two_services.History.Service.Interleaved.{
  Action, Among, use_cases_among, Woven, save_events_stream-among,
}

abbrev request : Proto.SaveEventRequest
request = record { event = event_message ∷ [] }

abbrev service : EventService String (Db engine)
service = grpc_event_service_impl time_util (postgres_use_cases engine) silent

message_is_saved :
    Acknowledged engine time_util empty_db (Rpc.save_event request) (map to_dto_event request.event)
unfolding read_digits to_dto_event to_dto_payload from_proto_event_status from_proto_filter_decision
    Server.save_event validate_save_event_request validate_events validate_event use_cases
    execute_save save_events insert_all save_all save_one insert_event insert_event_row
    insert_payload insert_payload_row status_to_str read_ipv4 read_octets after_dot at_end
message_is_saved = unary request status_ok (save_response void_ok) refl refl

-- a connection that breaks in the middle of a stream, and a count
abbrev calls : Served engine time_util (serve service (Rpc.save_event request) empty_db) (
    serve service Rpc.get_stats (
      serve service
        (Rpc.save_events_stream stream)
        (record (serve service (Rpc.save_event request) empty_db) {
          faults = none ∷ some "broken" ∷ [];
        })))
calls =
    served (served (disturbed begin (none ∷ some "broken" ∷ [])) (Rpc.save_events_stream stream))
      Rpc.get_stats

Acknowledged-stays_example :
    let end = serve service Rpc.get_stats (
      serve service
        (Rpc.save_events_stream stream)
        (record (serve service (Rpc.save_event request) empty_db) {
          faults = none ∷ some "broken" ∷ [];
        })) in
    (columns : List (Columns engine)) × (later : List (Joined engine)) × (all_columns engine
        (map to_dto_event request.event)
      ≡ some columns)
    × (view engine end.tables
        ≡ (view engine no_tables ++ added_rows engine (map to_dto_event request.event) columns 1)
          ++ later)
    × IsConsistent engine end.tables
Acknowledged-stays_example =
    Acknowledged-stays engine time_util no_tables-IsConsistent message_is_saved calls

-- a stream of one message, and another handler that saves an event before the batch is saved
abbrev one_message : List (Proto.SaveEventsRequest × Bool)
one_message = (record { event = some event_message }, false) ∷ []

abbrev among : Among engine
among = record { db = empty_db; others = (Action.saves (error_event ∷ []) ∷ []) ∷ [] }

one_message_is_saved :
    (Stream.save_events_stream (use_cases_among engine) silent one_message among).0.1.success ≡ true
unfolding read_digits to_dto_event to_dto_payload from_proto_event_status from_proto_filter_decision
    Stream.save_events_stream Stream.read_loop Stream.read_round Stream.flush_full Stream.finish
    validate_save_events_request validate_event save_events insert_all save_all save_one
    insert_event insert_event_row insert_payload insert_payload_row status_to_str read_ipv4
    read_octets after_dot at_end
one_message_is_saved = refl

save_events_stream-among_example :
    let end = (Stream.save_events_stream (use_cases_among engine) silent one_message among).1 in
    ((scan one_message).1 ≡ Stop.at_end)
    × IsConsistent engine end.db.tables
    × (more : List (Joined engine)) × (view engine end.db.tables ≡ view engine no_tables ++ more)
    × Woven engine (scan one_message).0 more
save_events_stream-among_example =
    save_events_stream-among engine one_message among no_tables-IsConsistent one_message_is_saved
