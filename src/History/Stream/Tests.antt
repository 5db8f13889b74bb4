-- ===== src/History/Stream/Tests.antt =====
-- `SaveEventsStream` on short streams.
use two_services.Base.{◌≡◌, refl, Bool, true, false, some, List, [], ◌∷◌, ◌++◌, length}
use two_services.Shared.Dto
use two_services.Proto
use two_services.Utils.Convert.{to_dto_event}
use two_services.History.Validate.{validate_event, validate_save_events_request}
use two_services.History.Stream.{
  silent, save_events_stream, finish, read_loop, read_round, flush_full,
}
use two_services.History.Stream.Scan.{scan}
use two_services.History.Stream.Stores.{stored, reply_to, save_events_stream-stored}
use two_services.Base.Decimal.{to_string, to_string_onto, read_digits}
use two_services.Shared.Console.{Console, say}
use two_services.Samples.Data.{
  printing_service, event, event_message, stream, log_service, log_service_appends,
}

save_events_stream-stored_example :
    (end : List Dto.Event) × (end ≡ (event ∷ []) ++ stored (scan stream).1 (scan stream).0)
    × (save_events_stream log_service silent stream (event ∷ [])
        ≡ (reply_to (scan stream).1 (length (scan stream).0), end))
save_events_stream-stored_example =
    save_events_stream-stored log_service silent (λ log. log) log_service_appends stream
      (event ∷ [])

abbrev whole_stream : List (Proto.SaveEventsRequest × Bool)
whole_stream = (record { event = some event_message }, false) ∷ []

whole_stream_succeeds : (save_events_stream log_service silent whole_stream []).0.1.success ≡ true
unfolding save_events_stream read_loop read_round flush_full finish validate_save_events_request
    validate_event to_dto_event
whole_stream_succeeds = refl

abbrev begun : Console (List Dto.Event)
begun = record { printed = "listening\n" ∷ []; world = [] }

whole_stream_is_logged :
    (save_events_stream printing_service say whole_stream begun).1.printed
    ≡ "listening\n" ∷ "Stream completed: 1/1 events saved\n" ∷ []
unfolding save_events_stream read_loop read_round flush_full finish validate_save_events_request
    validate_event to_dto_event to_string to_string_onto read_digits
whole_stream_is_logged = refl
