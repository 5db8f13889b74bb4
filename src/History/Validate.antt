-- ===== src/History/Validate.antt =====
-- Validation in services/history/network/grpc_event_service_impl.cc.
pub mod Accepts
use two_services.Base.{
  Bool, true, false, not, Option, none, some, List, [], ◌∷◌, ◌==◌, if◌then◌else◌,
}
use two_services.Grpc.{Status, status_ok, invalid_argument_status, is_ok}
use two_services.Proto

abbrev pub is_unspecified_status : Proto.EventStatus → Bool
is_unspecified_status Proto.EventStatus.unspecified = true
is_unspecified_status Proto.EventStatus.success = false
is_unspecified_status Proto.EventStatus.error = false
is_unspecified_status (Proto.EventStatus.unknown n) = false

abbrev pub is_unspecified_decision : Proto.FilterDecision → Bool
is_unspecified_decision Proto.FilterDecision.unspecified = true
is_unspecified_decision Proto.FilterDecision.accepted = false
is_unspecified_decision Proto.FilterDecision.rejected = false
is_unspecified_decision (Proto.FilterDecision.unknown n) = false

unfoldable pub validate_event : Proto.Event → Status
validate_event event =
    let payload = Proto.payload_or_default event.payload in
    if not (event.source_service == "ipv4_filter")
    then invalid_argument_status "Unknown source_service."
    else if event.timestamp_utc == ""
    then invalid_argument_status "timestamp_utc is required."
    else if is_unspecified_status event.status
    then invalid_argument_status "status must be SUCCESS or ERROR"
    else if payload.raw_line == ""
    then invalid_argument_status "payload raw_line is required"
    else if is_unspecified_decision payload.filter_decision
    then invalid_argument_status "filter_decision must be 'accepted' or 'rejected'."
    else status_ok

-- the loop of `Validate(const SaveEventRequest *)`: the first event that fails decides
unfoldable pub validate_events : List Proto.Event → Status
unfolding validate_event
validate_events [] = status_ok
validate_events (event ∷ rest) =
    let status = validate_event event in
    let others = validate_events rest in if is_ok status then others else status

-- `Validate(const SaveEventRequest *)`
unfoldable pub validate_save_event_request : List Proto.Event → Status
unfolding validate_events
validate_save_event_request [] = invalid_argument_status "At least one event is required."
validate_save_event_request (event ∷ rest) = validate_events (event ∷ rest)

-- `Validate(const SaveEventsRequest *)`
unfoldable pub validate_save_events_request : Option Proto.Event → Status
unfolding validate_event
validate_save_events_request none = invalid_argument_status "Event is required."
validate_save_events_request (some event) = validate_event event
