-- ===== src/History/Server.antt =====
-- The unary handlers of services/history/network/grpc_event_service_impl.cc. A handler returns its
-- status and the response that it filled in; what a use case throws goes through it.
pub mod Unary
use two_services.Base.{Bool, true, false, Option, none, some, List, [], ◌∷◌, map, if◌then◌else◌}
use two_services.Base.Exec.{ok, Exec, continue}
use two_services.Grpc.{Status, status_ok, is_ok}
use two_services.Shared.Dto
use two_services.Shared.Result.{Result, VoidResult}
use two_services.Proto
use two_services.Utils.Convert.{
  TimeUtil, to_dto_event, to_proto_event, to_proto_stats, from_proto_event_filter,
}
use two_services.History.UseCases.{UseCases}
use two_services.History.Validate.{validate_save_event_request}

-- the response before the handler sets anything
abbrev pub no_save_response : Proto.SaveEventsResponse
no_save_response = record { success = false; message = "" }

abbrev pub save_response : VoidResult → Proto.SaveEventsResponse
save_response result = record {
  success = result.success;
  message =
      if result.success then "Event(s) received and saved successfully." else result.error_message;
}

-- the response to a `GetEvents` that succeeded, by the events of the result
abbrev pub found_response : Option (List Dto.Event) → Proto.GetEventsResponse
found_response none = record { events = []; success = true; message = "No events found" }
found_response (some []) = record { events = []; success = true; message = "No events found" }
found_response (some (e ∷ events)) = record {
  events = map to_proto_event (e ∷ events);
  success = true;
  message = "GetEvents successful.";
}

abbrev pub events_response : Result (List Dto.Event) → Proto.GetEventsResponse
events_response result =
    if result.success
    then found_response result.value
    else record { events = []; success = false; message = result.error_message }

-- the response to `GetStats`, by the success flag and the data of the result
abbrev pub stats_response : Result Dto.Stats → Bool → Option Dto.Stats → Proto.GetStatsResponse
stats_response result true (some stats) = record {
  stats = some (to_proto_stats stats);
  success = true;
  message = "GetStats successful.";
}
stats_response result _ _ = record { stats = none; success = false; message = result.error_message }

module _ {S : Type 0} (uc : UseCases S) where
  -- GrpcEventServiceImpl::SaveEvent
  unfoldable pub save_event : Proto.SaveEventRequest → Exec S (Status × Proto.SaveEventsResponse)
  unfolding validate_save_event_request
  save_event request s =
      let status = validate_save_event_request request.event in
      if is_ok status
      then (let (r, s') = uc.save_event.execute (map to_dto_event request.event) s in
          continue r (λ result s''. (ok (status, save_response result), s'')) s')
      else (ok (status, no_save_response), s)

  -- GrpcEventServiceImpl::GetStats
  unfoldable pub get_stats : Exec S (Status × Proto.GetStatsResponse)
  unfolding to_proto_stats
  get_stats s =
      let (r, s') = uc.get_stats.execute s in
      continue r
        (λ result s''. (ok (status_ok, stats_response result result.success result.value), s'')) s'

  -- GrpcEventServiceImpl::GetEvents. The accessor `event_filter()` gives the default message where
  -- the field is not set, so the filter that the use case gets is never empty.
  unfoldable pub get_events :
      (time : TimeUtil)
      → Proto.GetEventsRequest time.Timestamp
      → Exec S (Status × Proto.GetEventsResponse)
  unfolding from_proto_event_filter to_proto_event
  get_events time request s =
      let (r, s') =
        uc.get_events.execute
          (from_proto_event_filter time (some (Proto.filter_or_default request.event_filter))) s in
      continue r (λ result s''. (ok (status_ok, events_response result), s'')) s'
