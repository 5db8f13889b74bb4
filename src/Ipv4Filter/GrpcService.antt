-- ===== src/Ipv4Filter/GrpcService.antt =====
-- `GrpcService` of services/ipv4_filter/network/grpc_service.cc over the generated stub, with what it
-- prints. The deadlines, which the stub sees, are left out.
pub mod Progress
use Prim.Native.String.{◌++◌ as append}
use two_services.Base.{
  ℕ, ◌+◌, ◌*◌, ◌/◌, ◌%◌, nat_eq, String, Bool, true, false, not, ◌||◌, ◌&&◌, Option, none, some,
  List, [], ◌∷◌, ◌++◌, map, ltb, length, if◌then◌else◌,
}
use two_services.Base.Exec.{ok, throw, Exec}
use two_services.Grpc.{Status, is_ok, code_number}
use two_services.Base.Decimal.{to_string}
use two_services.Ipv4Filter.Interfaces.{EventSaver, EventProvider, StatsProvider}
use two_services.Shared.Console.{Console, say, in_world}
use two_services.Shared.Dto
use two_services.Proto
use two_services.Utils.Convert.{
  TimeUtil, to_dto_event, to_proto_event, to_dto_stats, to_proto_event_filter,
}

-- The generated class EventService::Stub and its ClientWriter; `W` is all that a call may change,
-- the peer included.
pub record Stub (Timestamp W : Type 0) : Type 0 where
  pub save_event : Proto.SaveEventRequest → W → (Status × Proto.SaveEventsResponse) × W
  pub get_events : Proto.GetEventsRequest Timestamp → W → (Status × Proto.GetEventsResponse) × W
  pub get_stats : W → (Status × Proto.GetStatsResponse) × W
  -- whether `SaveEventsStream` returns a writer
  pub save_events_stream : W → Bool × W
  pub write : Proto.SaveEventsRequest → W → Bool × W
  -- `WritesDone` and `Finish`
  pub finish : W → (Status × Proto.SaveEventsResponse) × W

abbrev pub stream_threshold : ℕ
stream_threshold = 10_000

-- PROGRESS_INTERVAL
abbrev pub progress_interval : ℕ
progress_interval = 10_000

-- the accessor `stats()`
abbrev pub stats_or_default : Option Proto.Stats → Proto.Stats
stats_or_default none = record { total_events = 0; success_events = 0; error_events = 0 }
stats_or_default (some stats) = stats

-- what the three handlers of responses print, by what they read of a response
abbrev pub response_line : Status → Bool → String → String
response_line status success message =
    if not (is_ok status)
    then append "gRPC error. Code: " (
        append (to_string (code_number status.error_code))
          (append " Message: " (append status.error_message "\n")))
    else if not success
    then append "Receiver rejected message: " (append message "\n")
    else append "Ok. Response message: " (append message "\n")

-- HandleSaveEventsResponse
abbrev pub handle_save_events_response : Status → Proto.SaveEventsResponse → String
handle_save_events_response status response = response_line status response.success response.message

-- HandleGetEventsResponse
abbrev pub handle_get_events_response : Status → Proto.GetEventsResponse → String
handle_get_events_response status response = response_line status response.success response.message

-- HandleGetStatsResponse
abbrev pub handle_get_stats_response : Status → Proto.GetStatsResponse → String
handle_get_stats_response status response = response_line status response.success response.message

-- AddEventToRequest
abbrev pub add_event_to_request : Proto.SaveEventRequest → Dto.Event → Proto.SaveEventRequest
unfolding to_proto_event
add_event_to_request request event = record { event = request.event ++ to_proto_event event ∷ [] }

-- the loop of `SaveBatch`
unfoldable pub add_events_to_request :
    Proto.SaveEventRequest → List Dto.Event → Proto.SaveEventRequest
unfolding to_proto_event
add_events_to_request request [] = request
add_events_to_request request (event ∷ events) =
    add_events_to_request (add_event_to_request request event) events

abbrev pub empty_request : Proto.SaveEventRequest
empty_request = record { event = [] }

abbrev pub using_unary : ℕ → String
using_unary n = append "Using unary RPC for " (append (to_string n) " events\n")

abbrev pub using_stream : ℕ → String
using_stream n = append "Using streaming RPC for " (append (to_string n) " events\n")

abbrev pub not_written : ℕ → String
not_written n = append "Failed to write event at index " (append (to_string n) "\n")

abbrev pub progress_line : ℕ → ℕ → String
progress_line sent total = append "Progress: " (
    append (to_string sent) (
      append "/"
        (append (to_string total) (append " (" (append (to_string (sent * 100 / total)) "%)\n")))))

-- the branches behind `Finish`: what is returned, and what is printed
abbrev pub finished : ℕ → Status → Proto.SaveEventsResponse → Bool × String
finished sent status response =
    if not (is_ok status)
    then (false, append "gRPC error: " (append status.error_message "\n"))
    else if not response.success
    then (false, append "Server error: " (append response.message "\n"))
    else (true, append "Successfully saved " (append (to_string sent) " events (stream)\n"))

module _ {W : Type 0} where
  -- `if (sent_count % PROGRESS_INTERVAL == 0 || sent_count == total) { … }`
  abbrev pub say_progress : ℕ → ℕ → Console W → Console W
  say_progress sent total c =
      if nat_eq (sent % progress_interval) 0 || nat_eq sent total
      then say (progress_line sent total) c
      else c

module _ {W : Type 0} (time : TimeUtil) (stub : Stub time.Timestamp W) where
  unfoldable pub do_save_request : Proto.SaveEventRequest → Console W → Bool × Console W
  do_save_request request c =
      let ((status, response), c') = in_world (stub.save_event request) c in
      (is_ok status && response.success, say (handle_save_events_response status response) c')

  -- GrpcService::Save
  unfoldable pub save : Dto.Event → Console W → Bool × Console W
  unfolding do_save_request to_proto_event
  save event c = do_save_request (add_event_to_request empty_request event) c

  -- the loop of `SaveBatchStream`, with its `total` and `sent_count`: none where a `Write` fails, and the
  -- count at its end
  unfoldable pub write_all : ℕ → ℕ → List Dto.Event → Console W → Option ℕ × Console W
  unfolding to_proto_event
  write_all total sent [] c = (some sent, c)
  write_all total sent (event ∷ events) c =
      let (written, c') =
        in_world (stub.write (record { event = some (to_proto_event event) })) c in
      let rest = write_all total (sent + 1) events (say_progress (sent + 1) total c') in
      if written then rest else (none, say (not_written sent) c')

  -- what stands behind the loop
  abbrev pub finish_stream : Option ℕ → Console W → Bool × Console W
  finish_stream none c = (false, c)
  finish_stream (some sent) c =
      let ((status, response), c') = in_world stub.finish c in
      let (saved, text) = finished sent status response in (saved, say text c')

  abbrev pub write_stream : List Dto.Event → Bool → Console W → Bool × Console W
  write_stream events false c = (false, say "Failed to create stream\n" c)
  write_stream events true c =
      let (sent, c') = write_all (length events) 0 events c in finish_stream sent c'

  unfoldable pub save_batch_stream : List Dto.Event → Console W → Bool × Console W
  unfolding write_all
  save_batch_stream [] c = (true, c)
  save_batch_stream (event ∷ events) c =
      let (opened, c') = in_world stub.save_events_stream c in
      write_stream (event ∷ events) opened c'

  -- GrpcService::SaveBatch
  unfoldable pub save_batch : List Dto.Event → Console W → Bool × Console W
  unfolding do_save_request save_batch_stream add_events_to_request
  save_batch events c =
      if ltb (length events) stream_threshold
      then do_save_request (add_events_to_request empty_request events)
          (say (using_unary (length events)) c)
      else save_batch_stream events (say (using_stream (length events)) c)

  unfoldable pub do_get_events_request :
      Proto.GetEventsRequest time.Timestamp → Console W → Option (List Dto.Event) × Console W
  unfolding to_dto_event
  do_get_events_request request c =
      let ((status, response), c') = in_world (stub.get_events request) c in
      (
        if not (is_ok status) || not response.success
            then none
            else some (map to_dto_event response.events),
        say (handle_get_events_response status response) c',
      )

  -- GrpcService::GetEventsImpl; the conversion of the filter may throw
  unfoldable pub get_events : Dto.EventFilter → Exec (Console W) (Option (List Dto.Event))
  unfolding do_get_events_request to_proto_event_filter
  get_events filter c = elim (to_proto_event_filter time (some filter)) [
    | throw what ↦ (throw what, c)
    | ok sent ↦
        let (events, c') = do_get_events_request (record { event_filter = sent }) c in
        (ok events, c')
  ]

  -- GrpcService::GetStats, with `DoGetStatsRequest`
  unfoldable pub get_stats : Console W → Option Dto.Stats × Console W
  unfolding to_dto_stats
  get_stats c =
      let ((status, response), c') = in_world stub.get_stats c in
      (
        if not (is_ok status) || not response.success
            then none
            else some (to_dto_stats (stats_or_default response.stats)),
        say (handle_get_stats_response status response) c',
      )

  -- the interfaces that `GrpcService` implements
  abbrev pub event_saver : EventSaver (Console W)
  event_saver = record { save = save; save_batch = save_batch }

  abbrev pub event_provider : EventProvider (Console W)
  event_provider = record { get_events_impl = get_events }

  abbrev pub stats_provider : StatsProvider (Console W)
  stats_provider = record { get_stats = get_stats }
