-- ===== src/History/Stream.antt =====
-- `SaveEventsStream` of services/history/network/grpc_event_service_impl.cc. The stream is the list
-- of what `Read` delivers, each message with what `IsCancelled` answers after it. The counters are
-- `int`s, and streams below 2 ^ 31 messages do not overflow them.
pub mod Scan
pub mod Rounds
pub mod Batches
pub mod Stores
pub mod Success
pub mod Log
pub mod Alike
mod Tests
use Prim.Native.String.{◌++◌ as join}
use two_services.Base.{
  ℕ, ◌+◌, String, Bool, true, false, Option, none, some, List, [], ◌∷◌, ◌++◌, leb, length,
  if◌then◌else◌, nat_eq, ◌%◌,
}
use two_services.Base.Exec.{Except, ok, throw, Exec, continue}
use two_services.Base.Decimal.{to_string}
use two_services.Grpc.{Status, status_ok, status_cancelled, is_ok}
use two_services.Shared.Dto
use two_services.Shared.Result.{VoidResult}
use two_services.Proto
use two_services.Utils.Convert.{to_dto_event}
use two_services.History.UseCases.{UseCases}
use two_services.History.Validate.{validate_save_events_request}

abbrev pub batch_size : ℕ
batch_size = 1000

abbrev pub Reply : Type 0
Reply = Status × Proto.SaveEventsResponse

abbrev pub replied : Status → Bool → String → Reply
replied status success message = (status, record { success = success; message = message })

abbrev pub validation_failed : ℕ → String → Reply
validation_failed total message =
    replied status_ok false
      (join "Validation failed at event " (join (to_string total) (join ": " message)))

abbrev pub batch_failed : ℕ → String → Reply
batch_failed total message =
    replied status_ok false
      (join "Failed to save batch at event " (join (to_string total) (join ": " message)))

abbrev pub final_batch_failed : String → Reply
final_batch_failed message = replied status_ok false (join "Failed to save final batch: " message)

abbrev pub cancelled_at : ℕ → Reply
cancelled_at total =
    replied status_cancelled false
      (join "Cancelled by client at " (join (to_string total) " events"))

abbrev pub saved_of : ℕ → ℕ → Reply
saved_of saved total =
    replied status_ok true
      (join "Saved " (join (to_string saved) (join "/" (join (to_string total) " events"))))

abbrev pub log_interval : ℕ
log_interval = 10000

abbrev pub stream_progress : ℕ → ℕ → String
stream_progress total saved =
    join "Stream progress: "
      (join (to_string total) (join " events processed, " (join (to_string saved) " saved\n")))

abbrev pub stream_completed : ℕ → ℕ → String
stream_completed saved total =
    join "Stream completed: "
      (join (to_string saved) (join "/" (join (to_string total) " events saved\n")))

-- the variables of the loop
pub record Progress : Type 0 where
  pub total_events : ℕ
  pub saved_events : ℕ
  pub batch : List Dto.Event

abbrev pub no_progress : Progress
no_progress = record { total_events = 0; saved_events = 0; batch = [] }

-- what a round of the loop ends in: a `return`, or the next round
pub data Round : Type 0 where
  returned : Reply → Round
  reading : Progress → Round

-- `dto_event` in the batch, and counted
abbrev pub received : Proto.Event → Progress → Progress
received e p = record p {
  total_events = p.total_events + 1;
  batch = p.batch ++ to_dto_event e ∷ [];
}

abbrev pub event_or_default : Option Proto.Event → Proto.Event
event_or_default none = Proto.default_event
event_or_default (some e) = e

-- the check of `IsCancelled` at the end of the round
abbrev pub check_cancelled : Bool → Round → Round
check_cancelled cancelled (returned reply) = returned reply
check_cancelled cancelled (reading p) =
    if cancelled then returned (cancelled_at p.total_events) else reading p

abbrev pub next_round : {S : Type 0} → (Progress → Exec S Reply) → Round → Exec S Reply
next_round rest (returned reply) s = (ok reply, s)
next_round rest (reading p) s = rest p s

-- the handler of `catch (const std::exception &e)`
abbrev pub catch_fatal : Except Reply → Reply
catch_fatal (ok reply) = reply
catch_fatal (throw what) = replied status_ok false (join "Fatal error: " what)

-- `say` writes a text to the standard output of the service
module _ {S : Type 0} (uc : UseCases S) (say : String → S → S) where
  abbrev pub log_progress : ℕ → ℕ → S → S
  log_progress total saved s =
      if nat_eq (total % log_interval) 0 then say (stream_progress total saved) s else s

  -- the branches on the result of `Execute(batch)` inside the loop, and the log
  abbrev pub after_batch : Progress → VoidResult → Exec S Round
  after_batch p result s =
      if result.success
      then (
        ok (reading (record p { saved_events = p.saved_events + length p.batch; batch = [] })),
        log_progress p.total_events (p.saved_events + length p.batch) s,
      )
      else (ok (returned (batch_failed p.total_events result.error_message)), s)

  -- the reply to a stream that was saved, and the log
  abbrev pub completed : ℕ → ℕ → Exec S Reply
  completed saved total s = (ok (saved_of saved total), say (stream_completed saved total) s)

  abbrev pub after_final_batch : Progress → VoidResult → Exec S Reply
  after_final_batch p result s =
      if result.success
      then completed (p.saved_events + length p.batch) p.total_events s
      else (ok (final_batch_failed result.error_message), s)

  -- `if (batch.size() >= BATCH_SIZE) { … }`
  unfoldable pub flush_full : Progress → Exec S Round
  flush_full p s =
      if leb batch_size (length p.batch)
      then (let (r, s') = uc.save_event.execute p.batch s in continue r (after_batch p) s')
      else (ok (reading p), s)

  -- one round of `while (reader->Read(&request))`
  unfoldable pub read_round : Proto.SaveEventsRequest → Bool → Progress → Exec S Round
  unfolding flush_full
  read_round request cancelled p s =
      let status = validate_save_events_request request.event in
      if is_ok status
      then (let (r, s') = flush_full (received (event_or_default request.event) p) s in
          continue r (λ round s''. (ok (check_cancelled cancelled round), s'')) s')
      else (ok (returned (validation_failed p.total_events status.error_message)), s)

  -- what stands behind the loop
  unfoldable pub finish : Progress → Exec S Reply
  finish p s = elim p.batch [
    | [] ↦ completed p.saved_events p.total_events s
    | e ∷ batch ↦
        let (r, s') = uc.save_event.execute p.batch s in continue r (after_final_batch p) s'
  ]

  unfoldable pub read_loop : List (Proto.SaveEventsRequest × Bool) → Progress → Exec S Reply
  read_loop [] p s = finish p s
  read_loop ((request, cancelled) ∷ rest) p s =
      let (r, s') = read_round request cancelled p s in
      continue r (λ round. next_round (read_loop rest) round) s'

  -- GrpcEventServiceImpl::SaveEventsStream
  unfoldable pub save_events_stream : List (Proto.SaveEventsRequest × Bool) → S → Reply × S
  unfolding read_loop read_round finish
  save_events_stream stream s = let (r, s') = read_loop stream no_progress s in (catch_fatal r, s')

-- where nobody reads the standard output
abbrev pub silent : {S : Type 0} → String → S → S
silent text s = s
