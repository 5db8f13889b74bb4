-- ===== src/History/Stream/Scan.antt =====
-- A description of `SaveEventsStream` that does not mention its loop: which events the stream brings
-- and why it stops, and which batches are saved in which order.
use two_services.Base.{
  ℕ, ◌+◌, ◌<◌, ◌≡◌, String, Bool, List, [], ◌∷◌, ◌++◌, length, concat, All, if◌then◌else◌,
}
use two_services.Base.Exec.{Except, ok, Exec, continue}
use two_services.Grpc.{is_ok}
use two_services.Shared.Dto
use two_services.Shared.Result.{VoidResult}
use two_services.Proto
use two_services.Utils.Convert.{to_dto_event}
use two_services.History.UseCases.{UseCases}
use two_services.History.Validate.{validate_save_events_request}
use two_services.History.Stream.{
  Reply, event_or_default, batch_size, validation_failed, batch_failed, cancelled_at, finish,
  log_progress,
}

-- Why the loop is left: no more messages, a message that fails validation, or the client.
pub data Stop : Type 0 where
  at_end cancelled : Stop
  invalid : String → Stop

-- The events that the stream brings before it stops, and why it stops.
unfoldable pub scan : List (Proto.SaveEventsRequest × Bool) → List Dto.Event × Stop
scan [] = ([], at_end)
scan ((request, is_cancelled) ∷ rest) =
    let status = validate_save_events_request request.event in
    let event = to_dto_event (event_or_default request.event) in
    let (events, stop) = scan rest in
    if is_ok status
    then (if is_cancelled then (event ∷ [], cancelled) else (event ∷ events, stop))
    else ([], invalid status.error_message)

-- The events cut into full batches, in order, and a rest that fills none.
pub record IsCut (events : List Dto.Event) (batches : List (List Dto.Event)) (rest : List Dto.Event)
    : Type 0 where
  pub full : All (λ batch. length batch ≡ batch_size) batches
  pub short : length rest < batch_size
  pub whole : concat batches ++ rest ≡ events

module _ {S : Type 0} (uc : UseCases S) (say : String → S → S) where
  -- What follows the `Execute` of a batch: `more` from the new count on, or the reply to a failure.
  abbrev pub saved_then : (ℕ → Exec S Reply) → ℕ → Except VoidResult → Exec S Reply
  saved_then more saved r s =
      continue r
        (λ result s'.
          if result.success
          then more saved (log_progress uc say saved saved s')
          else (ok (batch_failed saved result.error_message), s'))
        s

  -- One `Execute` for each batch until one fails; `next` gets the number of events saved.
  unfoldable pub save_batches : List (List Dto.Event) → ℕ → (ℕ → Exec S Reply) → Exec S Reply
  save_batches [] saved next s = next saved s
  save_batches (batch ∷ batches) saved next s =
      let (r, s') = uc.save_event.execute batch s in
      saved_then (λ count. save_batches batches count next) (saved + length batch) r s'

  -- What is done with the rest, once the full batches are saved.
  abbrev pub conclude : Stop → List Dto.Event → ℕ → Exec S Reply
  conclude at_end rest saved s =
      finish uc say
        (record { total_events = saved + length rest; saved_events = saved; batch = rest }) s
  conclude cancelled rest saved s = (ok (cancelled_at (saved + length rest)), s)
  conclude (invalid message) rest saved s =
      (ok (validation_failed (saved + length rest) message), s)
