-- ===== src/History/Stream/Rounds.antt =====
-- One round of the loop of `SaveEventsStream`, on each of its branches.
use two_services.Base.{String, ◌≡◌, refl, Bool, true, false, leb, length}
use two_services.Base.Exec.{Except, ok, throw, continue}
use two_services.Grpc.{is_ok}
use two_services.Shared.Result.{VoidResult}
use two_services.Proto
use two_services.History.UseCases.{UseCases}
use two_services.History.Validate.{validate_save_events_request}
use two_services.History.Stream.{
  Progress, Round, returned, reading, received, event_or_default, batch_size, validation_failed,
  check_cancelled, read_round, after_batch,
}

module _ {S : Type 0} (uc : UseCases S) (say : String → S → S) where
  module _ (request : Proto.SaveEventsRequest) (is_cancelled : Bool) (p : Progress) where
    abbrev event : Proto.Event
    event = event_or_default request.event

    pub read_round-invalid :
        (s : S)
        → is_ok (validate_save_events_request request.event) ≡ false
        → read_round uc say request is_cancelled p s ≡ (
          ok (
              returned (
                validation_failed p.total_events
                  (validate_save_events_request request.event).error_message)),
          s,
        )
    unfolding read_round
    read_round-invalid s h = rw h

    pub read_round-short :
        (s : S)
        → is_ok (validate_save_events_request request.event) ≡ true
        → leb batch_size (length (received event p).batch) ≡ false
        → read_round uc say request is_cancelled p s
          ≡ (ok (check_cancelled is_cancelled (reading (received event p))), s)
    unfolding read_round
    read_round-short s h k = rw h (rw k)

    unfoldable pub full_round : Except VoidResult → S → Except Round × S
    full_round r s =
        continue r
          (λ result s'.
            let (round, s'') = after_batch uc say (received event p) result s' in
            continue round (λ q t. (ok (check_cancelled is_cancelled q), t)) s'')
          s

    continue-continue :
        (r : Except VoidResult) (s : S)
        → continue
            (continue r (after_batch uc say (received event p)) s).0
            (λ round s'. (ok (check_cancelled is_cancelled round), s'))
            (continue r (after_batch uc say (received event p)) s).1
          ≡ full_round r s
    unfolding full_round
    continue-continue (ok result) s = refl
    continue-continue (throw what) s = refl

    pub read_round-full :
        (s : S)
        → is_ok (validate_save_events_request request.event) ≡ true
        → leb batch_size (length (received event p).batch) ≡ true
        → read_round uc say request is_cancelled p s
          ≡ full_round
              (uc.save_event.execute (received event p).batch s).0
              (uc.save_event.execute (received event p).batch s).1
    unfolding read_round
    read_round-full s h k = rw h (
        rw k (
          continue-continue (uc.save_event.execute (received event p).batch s).0
            (uc.save_event.execute (received event p).batch s).1))
