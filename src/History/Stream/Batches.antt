-- ===== src/History/Stream/Batches.antt =====
-- The loop of `SaveEventsStream` against the description in Stream/Scan.
use two_services.Base.{
  String, ℕ, ◌+◌, ◌<◌, ◌≡◌, refl, sym, ap, ◌∙◌, Bool, true, false, inl, inr, List, [], ◌∷◌, ◌++◌,
  arith, tests, leb, length, length-append, Bool-cases,
}
use mathlib.Core.List.{append-nil, append_assoc}
use two_services.Base.Exec.{Except, ok, throw, Exec, continue}
use two_services.Grpc.{is_ok}
use two_services.Shared.Dto
use two_services.Shared.Result.{VoidResult}
use two_services.Proto
use two_services.Utils.Convert.{to_dto_event}
use two_services.History.UseCases.{UseCases}
use two_services.History.Validate.{validate_save_events_request}
use two_services.History.Stream.Rounds.{
  read_round-invalid, read_round-short, read_round-full, full_round,
}
use two_services.History.Stream.Scan.{cancelled, scan, IsCut, saved_then, save_batches, conclude}
use two_services.History.Stream.{
  Reply, Progress, no_progress, received, event_or_default, batch_size, batch_failed, cancelled_at,
  catch_fatal, log_progress, finish, next_round, read_loop, save_events_stream,
}

module _ {S : Type 0} (uc : UseCases S) (say : String → S → S) where
  -- The loop from `p` on saves the batches of what it holds and what the stream brings.
  abbrev Saves : List (Proto.SaveEventsRequest × Bool) → Progress → Type 0
  Saves stream p =
      (batches : List (List Dto.Event)) × (rest : List Dto.Event) × IsCut
        (p.batch ++ (scan stream).0) batches rest
      × ((s : S)
          → read_loop uc say stream p s
            ≡ save_batches uc say batches p.saved_events (conclude uc say (scan stream).1 rest) s)

  module _ (request : Proto.SaveEventsRequest) (is_cancelled : Bool)
      (stream : List (Proto.SaveEventsRequest × Bool)) (p : Progress)
      (small : length p.batch < batch_size)
      (counted : p.total_events ≡ p.saved_events + length p.batch)
      (valid : is_ok (validate_save_events_request request.event) ≡ true) where
    abbrev q : Progress
    q = received (event_or_default request.event) p

    length-received : length q.batch ≡ length p.batch + 1
    length-received = length-append p.batch (to_dto_event (event_or_default request.event) ∷ [])

    received_counted : q.total_events ≡ q.saved_events + length q.batch
    received_counted = omega (arith, length-received)

    -- the progress after the batch was saved
    abbrev emptied : Progress
    emptied = record q { saved_events = q.saved_events + length q.batch; batch = [] }

    short :
        leb batch_size (length q.batch) ≡ false
        → Saves stream q
        → Saves ((request, is_cancelled) ∷ stream) p
    unfolding read_loop save_batches scan
    short is_short (batches, rest, cut, runs) = elim (Bool-cases is_cancelled) [
      | inl yes_cancelled ↦
          rw (valid, yes_cancelled)
            (
              [],
              q.batch,
              record { full = tt; short = omega tests; whole = refl },
              λ s.
                  rw (read_round-short uc say request true p s valid is_short)
                    (ap (λ (t : ℕ). (ok (cancelled_at t), s)) received_counted),
            )
      | inr go_on ↦
          rw (valid, go_on)
            (
              batches,
              rest,
              record {
                full = cut.full;
                short = cut.short;
                whole = cut.whole ∙ append_assoc p.batch _ _;
              },
              λ s. rw (read_round-short uc say request false p s valid is_short) (runs s),
            )
    ]

    after_full_batch :
        (batches : List (List Dto.Event)) (next : ℕ → Exec S Reply) (r : Except VoidResult) (s : S)
        → ((s' : S)
            → read_loop uc say stream emptied s'
              ≡ save_batches uc say batches emptied.saved_events next s')
        → continue
            (full_round uc say request false p r s).0
            (λ round. next_round (read_loop uc say stream) round)
            (full_round uc say request false p r s).1
          ≡ saved_then uc say
              (λ count. save_batches uc say batches count next)
              (q.saved_events + length q.batch)
              r
              s
    unfolding full_round
    after_full_batch batches next (throw what) s runs = refl
    after_full_batch batches next (ok result) s runs = elim (Bool-cases result.success) [
      | inl saved ↦ rw saved (
          runs _
          ∙ ap
              (λ (t : ℕ).
                save_batches uc say batches (q.saved_events + length q.batch) next
                  (log_progress uc say t (q.saved_events + length q.batch) s))
              received_counted)
      | inr failed ↦
          rw failed (ap (λ (t : ℕ). (ok (batch_failed t result.error_message), s)) received_counted)
    ]

    cancelled_after_full_batch :
        (r : Except VoidResult) (s : S)
        → continue
            (full_round uc say request true p r s).0
            (λ round. next_round (read_loop uc say stream) round)
            (full_round uc say request true p r s).1
          ≡ saved_then uc say
              (λ count. conclude uc say cancelled [] count)
              (q.saved_events + length q.batch)
              r
              s
    unfolding full_round
    cancelled_after_full_batch (throw what) s = refl
    cancelled_after_full_batch (ok result) s = elim (Bool-cases result.success) [
      | inl saved ↦ rw saved (
          ap
            (λ (t : ℕ).
              (ok (cancelled_at t), log_progress uc say t (q.saved_events + length q.batch) s))
            received_counted
          ∙ ap
              (λ (t : ℕ). (
                ok (cancelled_at t),
                log_progress uc say emptied.saved_events emptied.saved_events s,
              ))
              (omega arith))
      | inr failed ↦
          rw failed (ap (λ (t : ℕ). (ok (batch_failed t result.error_message), s)) received_counted)
    ]

    full :
        leb batch_size (length q.batch) ≡ true
        → Saves stream emptied
        → Saves ((request, is_cancelled) ∷ stream) p
    unfolding read_loop save_batches scan
    full is_full (batches, rest, cut, runs) = elim (Bool-cases is_cancelled) [
      | inl yes_cancelled ↦
          rw (valid, yes_cancelled)
            (
              q.batch ∷ [],
              [],
              record {
                full = (omega (tests, length-received), tt);
                short = omega arith;
                whole = append-nil _ ∙ append-nil _;
              },
              λ s.
                  rw (read_round-full uc say request true p s valid is_full)
                    (cancelled_after_full_batch _ _),
            )
      | inr go_on ↦
          rw (valid, go_on)
            (
              q.batch ∷ batches,
              rest,
              record {
                full = (omega (tests, length-received), cut.full);
                short = cut.short;
                whole = simp (append_assoc, cut.whole);
              },
              λ s.
                  rw (read_round-full uc say request false p s valid is_full)
                    (after_full_batch batches _ _ _ runs),
            )
    ]

  read_loop-Saves :
      (stream : List (Proto.SaveEventsRequest × Bool)) (p : Progress)
      → length p.batch < batch_size
      → p.total_events ≡ p.saved_events + length p.batch
      → Saves stream p
  unfolding read_loop save_batches scan
  read_loop-Saves [] p h e = (
    [],
    p.batch,
    record { full = tt; short = h; whole = sym (append-nil p.batch) },
    λ s. ap (λ (t : ℕ). finish uc say (record p { total_events = t }) s) e,
  )
  read_loop-Saves ((request, is_cancelled) ∷ stream) p h e =
      elim (Bool-cases (is_ok (validate_save_events_request request.event))) [
        | inl valid ↦
            elim (Bool-cases
              (leb batch_size (length (received (event_or_default request.event) p).batch))) [
                | inl is_full ↦ full request is_cancelled stream p h e valid is_full (
                    read_loop-Saves stream _ (omega arith) (
                      omega (
                        arith,
                        length-append p.batch (to_dto_event (event_or_default request.event) ∷ []),
                      )))
                | inr is_short ↦ short request is_cancelled stream p h e valid is_short (
                    read_loop-Saves stream (received (event_or_default request.event) p)
                      (omega tests)
                      (omega (
                        arith,
                        length-append p.batch (to_dto_event (event_or_default request.event) ∷ []),
                      )))
              ]
        | inr bad ↦ rw bad (
          [],
          p.batch,
          record { full = tt; short = h; whole = sym (append-nil p.batch) },
          λ s. rw (read_round-invalid uc say request is_cancelled p s bad) (rw e),
        )
      ]

  pub save_events_stream-save_batches :
      (stream : List (Proto.SaveEventsRequest × Bool))
      → (batches : List (List Dto.Event)) × (rest : List Dto.Event) × IsCut
          (scan stream).0
          batches
          rest
        × ((s : S)
            → save_events_stream uc say stream s ≡ (
              catch_fatal
                  (save_batches uc say batches 0 (conclude uc say (scan stream).1 rest) s).0,
              (save_batches uc say batches 0 (conclude uc say (scan stream).1 rest) s).1,
            ))
  unfolding save_events_stream
  save_events_stream-save_batches stream =
      let (batches, rest, cut, runs) = read_loop-Saves stream no_progress (omega arith) refl in
      (batches, rest, cut, λ s. rw (runs s))
