-- ===== src/History/Stream/Success.antt =====
-- What a success of `SaveEventsStream` means.
use mathlib.Core.List.{append_assoc}
use two_services.Base.{
  String, nat_eq, ◌%◌, ℕ, ◌+◌, ◌≡◌, refl, inl, inr, Bool, true, List, [], ◌∷◌, ◌++◌, concat,
  Bool-cases, length,
}
use two_services.Base.Exec.{Except, ok, Except-cases}
use two_services.Shared.Dto
use two_services.Shared.Result.{VoidResult}
use two_services.Proto
use two_services.History.UseCases.{UseCases}
use two_services.History.Stream.{
  log_progress, log_interval, Reply, catch_fatal, finish, save_events_stream,
}
use two_services.History.Stream.Scan.{
  Stop, at_end, cancelled, invalid, scan, save_batches, conclude,
}
use two_services.History.Stream.Batches.{save_events_stream-save_batches}

-- Where `Execute` reports success, `R` holds between its events, the state before and the state
-- after; `R` adds up over batches that are saved one after another.
pub record Saves {S : Type 0} (uc : UseCases S) (R : List Dto.Event → S → S → Type 0) : Type 0 where
  pub nothing : (s : S) → R [] s s
  pub then_more :
      (first rest : List Dto.Event) (s m e : S) → R first s m → R rest m e → R (first ++ rest) s e
  pub success :
      (events : List Dto.Event) (s : S) (result : VoidResult)
      → (uc.save_event.execute events s).0 ≡ ok result
      → result.success ≡ true
      → R events s (uc.save_event.execute events s).1

module _ {S : Type 0} (uc : UseCases S) (say : String → S → S) (R : List Dto.Event → S → S → Type 0)
    (saves : Saves uc R)
    (said : (text : String) (events : List Dto.Event) (s t : S)
      → R events s t
      → R events s (say text t)) where
  log_progress-R :
      (total saved : ℕ) (events : List Dto.Event) (s t : S)
      → R events s t
      → R events s (log_progress uc say total saved t)
  log_progress-R total saved events s t h = elim (Bool-cases (nat_eq (total % log_interval) 0)) [
    | inl e ↦ rw e (said _ events s t h)
    | inr e ↦ rw e h
  ]

  abbrev success_of : Except Reply → Bool
  success_of r = (catch_fatal r).1.success

  conclude-success :
      (stop : Stop) (rest : List Dto.Event) (saved : ℕ) (s : S)
      → success_of (conclude uc say stop rest saved s).0 ≡ true
      → (stop ≡ at_end) × R rest s (conclude uc say stop rest saved s).1
  unfolding finish
  conclude-success at_end [] saved s h = (refl, said _ [] s s (saves.nothing s))
  conclude-success at_end (e ∷ rest) saved s h = (
    refl,
    elim (Except-cases (uc.save_event.execute (e ∷ rest) s).0) [
      | inl (result, r) ↦ elim (Bool-cases result.success) [
        | inl good ↦ rw (r, good) (said _ (e ∷ rest) s _ (saves.success (e ∷ rest) s result r good))
        | inr bad ↦ absurd (cc (rw (r, bad) at h))
      ]
      | inr (what, r) ↦ absurd (cc (rw r at h))
    ],
  )
  conclude-success cancelled rest saved s h = cc
  conclude-success (invalid message) rest saved s h = cc

  save_batches-success :
      (batches : List (List Dto.Event)) (stop : Stop) (rest : List Dto.Event) (saved : ℕ) (s : S)
      → success_of (save_batches uc say batches saved (conclude uc say stop rest) s).0 ≡ true
      → (stop ≡ at_end)
        × R
            (concat batches ++ rest)
            s
            (save_batches uc say batches saved (conclude uc say stop rest) s).1
  unfolding save_batches
  save_batches-success [] stop rest saved s h = conclude-success stop rest saved s h
  save_batches-success (batch ∷ batches) stop rest saved s h =
      elim (Except-cases (uc.save_event.execute batch s).0) [
        | inl (result, r) ↦ elim (Bool-cases result.success) [
          | inl good ↦
              let (ends, kept) =
                save_batches-success batches stop rest (saved + length batch)
                  (log_progress uc say (saved + length batch) (saved + length batch)
                    (uc.save_event.execute batch s).1)
                  (rw (r, good) at h) in
              (
                ends,
                rw (r, good, append_assoc batch (concat batches) rest)
                    (saves.then_more batch (concat batches ++ rest) s _ _
                      (log_progress-R _ _ batch s _ (saves.success batch s result r good)) kept),
              )
          | inr bad ↦ absurd (cc (rw (r, bad) at h))
        ]
        | inr (what, r) ↦ absurd (cc (rw r at h))
      ]

  -- With a service each of whose successes means that the events were saved: where the reply of
  -- `SaveEventsStream` reports success, the stream came to its end with every message valid, and
  -- all its events were saved, in order.
  pub save_events_stream_success :
      (stream : List (Proto.SaveEventsRequest × Bool)) (s : S)
      → (save_events_stream uc say stream s).0.1.success ≡ true
      → ((scan stream).1 ≡ at_end) × R (scan stream).0 s (save_events_stream uc say stream s).1
  save_events_stream_success stream s h =
      let (batches, rest, cut, runs) = save_events_stream-save_batches uc say stream in
      let (ends, kept) = save_batches-success batches (scan stream).1 rest 0 s (rw (runs s) at h) in
      (ends, rw (runs s, ← cut.whole) kept)
