-- ===== src/System/Delivery.antt =====
-- gRPC between `GrpcService` of the client and the handlers of the service: what a call that ends with
-- the status OK says of the server. Calls that end with another status say nothing.
use mathlib.Core.List.{append_assoc, append-nil}
use two_services.Base.{
  String, ◌≡◌, refl, sym, ap, subst, ◌∙◌, inl, inr, Bool, true, some, List, [], ◌∷◌, ◌++◌, map,
  and-eq_true, Bool-cases, ltb, length, ℕ, ◌+◌, ◌%◌, nat_eq, ◌||◌, Option-cases,
}
use two_services.Base.Exec.{ok}
use two_services.Grpc.{Status, is_ok}
use two_services.Shared.Dto
use two_services.Proto
use two_services.Utils.Convert.{TimeUtil, to_dto_event, to_proto_event}
use two_services.History.UseCases.{UseCases}
use two_services.History.Server
use two_services.History.Server.Unary.{save_event-success}
use two_services.History.Stream.{save_events_stream}
use two_services.History.Stream.Scan.{scan}
use two_services.History.Stream.Success.{Saves, save_events_stream_success}
use two_services.System.Messages.{
  messages, over_the_wire, message_of, read_message, scan-at_end, map-map,
  add_events_to_request-map,
}
use two_services.Ipv4Filter.GrpcService.{
  Stub, do_save_request, write_all, write_stream, finish_stream, finished, save_batch_stream,
  save_batch, stream_threshold, say_progress, progress_interval, empty_request, using_unary,
  using_stream,
}
use two_services.Shared.Console.{Console, say, in_world}

-- `server` is the state of the server; no other client changes it during a call. `sent` is what was
-- written to the open stream, and `start` the state in which the server began to read it; `log` writes
-- to the standard output of the server.
pub record Delivers {S Timestamp W : Type 0} (uc : UseCases S) (log : String → S → S)
    (stub : Stub Timestamp W) : Type 0 where
  pub server : W → S
  pub sent : W → List Proto.SaveEventsRequest
  pub start : W → S
  pub answered :
      (request : Proto.SaveEventRequest) (w : W)
      → is_ok (stub.save_event request w).0.0 ≡ true
      → Server.save_event uc request (server w)
        ≡ (ok (stub.save_event request w).0, server (stub.save_event request w).1)
  pub opened :
      (w : W)
      → (stub.save_events_stream w).0 ≡ true
      → (sent (stub.save_events_stream w).1 ≡ []) × (start (stub.save_events_stream w).1 ≡ server w)
  pub written :
      (message : Proto.SaveEventsRequest) (w : W)
      → (stub.write message w).0 ≡ true
      → (sent (stub.write message w).1 ≡ sent w ++ message ∷ [])
        × (start (stub.write message w).1 ≡ start w)
  -- the handler read the messages, each with some answer of `IsCancelled`, and the call ends with its reply
  pub finished :
      (w : W)
      → is_ok (stub.finish w).0.0 ≡ true
      → (stream : List (Proto.SaveEventsRequest × Bool)) × (messages stream ≡ sent w)
        × (save_events_stream uc log stream (start w)
            ≡ ((stub.finish w).0, server (stub.finish w).1))

module _ {S W : Type 0} (uc : UseCases S) (R : List Dto.Event → S → S → Type 0) (saves : Saves uc R)
    (time : TimeUtil) (stub : Stub time.Timestamp W) (log : String → S → S)
    (logged : (text : String) (events : List Dto.Event) (s t : S)
      → R events s t
      → R events s (log text t))
    (delivers : Delivers uc log stub) where
  open delivers use {server, sent, start, answered, opened, written}

  say_progress-world : (n total : ℕ) (c : Console W) → (say_progress n total c).world ≡ c.world
  say_progress-world n total c =
      elim (Bool-cases (nat_eq (n % progress_interval) 0 || nat_eq n total)) [
        | inl e ↦ rw e
        | inr e ↦ rw e
      ]

  write_all-sent :
      (total n : ℕ) (events : List Dto.Event) (c : Console W) (count : ℕ)
      → (write_all time stub total n events c).0 ≡ some count
      → (sent (write_all time stub total n events c).1.world
          ≡ sent c.world ++ map message_of events)
        × (start (write_all time stub total n events c).1.world ≡ start c.world)
  unfolding write_all
  write_all-sent total n [] c count h = (sym (append-nil (sent c.world)), refl)
  write_all-sent total n (event ∷ events) c count h =
      let writing = in_world (stub.write (message_of event)) c in
      let next = say_progress (n + 1) total writing.1 in
      let same = say_progress-world (n + 1) total writing.1 in
      elim (Bool-cases writing.0) [
        | inl ok_write ↦
            let (sent_one, start_one) = written (message_of event) c.world ok_write in
            let (sent_all, start_all) =
              write_all-sent total (n + 1) events next count (rw ok_write at h) in
            rw ok_write (
              sent_all
                  ∙ ap (λ l. l ++ map message_of events) (ap sent same ∙ sent_one)
                  ∙ append_assoc (sent c.world) (message_of event ∷ []) (map message_of events),
              start_all ∙ ap start same ∙ start_one,
            )
        | inr failed ↦ absurd (cc (rw failed at h))
      ]

  do_save_request-success :
      (request : Proto.SaveEventRequest) (c : Console W)
      → (do_save_request time stub request c).0 ≡ true
      → R
          (map to_dto_event request.event)
          (server c.world)
          (server (do_save_request time stub request c).1.world)
  unfolding do_save_request
  do_save_request-success request c h =
      let (status, success) = and-eq_true _ _ h in
      save_event-success uc R saves request (server c.world) _ _ _ (answered request c.world status)
        success

  finished-success :
      (n : ℕ) (status : Status) (response : Proto.SaveEventsResponse)
      → (finished n status response).0 ≡ true
      → (is_ok status ≡ true) × (response.success ≡ true)
  finished-success n status response h = elim (Bool-cases (is_ok status)) [
    | inl good ↦ elim (Bool-cases response.success) [
      | inl success ↦ (good, success)
      | inr failed ↦ absurd (cc (rw (good, failed) at h))
    ]
    | inr bad ↦ absurd (cc (rw bad at h))
  ]

  finish-success :
      (events : List Dto.Event) (n : ℕ) (c : Console W)
      → sent c.world ≡ map message_of events
      → (finish_stream time stub (some n) c).0 ≡ true
      → R
          (map over_the_wire events)
          (start c.world)
          (server (finish_stream time stub (some n) c).1.world)
  finish-success events n c e h =
      let (status, success) = finished-success n _ _ h in
      let (stream, read, runs) = delivers.finished c.world status in
      let (ends, kept) =
        save_events_stream_success uc log R saves logged stream (start c.world)
          (ap (λ q. q.0.1.success) runs ∙ success) in
      let same : (scan stream).0 ≡ map over_the_wire events =
        scan-at_end stream ends
        ∙ ap (map read_message) (read ∙ e)
        ∙ map-map read_message message_of events in
      subst (λ es. R es (start c.world) (server (stub.finish c.world).1)) same
        (subst (R (scan stream).0 (start c.world)) (ap (λ q. q.1) runs) kept)

  written-success :
      (events : List Dto.Event) (c : Console W) (s : S)
      → sent c.world ≡ []
      → start c.world ≡ s
      → (write_stream time stub events true c).0 ≡ true
      → R (map over_the_wire events) s (server (write_stream time stub events true c).1.world)
  written-success events c s none_sent started h =
      let writing = write_all time stub (length events) 0 events c in
      elim (Option-cases writing.0) [
        | inl none_written ↦ absurd (cc (rw none_written at h))
        | inr (n, e) ↦
            let (sent_all, start_all) = write_all-sent (length events) 0 events c n e in
            rw e (
              subst
                (λ t.
                  R (map over_the_wire events) t
                    (server (finish_stream time stub (some n) writing.1).1.world))
                (start_all ∙ started)
                (finish-success events n writing.1
                  (sent_all ∙ ap (λ l. l ++ map message_of events) none_sent) (rw e at h)))
      ]

  save_batch_stream-success :
      (events : List Dto.Event) (c : Console W)
      → (save_batch_stream time stub events c).0 ≡ true
      → R
          (map over_the_wire events)
          (server c.world)
          (server (save_batch_stream time stub events c).1.world)
  unfolding save_batch_stream
  save_batch_stream-success [] c h = saves.nothing (server c.world)
  save_batch_stream-success (event ∷ events) c h =
      let opening = in_world stub.save_events_stream c in
      elim (Bool-cases opening.0) [
        | inl ok_open ↦
            let (sent_none, start_open) = opened c.world ok_open in
            rw ok_open (
              written-success (event ∷ events) opening.1 (server c.world) sent_none start_open
                (rw ok_open at h))
        | inr failed ↦ absurd (cc (rw failed at h))
      ]

  -- Over a stub that delivers to a service each of whose successes means that the events were
  -- saved: where `SaveBatch` returns true, the server saved every event, as the server reads it,
  -- in order, by whichever call it was sent.
  pub save_batch-success :
      (events : List Dto.Event) (c : Console W)
      → (save_batch time stub events c).0 ≡ true
      → R
          (map over_the_wire events)
          (server c.world)
          (server (save_batch time stub events c).1.world)
  unfolding save_batch
  save_batch-success events c h = elim (Bool-cases (ltb (length events) stream_threshold)) [
    | inl e ↦
        let request : Proto.SaveEventRequest = record { event = map to_proto_event events } in
        let spoken = say (using_unary (length events)) c in
        let all_added = add_events_to_request-map empty_request events in
        rw (e, all_added)
          (subst
            (λ es.
              R es (server c.world) (server (do_save_request time stub request spoken).1.world))
            (map-map to_dto_event to_proto_event events)
            (do_save_request-success request spoken (rw (e, all_added) at h)))
    | inr e ↦
        rw e (save_batch_stream-success events (say (using_stream (length events)) c) (rw e at h))
  ]
