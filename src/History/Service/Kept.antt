-- ===== src/History/Service/Kept.antt =====
-- What every handler of `GrpcEventServiceImpl` keeps, by what the use cases keep.
use two_services.Base.{
  String, nat_eq, ◌%◌, ℕ, inl, inr, Bool, Option, some, List, [], ◌∷◌, map, length, leb, Bool-cases,
}
use two_services.Base.Exec.{Except, ok, throw, Exec, continue}
use two_services.Grpc.{is_ok}
use two_services.Shared.Dto
use two_services.Shared.Result.{VoidResult}
use two_services.Proto
use two_services.Utils.Convert.{TimeUtil, to_dto_event, from_proto_event_filter}
use two_services.History.UseCases.{UseCases}
use two_services.History.Validate.{validate_save_event_request, validate_save_events_request}
use two_services.History.Server
use two_services.History.Stream
use two_services.History.Stream.{
  Reply, Progress, Round, returned, reading, batch_size, flush_full, read_round, finish, read_loop,
  next_round, received, log_progress, log_interval, after_batch, after_final_batch,
  event_or_default, check_cancelled, no_progress,
}
use two_services.History.Service.{grpc_event_service_impl, Rpc, serve}

-- A relation between the states before and after, that each call of a use case keeps.
pub record Keeps {S : Type 0} (uc : UseCases S) (R : S → S → Type 0) : Type 0 where
  pub same : (s : S) → R s s
  pub also : (s t u : S) → R s t → R t u → R s u
  pub saved : (events : List Dto.Event) (s : S) → R s (uc.save_event.execute events s).1
  pub fetched : (filter : Option Dto.EventFilter) (s : S) → R s (uc.get_events.execute filter s).1
  pub counted : (s : S) → R s (uc.get_stats.execute s).1

module _ {S : Type 0} (uc : UseCases S) (say : String → S → S) (R : S → S → Type 0)
    (keeps : Keeps uc R) (said : (text : String) (s : S) → R s (say text s)) where
  open keeps use {same, also, saved, fetched, counted}

  continue-R :
      {A B : Type 0} (r : Except A) (f : A → Exec S B) (s t : S)
      → R s t
      → ((a : A) → R t (f a t).1)
      → R s (continue r f t).1
  continue-R (ok a) f s t h rest = also s t (f a t).1 h (rest a)
  continue-R (throw what) f s t h rest = h

  save_event-R : (request : Proto.SaveEventRequest) (s : S) → R s (Server.save_event uc request s).1
  unfolding Server.save_event
  save_event-R request s = elim (Bool-cases (is_ok (validate_save_event_request request.event))) [
    | inl e ↦
        let (r, t) = uc.save_event.execute (map to_dto_event request.event) s in
        rw e (continue-R r _ s t (saved (map to_dto_event request.event) s) (λ result. same t))
    | inr e ↦ rw e (same s)
  ]

  get_events-R :
      (time : TimeUtil) (request : Proto.GetEventsRequest time.Timestamp) (s : S)
      → R s (Server.get_events uc time request s).1
  unfolding Server.get_events
  get_events-R time request s =
      let filter =
        from_proto_event_filter time (some (Proto.filter_or_default request.event_filter)) in
      let (r, t) = uc.get_events.execute filter s in
      continue-R r _ s t (fetched filter s) (λ result. same t)

  get_stats-R : (s : S) → R s (Server.get_stats uc s).1
  unfolding Server.get_stats
  get_stats-R s =
      let (r, t) = uc.get_stats.execute s in continue-R r _ s t (counted s) (λ result. same t)

  log_progress-R : (total saved : ℕ) (s : S) → R s (log_progress uc say total saved s)
  log_progress-R total saved s = elim (Bool-cases (nat_eq (total % log_interval) 0)) [
    | inl e ↦ rw e (said _ s)
    | inr e ↦ rw e (same s)
  ]

  after_batch-R :
      (p : Progress) (result : VoidResult) (s : S) → R s (after_batch uc say p result s).1
  after_batch-R p result s = elim (Bool-cases result.success) [
    | inl e ↦ rw e (log_progress-R _ _ s)
    | inr e ↦ rw e (same s)
  ]

  after_final_batch-R :
      (p : Progress) (result : VoidResult) (s : S) → R s (after_final_batch uc say p result s).1
  after_final_batch-R p result s = elim (Bool-cases result.success) [
    | inl e ↦ rw e (said _ s)
    | inr e ↦ rw e (same s)
  ]

  flush_full-R : (p : Progress) (s : S) → R s (flush_full uc say p s).1
  unfolding flush_full
  flush_full-R p s = elim (Bool-cases (leb batch_size (length p.batch))) [
    | inl e ↦
        let (r, t) = uc.save_event.execute p.batch s in
        rw e (continue-R r _ s t (saved p.batch s) (λ result. after_batch-R p result t))
    | inr e ↦ rw e (same s)
  ]

  read_round-R :
      (request : Proto.SaveEventsRequest) (cancelled : Bool) (p : Progress) (s : S)
      → R s (read_round uc say request cancelled p s).1
  unfolding read_round
  read_round-R request cancelled p s =
      elim (Bool-cases (is_ok (validate_save_events_request request.event))) [
        | inl e ↦
            let q = received (event_or_default request.event) p in
            let (r, t) = flush_full uc say q s in
            rw e (continue-R r _ s t (flush_full-R q s) (λ round. same t))
        | inr e ↦ rw e (same s)
      ]

  finish_batch-R :
      (total_events saved_events : ℕ) (batch : List Dto.Event) (s : S)
      → let p : Progress = record {
        total_events = total_events;
        saved_events = saved_events;
        batch = batch;
      } in
        R s (finish uc say p s).1
  unfolding finish
  finish_batch-R total_events saved_events [] s = said _ s
  finish_batch-R total_events saved_events (e ∷ batch) s =
      let (r, t) = uc.save_event.execute (e ∷ batch) s in
      continue-R r _ s t (saved (e ∷ batch) s) (λ result.
        after_final_batch-R
          (record { total_events = total_events; saved_events = saved_events; batch = e ∷ batch })
          result t)

  next_round-R :
      (rest : Progress → Exec S Reply) (round : Round) (s : S)
      → ((p : Progress) → R s (rest p s).1)
      → R s (next_round rest round s).1
  next_round-R rest (returned reply) s h = same s
  next_round-R rest (reading p) s h = h p

  read_loop-R :
      (stream : List (Proto.SaveEventsRequest × Bool)) (p : Progress) (s : S)
      → R s (read_loop uc say stream p s).1
  unfolding read_loop
  read_loop-R [] p s = finish_batch-R p.total_events p.saved_events p.batch s
  read_loop-R ((request, cancelled) ∷ rest) p s =
      let (r, t) = read_round uc say request cancelled p s in
      continue-R r _ s t (read_round-R request cancelled p s)
        (λ round. next_round-R (read_loop uc say rest) round t (λ q. read_loop-R rest q t))

  save_events_stream-R :
      (stream : List (Proto.SaveEventsRequest × Bool)) (s : S)
      → R s (Stream.save_events_stream uc say stream s).1
  unfolding Stream.save_events_stream
  save_events_stream-R stream s = read_loop-R stream no_progress s

  -- Each call of the service keeps what each call of a use case keeps.
  pub serve-R :
      (time : TimeUtil) (rpc : Rpc time.Timestamp) (s : S)
      → R s (serve (grpc_event_service_impl time uc say) rpc s)
  unfolding serve grpc_event_service_impl
  serve-R time (Rpc.save_event request) s = save_event-R request s
  serve-R time (Rpc.save_events_stream stream) s = save_events_stream-R stream s
  serve-R time (Rpc.get_events request) s = get_events-R time request s
  serve-R time Rpc.get_stats s = get_stats-R s
