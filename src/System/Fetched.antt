-- ===== src/System/Fetched.antt =====
-- From a filter to the events that a client gets: `GetEventsImpl` of the client, over gRPC, with the
-- PostgreSQL repository behind the service.
use two_services.Base.{
  ◌≡◌, refl, sym, ap, ap₂, ◌∙◌, Bool, true, Option, some, List, [], ◌∷◌, ◌++◌, String, map, All,
  and-eq_true, take, drop,
}
use two_services.Base.Order.{all, all-take, all-drop}
use two_services.Base.Exec.{ok}
use two_services.Grpc.{is_ok, status_ok}
use two_services.Shared.Dto
use two_services.Shared.Dto.{status_to_str, str_to_status}
use two_services.Shared.Result.{ok_value}
use two_services.Proto
use two_services.Utils.Convert.{
  TimeUtil, on_value, to_dto_event, to_proto_event, to_proto_event_filter, from_proto_event_filter,
}
use two_services.Utils.RoundTrip.{
  IsCanonical, cut_to_uint32, filter_over_the_wire, to_dto_event-to_proto_event, sent_decision,
  with_decision,
}
use two_services.History.Postgres.{Engine, Tables, filter_decision_check}
use two_services.History.Postgres.Select.{Joined, selected, limit_of, offset_of}
use two_services.History.Repo.{postgres_events_repo, event_of_row}
use two_services.History.Repo.Invariant.{IsConsistent, IsGood, view}
use two_services.History.Repo.Reading.{
  decode, page, IsTaken, get_events-page, all-selected, checked_status,
}
use two_services.History.UseCases.{UseCases, use_cases, execute_get}
use two_services.History.Server
use two_services.History.Server.{events_response}
use two_services.Ipv4Filter.GrpcService
use two_services.Shared.Console.{Console}
use two_services.Ipv4Filter.GrpcService.{Stub, do_get_events_request, handle_get_events_response}
use two_services.System.Messages.{over_the_wire}

-- A call of `GetEvents` that ends with OK ran its handler on the request, and brings its answer.
pub record Answers {S W : Type 0} (uc : UseCases S) (time : TimeUtil) (stub : Stub time.Timestamp W)
    : Type 0 where
  pub server : W → S
  pub answered :
      (request : Proto.GetEventsRequest time.Timestamp) (w : W)
      → is_ok (stub.get_events request w).0.0 ≡ true
      → Server.get_events uc time request (server w)
        ≡ (ok (stub.get_events request w).0, server (stub.get_events request w).1)
  -- and the same of `GetStats`
  pub counted :
      (w : W)
      → is_ok (stub.get_stats w).0.0 ≡ true
      → Server.get_stats uc (server w) ≡ (ok (stub.get_stats w).0, server (stub.get_stats w).1)

events_response-events :
    (events : List Dto.Event)
    → ((events_response (ok_value events)).success ≡ true)
      × ((events_response (ok_value events)).events ≡ map to_proto_event events)
events_response-events [] = (refl, refl)
events_response-events (e ∷ events) = (refl, refl)

-- what the client prints of the reply with a page
abbrev pub found_line : List Dto.Event → String
found_line events = handle_get_events_response status_ok (events_response (ok_value events))

-- a decision that arrives as it was sent
abbrev is_decided : Dto.Event → Bool
is_decided e = filter_decision_check e.payload.filter_decision

decided-over_the_wire : (e : Dto.Event) → is_decided e ≡ true → over_the_wire e ≡ e
decided-over_the_wire e h =
    let same : sent_decision e.payload.filter_decision ≡ e.payload.filter_decision = rw h in
    to_dto_event-to_proto_event e ∙ ap (λ d. with_decision d e) same

module _ (engine : Engine) where
  abbrev is_decided_row : Joined engine → Bool
  is_decided_row row = is_decided (decode engine row)

  IsGood-is_decided : (row : Joined engine) → IsGood engine row → is_decided_row row ≡ true
  unfolding decode event_of_row
  IsGood-is_decided row (source, status, (p, joined, decision)) =
      let (st, e) = checked_status engine row.event.status status in rw (e, joined) decision

  all-is_decided :
      (rows : List (Joined engine)) → All (IsGood engine) rows → all is_decided_row rows ≡ true
  all-is_decided [] h = refl
  all-is_decided (row ∷ rows) h = rw (IsGood-is_decided row h.0) (all-is_decided rows h.1)

  decoded-over_the_wire :
      (rows : List (Joined engine))
      → all is_decided_row rows ≡ true
      → map to_dto_event (map to_proto_event (map (decode engine) rows)) ≡ map (decode engine) rows
  decoded-over_the_wire [] h = refl
  decoded-over_the_wire (row ∷ rows) h =
      let (first, others) = and-eq_true (is_decided_row row) (all is_decided_row rows) h in
      ap₂ (◌∷◌) (decided-over_the_wire (decode engine row) first)
        (decoded-over_the_wire rows others)

  page-over_the_wire :
      (f : Dto.EventFilter) (from to : Option engine.Timestamptz) (t : Tables engine)
      → IsConsistent engine t
      → map to_dto_event (map to_proto_event (page engine f from to t)) ≡ page engine f from to t
  page-over_the_wire f from to t h =
      let rows = selected engine f.source_service from to (on_value status_to_str f.status) t in
      decoded-over_the_wire (take (limit_of f.limit) (drop (offset_of f.offset) rows)) (
        all-take is_decided_row (limit_of f.limit) _ (
          all-drop is_decided_row (offset_of f.offset) rows (
            all-selected engine is_decided_row f.source_service from to
              (on_value status_to_str f.status) t (all-is_decided (view engine t) h.good))))

  module _ {W : Type 0} (time : TimeUtil) (stub : Stub time.Timestamp W)
      (answers : Answers (use_cases (postgres_events_repo engine)) time stub) where
    server_page :
        (f : Dto.EventFilter) (p : Proto.EventFilter time.Timestamp) (t : Tables engine)
        (taken : IsTaken engine f)
        → IsConsistent engine t
        → from_proto_event_filter time (some p) ≡ some f
        → Server.get_events
            (use_cases (postgres_events_repo engine))
            time
            (record { event_filter = some p })
            (record { tables = t; faults = [] })
          ≡ (
            ok (status_ok, events_response (ok_value (page engine f taken.from taken.to t))),
            record { tables = t; faults = [] },
          )
    unfolding Server.get_events use_cases execute_get
    server_page f p t taken h e = rw (e, get_events-page engine f t taken h)

    -- Over a stub that answers for the service with its repository, on consistent tables and
    -- without faults: where the client asks for a filter with canonical times that the database
    -- takes, and the call ends with OK, the client gets exactly the page of the filter as it
    -- arrives, with limit and offset cut to 32 bits, each event as the repository read it, and prints
    -- the message of the reply.
    pub get_events-page_fetched :
        (f : Dto.EventFilter) (c : Console W) (t : Tables engine)
        (p : Proto.EventFilter time.Timestamp) (taken : IsTaken engine (cut_to_uint32 f))
        → IsCanonical time f.from
        → IsCanonical time f.to
        → answers.server c.world ≡ record { tables = t; faults = [] }
        → IsConsistent engine t
        → to_proto_event_filter time (some f) ≡ ok (some p)
        → is_ok (stub.get_events (record { event_filter = some p }) c.world).0.0 ≡ true
        → ((GrpcService.get_events time stub f c).0
            ≡ ok (some (page engine (cut_to_uint32 f) taken.from taken.to t)))
          × ((GrpcService.get_events time stub f c).1.printed
              ≡ c.printed ++ found_line (page engine (cut_to_uint32 f) taken.from taken.to t) ∷ [])
    unfolding GrpcService.get_events do_get_events_request
    get_events-page_fetched f c t p taken hf ht same h e status =
        let (q, sent, back) = filter_over_the_wire time f hf ht in
        let p_is_q : q ≡ p = cc (sym sent ∙ e) in
        let request : Proto.GetEventsRequest time.Timestamp = record { event_filter = some p } in
        let arrives : from_proto_event_filter time (some p) ≡ some (cut_to_uint32 f) =
          ap (λ x. from_proto_event_filter time (some x)) (sym p_is_q) ∙ back in
        let ran = server_page (cut_to_uint32 f) p t taken h arrives in
        let found = page engine (cut_to_uint32 f) taken.from taken.to t in
        let replied =
          sym (answers.answered request c.world status)
          ∙ ap (Server.get_events (use_cases (postgres_events_repo engine)) time request) same
          ∙ ran in
        let reply : (stub.get_events request c.world).0
            ≡ (status_ok, events_response (ok_value found)) =
          cc (ap (λ x. x.0) replied) in
        let (success, events) = events_response-events found in
        rw (e, GrpcService.get_events, reply, success, events)
          (
            ap (λ l. ok (some l)) (page-over_the_wire (cut_to_uint32 f) taken.from taken.to t h),
            refl,
          )
