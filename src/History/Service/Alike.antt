-- ===== src/History/Service/Alike.antt =====
-- The service over two stores that answer alike.
use two_services.Base.{
  refl, ap, ap₂, String, Bool-cases, Option, some, List, [], ◌∷◌, map, inl, inr,
}
use two_services.Grpc.{is_ok}
use two_services.Shared.Dto
use two_services.Proto
use two_services.Utils.Convert.{TimeUtil, to_dto_event, from_proto_event_filter}
use two_services.History.UseCases.{UseCases}
use two_services.History.Validate.{validate_save_event_request}
use two_services.History.Server
use two_services.History.Stream.Alike.{Same, continue-Same, SavesAlike, save_events_stream-Same}
use two_services.History.Service.{grpc_event_service_impl, Rpc, Answer, answer, answer_all}

-- The use cases answer alike, and the states stay related; so they do where texts are written.
pub record Alike {S T : Type 0} (uc : UseCases S) (say : String → S → S) (ud : UseCases T)
    (say' : String → T → T) (Rel : S → T → Type 0) : Type 0 where
  pub saves : SavesAlike uc say ud say' Rel
  pub fetched :
      (filter : Option Dto.EventFilter) (s : S) (t : T)
      → Rel s t
      → Same Rel (uc.get_events.execute filter s) (ud.get_events.execute filter t)
  pub counted :
      (s : S) (t : T) → Rel s t → Same Rel (uc.get_stats.execute s) (ud.get_stats.execute t)

module _ {S T : Type 0} (uc : UseCases S) (say : String → S → S) (ud : UseCases T)
    (say' : String → T → T) (Rel : S → T → Type 0) (alike : Alike uc say ud say' Rel)
    (time : TimeUtil) where
  save_event-Same :
      (request : Proto.SaveEventRequest) (s : S) (t : T)
      → Rel s t
      → Same Rel (Server.save_event uc request s) (Server.save_event ud request t)
  unfolding Server.save_event
  save_event-Same request s t h =
      elim (Bool-cases (is_ok (validate_save_event_request request.event))) [
        | inl e ↦
            let (same, still) = alike.saves.saved (map to_dto_event request.event) s t h in
            rw e (continue-Same Rel _ _ _ _ _ _ same still (λ result. (refl, still)))
        | inr e ↦ rw e (refl, h)
      ]

  get_events-Same :
      (request : Proto.GetEventsRequest time.Timestamp) (s : S) (t : T)
      → Rel s t
      → Same Rel (Server.get_events uc time request s) (Server.get_events ud time request t)
  unfolding Server.get_events
  get_events-Same request s t h =
      let filter =
        from_proto_event_filter time (some (Proto.filter_or_default request.event_filter)) in
      let (same, still) = alike.fetched filter s t h in
      continue-Same Rel _ _ _ _ _ _ same still (λ result. (refl, still))

  get_stats-Same :
      (s : S) (t : T) → Rel s t → Same Rel (Server.get_stats uc s) (Server.get_stats ud t)
  unfolding Server.get_stats
  get_stats-Same s t h =
      let (same, still) = alike.counted s t h in
      continue-Same Rel _ _ _ _ _ _ same still (λ result. (refl, still))

  answer-Same :
      (rpc : Rpc time.Timestamp) (s : S) (t : T)
      → Rel s t
      → Same Rel
          (answer (grpc_event_service_impl time uc say) rpc s)
          (answer (grpc_event_service_impl time ud say') rpc t)
  unfolding answer grpc_event_service_impl
  answer-Same (Rpc.save_event request) s t h =
      let (same, still) = save_event-Same request s t h in (ap Answer.saved same, still)
  answer-Same (Rpc.save_events_stream stream) s t h =
      let (same, still) = save_events_stream-Same uc say ud say' Rel alike.saves stream s t h in
      (ap Answer.streamed same, still)
  answer-Same (Rpc.get_events request) s t h =
      let (same, still) = get_events-Same request s t h in (ap Answer.found same, still)
  answer-Same Rpc.get_stats s t h =
      let (same, still) = get_stats-Same s t h in (ap Answer.counted same, still)

  -- Calls of all kinds get the same answers, and the stores stay related.
  pub answer_all-Same :
      (rpcs : List (Rpc time.Timestamp)) (s : S) (t : T)
      → Rel s t
      → Same Rel
          (answer_all (grpc_event_service_impl time uc say) rpcs s)
          (answer_all (grpc_event_service_impl time ud say') rpcs t)
  unfolding answer_all
  answer_all-Same [] s t h = (refl, h)
  answer_all-Same (rpc ∷ rpcs) s t h =
      let (same, still) = answer-Same rpc s t h in
      let (later, end) = answer_all-Same rpcs _ _ still in (ap₂ (◌∷◌) same later, end)
