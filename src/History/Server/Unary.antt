-- ===== src/History/Server/Unary.antt =====
-- What the unary handlers of services/history/network/grpc_event_service_impl.cc do to the store.
use two_services.Base.{
  String, refl, ◌≡◌, ◌≢◌, ap, subst, ◌∙◌, inl, inr, ◌⊎◌, Bool, true, false, List, [], map, All,
  Bool-cases,
}
use two_services.Base.Exec.{Except, ok, throw, Except-cases}
use two_services.Grpc.{Status, is_ok}
use two_services.Shared.Dto
use two_services.Proto
use two_services.Shared.Result.{VoidResult}
use two_services.Utils.Convert.{to_dto_event}
use two_services.History.UseCases.{UseCases}
use two_services.History.Validate.{validate_save_event_request}
use two_services.History.Validate.Accepts.{IsAcceptable, validate_save_event_request-All}
use two_services.History.Server.{save_event, save_response}
use two_services.History.Stream.Success.{Saves}

-- The reply to a request that was carried out, by what `Execute` returned.
abbrev pub Reports : VoidResult → Proto.SaveEventsResponse → Type 0
Reports result response =
    ((result.success ≡ true)
      × (response
          ≡ record { success = true; message = "Event(s) received and saved successfully." }))
    ⊎ ((result.success ≡ false)
        × (response ≡ record { success = false; message = result.error_message }))

save_response-Reports : (result : VoidResult) → Reports result (save_response result)
save_response-Reports result = elim (Bool-cases result.success) [
  | inl e ↦ inl (e, rw e refl)
  | inr e ↦ inr (e, rw e refl)
]

module _ {S : Type 0} (uc : UseCases S) where
  -- What one call of `Execute` makes of the handler: its exception, or a reply that reports its result.
  abbrev pub Carried : List Dto.Event → S → Except (Status × Proto.SaveEventsResponse) × S → Type 0
  Carried events s outcome =
      ((what : String) × ((uc.save_event.execute events s).0 ≡ throw what)
        × (outcome ≡ (throw what, (uc.save_event.execute events s).1)))
      ⊎ ((result : VoidResult) × (status : Status) × (response : Proto.SaveEventsResponse)
          × ((uc.save_event.execute events s).0 ≡ ok result)
          × (outcome ≡ (ok (status, response), (uc.save_event.execute events s).1))
          × (is_ok status ≡ true)
          × Reports result response)

  -- `SaveEvent` on a request that is not acceptable leaves the store alone and answers with a status
  -- that is not OK and without a success. On an acceptable one it makes one `Execute` on the converted
  -- events: what that throws goes through, and otherwise the status is OK, and the reply has the success
  -- of the result, with the message of a success or else the error of the result.
  pub save_event-validates :
      (request : Proto.SaveEventRequest) (s : S)
      → ((¬ ((request.event ≢ []) × All IsAcceptable request.event))
          × (status : Status) × (is_ok status ≡ false)
          × (save_event uc request s ≡ (ok (status, record { success = false; message = "" }), s)))
        ⊎ (((request.event ≢ []) × All IsAcceptable request.event)
            × Carried (map to_dto_event request.event) s (save_event uc request s))
  unfolding save_event
  save_event-validates request s =
      let checks = validate_save_event_request-All request.event in
      let status = validate_save_event_request request.event in
      let events = map to_dto_event request.event in
      elim (Bool-cases (is_ok status)) [
        | inr e ↦ inl (λ h. cc (checks.1 h), status, e, rw e)
        | inl e ↦ inr (
          checks.0 e,
          elim (Except-cases (uc.save_event.execute events s).0) [
            | inl (result, r) ↦ inr (
              result,
              status,
              save_response result,
              r,
              rw (e, r),
              e,
              save_response-Reports result,
            )
            | inr (what, r) ↦ inl (what, r, rw (e, r))
          ],
        )
      ]

  module _ (R : List Dto.Event → S → S → Type 0) (saves : Saves uc R) where
    abbrev reply_success : Except (Status × Proto.SaveEventsResponse) → Bool
    reply_success (ok (status, response)) = response.success
    reply_success (throw what) = false

    -- Where `SaveEvent` replies with a success, the events of the request were saved.
    pub save_event-success :
        (request : Proto.SaveEventRequest) (s end : S) (status : Status)
        (response : Proto.SaveEventsResponse)
        → save_event uc request s ≡ (ok (status, response), end)
        → response.success ≡ true
        → R (map to_dto_event request.event) s end
    unfolding save_event
    save_event-success request s end status response h success =
        elim (Bool-cases (is_ok (validate_save_event_request request.event))) [
          | inl e ↦
              elim (Except-cases (uc.save_event.execute (map to_dto_event request.event) s).0) [
                | inl (result, r) ↦
                    let answered = rw (e, r) at h in
                    subst (R (map to_dto_event request.event) s) (ap (λ q. q.1) answered) (
                      saves.success (map to_dto_event request.event) s result r
                        (ap (λ q. reply_success q.0) answered ∙ success))
                | inr (what, r) ↦ absurd (cc (rw (e, r) at h))
              ]
          | inr e ↦ absurd (cc (rw e at h, success))
        ]
