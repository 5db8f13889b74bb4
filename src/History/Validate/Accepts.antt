-- ===== src/History/Validate/Accepts.antt =====
-- What the validation of services/history/network/grpc_event_service_impl.cc lets through.
use two_services.Base.{◌≡◌, ◌≢◌, ◌↔◌, refl, true, List, [], ◌∷◌, arith, All, eq_iff}
use two_services.Grpc.{is_ok}
use two_services.Proto
use two_services.History.Validate.{
  validate_event, validate_events, validate_save_event_request, is_unspecified_status,
  is_unspecified_decision,
}

-- An event that the server takes. A number without a name is no enumerator, so it passes for a
-- status or a decision.
abbrev pub IsAcceptable : Proto.Event → Type 0
IsAcceptable event =
    let payload = Proto.payload_or_default event.payload in
    (event.source_service ≡ "ipv4_filter")
    × (event.timestamp_utc ≢ "")
    × (event.status ≢ Proto.EventStatus.unspecified)
    × (payload.raw_line ≢ "")
    × (payload.filter_decision ≢ Proto.FilterDecision.unspecified)

is_unspecified_status_iff :
    (s : Proto.EventStatus) → (is_unspecified_status s ≡ true) ↔ (s ≡ Proto.EventStatus.unspecified)
is_unspecified_status_iff Proto.EventStatus.unspecified = (λ h. refl, λ h. refl)
is_unspecified_status_iff Proto.EventStatus.success = (λ h. cc, λ h. cc)
is_unspecified_status_iff Proto.EventStatus.error = (λ h. cc, λ h. cc)
is_unspecified_status_iff (Proto.EventStatus.unknown n) = (λ h. cc, λ h. cc)

is_unspecified_decision_iff :
    (d : Proto.FilterDecision)
    → (is_unspecified_decision d ≡ true) ↔ (d ≡ Proto.FilterDecision.unspecified)
is_unspecified_decision_iff Proto.FilterDecision.unspecified = (λ h. refl, λ h. refl)
is_unspecified_decision_iff Proto.FilterDecision.accepted = (λ h. cc, λ h. cc)
is_unspecified_decision_iff Proto.FilterDecision.rejected = (λ h. cc, λ h. cc)
is_unspecified_decision_iff (Proto.FilterDecision.unknown n) = (λ h. cc, λ h. cc)

-- `ValidateEvent` answers OK to the acceptable events and to no others.
pub validate_event-IsAcceptable :
    (event : Proto.Event) → (is_ok (validate_event event) ≡ true) ↔ IsAcceptable event
unfolding validate_event
validate_event-IsAcceptable event =
    let payload = Proto.payload_or_default event.payload in
    (
      λ h. (
        ground (arith, eq_iff event.source_service "ipv4_filter"),
        λ e. ground (arith, eq_iff event.timestamp_utc ""),
        λ e. ground (arith, is_unspecified_status_iff event.status),
        λ e. ground (arith, eq_iff payload.raw_line ""),
        λ e. ground (arith, is_unspecified_decision_iff payload.filter_decision),
      ),
      λ (source, time, status, line, decision). ground (
        arith,
        eq_iff event.source_service "ipv4_filter",
        eq_iff event.timestamp_utc "",
        eq_iff (Proto.payload_or_default event.payload).raw_line "",
        is_unspecified_status_iff event.status,
        is_unspecified_decision_iff (Proto.payload_or_default event.payload).filter_decision,
      ),
    )

validate_events-All :
    (events : List Proto.Event) → (is_ok (validate_events events) ≡ true) ↔ All IsAcceptable events
unfolding validate_events
validate_events-All [] = (λ h. tt, λ h. refl)
validate_events-All (event ∷ events) =
    ground (arith, validate_event-IsAcceptable event, validate_events-All events)

-- `Validate` answers OK to a request that has events, all of them acceptable, and to no other.
pub validate_save_event_request-All :
    (events : List Proto.Event)
    → (is_ok (validate_save_event_request events) ≡ true) ↔ (events ≢ []) × All IsAcceptable events
unfolding validate_save_event_request
validate_save_event_request-All [] = (λ h. cc, λ h. absurd (h.0 refl))
validate_save_event_request-All (event ∷ events) =
    let all = validate_events-All (event ∷ events) in (λ h. (λ e. cc, all.0 h), λ h. all.1 h.1)
