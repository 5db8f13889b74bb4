-- ===== src/System/Messages.antt =====
-- What the client puts into the messages of `SaveEvent` and `SaveEventsStream`, and what the service reads
-- out of them.
use mathlib.Core.List.{append_assoc, append-nil}
use two_services.Base.{
  ◌≡◌, refl, sym, ap, ◌∙◌, inl, inr, Bool, some, List, [], ◌∷◌, ◌++◌, map, Bool-cases,
}
use two_services.Grpc.{is_ok}
use two_services.Shared.Dto
use two_services.Proto
use two_services.Utils.Convert.{to_dto_event, to_proto_event}
use two_services.History.Validate.{validate_save_events_request}
use two_services.History.Stream.{event_or_default}
use two_services.History.Stream.Scan.{at_end, scan}
use two_services.Ipv4Filter.GrpcService.{add_event_to_request, add_events_to_request}

abbrev pub messages : List (Proto.SaveEventsRequest × Bool) → List Proto.SaveEventsRequest
messages stream = map (λ m. m.0) stream

-- An event as the server reads it.
abbrev pub over_the_wire : Dto.Event → Dto.Event
over_the_wire event = to_dto_event (to_proto_event event)

-- the message for an event
abbrev pub message_of : Dto.Event → Proto.SaveEventsRequest
message_of event = record { event = some (to_proto_event event) }

abbrev pub read_message : Proto.SaveEventsRequest → Dto.Event
read_message message = to_dto_event (event_or_default message.event)

pub scan-at_end :
    (stream : List (Proto.SaveEventsRequest × Bool))
    → (scan stream).1 ≡ at_end
    → (scan stream).0 ≡ map read_message (messages stream)
unfolding scan
scan-at_end [] h = refl
scan-at_end ((request, is_cancelled) ∷ rest) h =
    elim (Bool-cases (is_ok (validate_save_events_request request.event))) [
      | inl valid ↦ elim (Bool-cases is_cancelled) [
        | inl c ↦ absurd (cc (rw (valid, c) at h))
        | inr c ↦
            rw (valid, c) (ap (◌∷◌ (read_message request)) (scan-at_end rest (rw (valid, c) at h)))
      ]
      | inr not_valid ↦ absurd (cc (rw not_valid at h))
    ]

pub map-map :
    {A B C : Type 0} (g : B → C) (f : A → B) (xs : List A)
    → map g (map f xs) ≡ map (λ x. g (f x)) xs
map-map g f [] = refl
map-map g f (x ∷ xs) = ap (◌∷◌ (g (f x))) (map-map g f xs)

pub add_events_to_request-map :
    (request : Proto.SaveEventRequest) (events : List Dto.Event)
    → add_events_to_request request events
      ≡ record { event = request.event ++ map to_proto_event events }
unfolding add_events_to_request
add_events_to_request-map request [] =
    ap (λ l. record { event = l }) (sym (append-nil request.event))
add_events_to_request-map request (event ∷ events) =
    add_events_to_request-map (add_event_to_request request event) events
    ∙ ap (λ l. record { event = l })
        (append_assoc request.event (to_proto_event event ∷ []) (map to_proto_event events))
