-- ===== src/History/Tests.antt =====
-- Validation and the unary handlers on concrete requests.
use two_services.Base.{◌≡◌, ◌≢◌, ◌⊎◌, false, List, [], ◌∷◌, map, All}
use two_services.Base.Exec.{ok}
use two_services.Grpc.{Status, is_ok}
use two_services.Proto
use two_services.Utils.Convert.{to_dto_event}
use two_services.History.Validate.Accepts.{IsAcceptable}
use two_services.History.Server.{save_event}
use two_services.History.Server.Unary.{Carried, save_event-validates}
use two_services.Samples.Data.{event_message, log_service}

abbrev two_messages : List Proto.Event
two_messages = event_message ∷ record event_message { source_service = "calculator" } ∷ []

abbrev request : Proto.SaveEventRequest
request = record { event = event_message ∷ [] }

save_event-validates_example :
    ((¬ ((request.event ≢ []) × All IsAcceptable request.event))
      × (status : Status) × (is_ok status ≡ false)
      × (save_event log_service request []
          ≡ (ok (status, record { success = false; message = "" }), [])))
    ⊎ (((request.event ≢ []) × All IsAcceptable request.event)
        × Carried log_service
            (map to_dto_event request.event)
            []
            (save_event log_service request []))
save_event-validates_example = save_event-validates log_service request []
