-- ===== src/Samples/Data.antt =====
-- Events, messages and a service without a database, for the tests.
use mathlib.Core.List.{append-nil, append_assoc}
use two_services.History.Stream.{silent}
use two_services.Base.{◌≡◌, refl, sym, ap, ◌∙◌, Bool, false, none, some, List, [], ◌∷◌, ◌++◌}
use two_services.Base.Exec.{ok}
use two_services.Shared.Dto
use two_services.Shared.Console.{Console, say, in_world}
use two_services.History.Stream.Log.{Prints}
use two_services.Shared.Result.{void_ok, ok_value}
use two_services.Proto
use two_services.History.UseCases.{UseCases}
use two_services.History.Stream.Stores.{Appends}
use two_services.History.Stream.Success.{Saves}

abbrev pub event : Dto.Event
event = record {
  source_service = "ipv4_filter";
  timestamp_utc = "2025-01-31 09:05:00";
  status = Dto.Status.success;
  payload = record {
    raw_line = "GET";
    parsed_ip = some "192.168.1.1";
    filter_decision = "accepted";
    reject_reason = none;
  };
}

abbrev pub error_event : Dto.Event
error_event = record {
  source_service = "ipv4_filter";
  timestamp_utc = "2025-01-31 09:04:00";
  status = Dto.Status.error;
  payload = record {
    raw_line = "x";
    parsed_ip = none;
    filter_decision = "rejected";
    reject_reason = some "Invalid Format";
  };
}

-- an event that the schema does not admit
abbrev pub unknown_event : Dto.Event
unknown_event = record event { source_service = "unknown" }

abbrev pub payload_message : Proto.EventPayload
payload_message = record {
  raw_line = "GET";
  parsed_ip = some "192.168.1.1";
  filter_decision = Proto.FilterDecision.accepted;
  reject_reason = none;
}

abbrev pub event_message : Proto.Event
event_message = record {
  source_service = "ipv4_filter";
  timestamp_utc = "2025-01-31 09:05:00";
  status = Proto.EventStatus.success;
  payload = some payload_message;
}

-- two valid messages, and one without an event
abbrev pub stream : List (Proto.SaveEventsRequest × Bool)
stream =
    (record { event = some event_message }, false)
    ∷ (record { event = some event_message }, false)
    ∷ (record { event = none }, false)
    ∷ []

-- a service that keeps the events in a list
abbrev pub log_service : UseCases (List Dto.Event)
log_service = record {
  save_event = record { execute = λ events log. (ok void_ok, log ++ events) };
  get_events = record { execute = λ filter log. (ok (ok_value log), log) };
  get_stats = record {
    execute = λ log.
        (ok (ok_value (record { events_total = 0; events_success = 0; events_error = 0 })), log);
  };
}

abbrev pub log_service_appends : Appends log_service silent (λ log. log)
log_service_appends = record {
  after = λ events log. log ++ events;
  saves = λ events log. refl;
  log-after = λ events log. refl;
  log-say = λ text log. refl;
}

abbrev pub Logged : List Dto.Event → List Dto.Event → List Dto.Event → Type 0
Logged events log end = end ≡ log ++ events

abbrev pub log_service_saves : Saves log_service Logged
log_service_saves = record {
  nothing = λ log. sym (append-nil log);
  then_more = λ first rest s m e p q. q ∙ ap (λ l. l ++ rest) p ∙ append_assoc s first rest;
  success = λ events log result r good. refl;
}

-- the same service beside its standard output
abbrev pub printing_service : UseCases (Console (List Dto.Event))
printing_service = record {
  save_event = record { execute = λ events. in_world (log_service.save_event.execute events) };
  get_events = record { execute = λ filter. in_world (log_service.get_events.execute filter) };
  get_stats = record { execute = in_world log_service.get_stats.execute };
}

abbrev pub printing_service_prints : Prints printing_service say (λ c. c.printed)
printing_service_prints = record {
  printed-say = λ text c. refl;
  printed-execute = λ events c. refl;
}
