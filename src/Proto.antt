-- ===== src/Proto.antt =====
-- The messages of proto/event_service.proto, as the code reads and writes them: an `optional` or a
-- message field is an `Option`, a repeated one is a list. A proto3 enumeration is open: a peer may
-- send a number that has no name, and such a number is `unknown`.
use two_services.Base.{ℕ, String, Bool, Option, none, some, List}

pub data EventStatus : Type 0 where
  unspecified success error : EventStatus
  unknown : ℕ → EventStatus

pub data FilterDecision : Type 0 where
  unspecified accepted rejected : FilterDecision
  unknown : ℕ → FilterDecision

pub record EventPayload : Type 0 where
  pub raw_line : String
  pub parsed_ip : Option String
  pub filter_decision : FilterDecision
  pub reject_reason : Option String

-- what `payload()` returns when the field is not set
abbrev pub default_payload : EventPayload
default_payload = record {
  raw_line = "";
  parsed_ip = none;
  filter_decision = FilterDecision.unspecified;
  reject_reason = none;
}

pub record Event : Type 0 where
  pub source_service : String
  pub timestamp_utc : String
  pub status : EventStatus
  pub payload : Option EventPayload

-- the accessor `payload()`
abbrev pub payload_or_default : Option EventPayload → EventPayload
payload_or_default none = default_payload
payload_or_default (some p) = p

abbrev pub default_event : Event
default_event = record {
  source_service = "";
  timestamp_utc = "";
  status = EventStatus.unspecified;
  payload = none;
}

-- `Timestamp` is google.protobuf.Timestamp.
pub record EventFilter (Timestamp : Type 0) : Type 0 where
  pub source_service : Option String
  pub status : Option EventStatus
  pub limit : Option ℕ
  pub from : Option Timestamp
  pub to : Option Timestamp
  pub offset : Option ℕ

abbrev pub default_filter : {Timestamp : Type 0} → EventFilter Timestamp
default_filter = record {
  source_service = none;
  status = none;
  limit = none;
  from = none;
  to = none;
  offset = none;
}

-- the accessor `event_filter()`
abbrev pub filter_or_default :
    {Timestamp : Type 0} → Option (EventFilter Timestamp) → EventFilter Timestamp
filter_or_default none = default_filter
filter_or_default (some f) = f

pub record SaveEventRequest : Type 0 where
  pub event : List Event

pub record SaveEventsRequest : Type 0 where
  pub event : Option Event

pub record SaveEventsResponse : Type 0 where
  pub success : Bool
  pub message : String

pub record GetEventsRequest (Timestamp : Type 0) : Type 0 where
  pub event_filter : Option (EventFilter Timestamp)

pub record GetEventsResponse : Type 0 where
  pub events : List Event
  pub success : Bool
  pub message : String

pub record Stats : Type 0 where
  pub total_events : ℕ
  pub success_events : ℕ
  pub error_events : ℕ

pub record GetStatsResponse : Type 0 where
  pub stats : Option Stats
  pub success : Bool
  pub message : String
