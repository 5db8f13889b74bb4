-- ===== src/Utils/Convert.antt =====
-- The conversions of namespace `event_service` in shared/utils/utils.cc.
use two_services.Base.{ℕ, ◌%◌, ◌^◌, String, Option, none, some, ◌==◌, if◌then◌else◌}
use two_services.Base.Exec.{Except, ok, throw, bind}
use two_services.Shared.Dto
use two_services.Proto

-- google::protobuf::util::TimeUtil: `from_string` is none where `FromString` returns false.
pub record TimeUtil : Type 1 where
  pub Timestamp : Type 0
  pub from_string : String → Option Timestamp
  pub to_string : Timestamp → String

unfoldable pub to_proto_event_status : Dto.Status → Proto.EventStatus
to_proto_event_status Dto.Status.unspecified = Proto.EventStatus.unspecified
to_proto_event_status Dto.Status.success = Proto.EventStatus.success
to_proto_event_status Dto.Status.error = Proto.EventStatus.error

unfoldable pub from_proto_event_status : Proto.EventStatus → Dto.Status
from_proto_event_status Proto.EventStatus.unspecified = Dto.Status.unspecified
from_proto_event_status Proto.EventStatus.success = Dto.Status.success
from_proto_event_status Proto.EventStatus.error = Dto.Status.error
from_proto_event_status (Proto.EventStatus.unknown n) = Dto.Status.unspecified

unfoldable pub to_proto_filter_decision : String → Proto.FilterDecision
to_proto_filter_decision decision =
    if decision == "accepted"
    then Proto.FilterDecision.accepted
    else if decision == "rejected"
    then Proto.FilterDecision.rejected
    else Proto.FilterDecision.unspecified

unfoldable pub from_proto_filter_decision : Proto.FilterDecision → String
from_proto_filter_decision Proto.FilterDecision.accepted = "accepted"
from_proto_filter_decision Proto.FilterDecision.rejected = "rejected"
from_proto_filter_decision Proto.FilterDecision.unspecified = ""
from_proto_filter_decision (Proto.FilterDecision.unknown n) = ""

unfoldable pub to_dto_payload : Proto.EventPayload → Dto.Payload
unfolding from_proto_filter_decision
to_dto_payload p = record {
  raw_line = p.raw_line;
  parsed_ip = p.parsed_ip;
  filter_decision = from_proto_filter_decision p.filter_decision;
  reject_reason = p.reject_reason;
}

unfoldable pub to_dto_event : Proto.Event → Dto.Event
unfolding to_dto_payload from_proto_event_status
to_dto_event e = record {
  source_service = e.source_service;
  timestamp_utc = e.timestamp_utc;
  status = from_proto_event_status e.status;
  payload = to_dto_payload (Proto.payload_or_default e.payload);
}

unfoldable pub to_proto_event : Dto.Event → Proto.Event
unfolding to_proto_event_status to_proto_filter_decision
to_proto_event e = record {
  source_service = e.source_service;
  timestamp_utc = e.timestamp_utc;
  status = to_proto_event_status e.status;
  payload = some (record {
    raw_line = e.payload.raw_line;
    parsed_ip = e.payload.parsed_ip;
    filter_decision = to_proto_filter_decision e.payload.filter_decision;
    reject_reason = e.payload.reject_reason;
  });
}

-- The message has uint64 fields, and `std::size_t` has 64 bits too.
unfoldable pub to_dto_stats : Proto.Stats → Dto.Stats
to_dto_stats s = record {
  events_total = s.total_events;
  events_success = s.success_events;
  events_error = s.error_events;
}

unfoldable pub to_proto_stats : Dto.Stats → Proto.Stats
to_proto_stats s = record {
  total_events = s.events_total;
  success_events = s.events_success;
  error_events = s.events_error;
}

-- `f` on the value of a field that is set
abbrev pub on_value : {A B : Type 0} → (A → B) → Option A → Option B
on_value f none = none
on_value f (some a) = some (f a)

-- the same where `f` may throw
abbrev pub try_value : {A B : Type 0} → (A → Except B) → Option A → Except (Option B)
try_value f none = ok none
try_value f (some a) = bind (f a) (λ b. ok (some b))

-- the fields `limit` and `offset` of the message are uint32
abbrev pub to_uint32 : ℕ → ℕ
to_uint32 n = n % 2 ^ 32

module _ (time : TimeUtil) where
  open time use {Timestamp, from_string, to_string}

  unfoldable pub to_timestamp_from_str : String → Except Timestamp
  to_timestamp_from_str s = elim (from_string s) [
    | none ↦ throw "Bad string format."
    | some t ↦ ok t
  ]

  unfoldable pub from_timestamp_to_str : Timestamp → String
  from_timestamp_to_str t = to_string t

  unfoldable pub from_proto_filter : Proto.EventFilter Timestamp → Dto.EventFilter
  unfolding from_timestamp_to_str from_proto_event_status
  from_proto_filter f = record {
    source_service = f.source_service;
    status = on_value from_proto_event_status f.status;
    limit = f.limit;
    from = on_value from_timestamp_to_str f.from;
    to = on_value from_timestamp_to_str f.to;
    offset = f.offset;
  }

  unfoldable pub from_proto_event_filter :
      Option (Proto.EventFilter Timestamp) → Option Dto.EventFilter
  unfolding from_proto_filter
  from_proto_event_filter none = none
  from_proto_event_filter (some f) = some (from_proto_filter f)

  unfoldable pub to_proto_filter : Dto.EventFilter → Except (Proto.EventFilter Timestamp)
  unfolding to_timestamp_from_str to_proto_event_status
  to_proto_filter f = bind (try_value to_timestamp_from_str f.from) λ from.
      bind (try_value to_timestamp_from_str f.to) λ to. ok (record {
        source_service = f.source_service;
        status = on_value to_proto_event_status f.status;
        limit = on_value to_uint32 f.limit;
        from = from;
        to = to;
        offset = on_value to_uint32 f.offset;
      })

  unfoldable pub to_proto_event_filter :
      Option Dto.EventFilter → Except (Option (Proto.EventFilter Timestamp))
  unfolding to_proto_filter
  to_proto_event_filter none = ok none
  to_proto_event_filter (some f) = bind (to_proto_filter f) (λ p. ok (some p))
