-- ===== src/Shared/Dto.antt =====
-- shared/core/entities/event.h and stats.h: the data of an event, its filter and the statistics.
use two_services.Base.{ℕ, String, ◌≢◌, arith, eq_iff, Option, none, some, ◌==◌, if◌then◌else◌}
use two_services.Base.Exec.{Except, ok, throw}

pub data Status : Type 0 where
  unspecified success error : Status

pub record Payload : Type 0 where
  pub raw_line : String
  pub parsed_ip : Option String
  pub filter_decision : String
  pub reject_reason : Option String

pub record Event : Type 0 where
  pub source_service : String
  pub timestamp_utc : String
  pub status : Status
  pub payload : Payload

pub record EventFilter : Type 0 where
  pub source_service : Option String
  pub status : Option Status
  pub limit : Option ℕ
  pub from : Option String
  pub to : Option String
  pub offset : Option ℕ

-- `dto::EventFilter{}`
abbrev pub no_filter : EventFilter
no_filter = record {
  source_service = none;
  status = none;
  limit = none;
  from = none;
  to = none;
  offset = none;
}

pub data FilterType : Type 0 where
  src_srv status limit from to offset : FilterType

-- `kMap.find(key)`
unfoldable pub find_type : String → Option FilterType
find_type key =
    if key == "source_service"
    then some FilterType.src_srv
    else if key == "status"
    then some FilterType.status
    else if key == "limit"
    then some FilterType.limit
    else if key == "from"
    then some FilterType.from
    else if key == "to"
    then some FilterType.to
    else if key == "offset"
    then some FilterType.offset
    else none

-- The `throw` after the switch is for values outside the enumeration, which no cast makes.
unfoldable pub status_to_str : Status → String
status_to_str Status.unspecified = "unspecified"
status_to_str Status.success = "success"
status_to_str Status.error = "error"

unfoldable pub str_to_status : String → Except Status
str_to_status text =
    if text == "unspecified"
    then ok Status.unspecified
    else if text == "success"
    then ok Status.success
    else if text == "error"
    then ok Status.error
    else throw "Invalid status str in Event::StrToStatus()."

pub record Stats : Type 0 where
  pub events_total : ℕ
  pub events_success : ℕ
  pub events_error : ℕ

-- the texts of the two statuses that are stored
pub success-ne-error : ◌≢◌ {A = String} "success" "error"
success-ne-error = ground (arith, eq_iff "success" "error")
