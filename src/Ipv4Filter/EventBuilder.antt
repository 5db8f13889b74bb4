-- ===== src/Ipv4Filter/EventBuilder.antt =====
-- `EventBuilder` of services/ipv4_filter/adapters/builder/event_builder.cc. `now k` is what the clock
-- shows when it is read for the `k`th time; the number of readings is the state.
pub mod Accepted
use two_services.Base.{ℕ, suc, String, Option, none, some, ◌==◌, if◌then◌else◌}
use two_services.Shared.Dto
use two_services.Ipv4Filter.Interfaces.{EventBuilder}
use two_services.NetLogger.{NetLogger}
use two_services.Utils.Builder.{
  Clock, format_timestamp, ipv4_address_to_string, get_filter_decision, filter_reject_reason_to_str,
}
use two_services.Utils.Convert.{on_value}

abbrev pub status_by_ip : {A : Type 0} → Option A → Dto.Status
status_by_ip none = Dto.Status.error
status_by_ip (some ip) = Dto.Status.success

module _ (net : NetLogger) (clock : Clock) (now : ℕ → clock.TimePoint)
    (src_service_name : String) where
  -- the event of an entry, read at a time
  unfoldable pub event_at : net.LogEntry → clock.TimePoint → Dto.Event
  unfolding format_timestamp ipv4_address_to_string get_filter_decision filter_reject_reason_to_str
  event_at entry time = record {
    source_service = src_service_name;
    timestamp_utc = format_timestamp clock time;
    status = status_by_ip (net.parsed_ip entry);
    payload = record {
      raw_line = net.raw_line entry;
      parsed_ip = on_value (λ ip. ipv4_address_to_string (net.to_uint32 ip)) (net.parsed_ip entry);
      filter_decision = get_filter_decision (net.reason entry);
      reject_reason = filter_reject_reason_to_str (net.reason entry);
    };
  }

  -- EventBuilder::Build
  unfoldable pub build : net.LogEntry → ℕ → Option Dto.Event × ℕ
  unfolding event_at
  build entry readings =
      if net.raw_line entry == ""
      then (none, readings)
      else (some (event_at entry (now readings)), suc readings)

  -- the constructor of EventBuilder
  abbrev pub event_builder : EventBuilder net.LogEntry ℕ
  event_builder = record { build = build }
