-- ===== src/Utils/Tests.antt =====
-- The conversions of shared/utils/utils.cc on concrete values.
use two_services.Base.{◌≡◌, refl, String, none, some, arith}
use two_services.Base.Exec.{ok}
use two_services.Shared.Dto
use two_services.Proto
use two_services.Utils.Builder.{ipv4_address_to_string, put_time, two_digits}
use two_services.Utils.Convert.{
  to_dto_event, to_proto_event, to_proto_event_filter, from_proto_event_filter,
}
use two_services.Utils.Address.{read_ipv4, read_ipv4-ipv4_address_to_string}
use two_services.Utils.RoundTrip.{
  with_decision, sent_decision, cut_to_uint32, to_dto_event-to_proto_event, filter_over_the_wire,
}
use two_services.Samples.{time_util, now}
use two_services.Samples.Data.{event}
use two_services.Base.Decimal.{to_string, to_string_onto}

put_time_pads : put_time (now 7) ≡ "2025-01-31 09:05:07"
unfolding put_time two_digits to_string to_string_onto
put_time_pads = refl

read_ipv4-ipv4_address_to_string_example :
    read_ipv4 (ipv4_address_to_string 3_232_235_777) ≡ some 3_232_235_777
read_ipv4-ipv4_address_to_string_example =
    read_ipv4-ipv4_address_to_string 3_232_235_777 (omega arith)

to_dto_event-to_proto_event_example :
    to_dto_event (to_proto_event event) ≡ with_decision (sent_decision "accepted") event
to_dto_event-to_proto_event_example = to_dto_event-to_proto_event event

abbrev filter : Dto.EventFilter
filter = record {
  source_service = some "ipv4_filter";
  status = some Dto.Status.error;
  limit = some 10;
  from = some "2025-01-31 09:00:00";
  to = none;
  offset = some 4_294_967_296;
}

filter_over_the_wire_example :
    (p : Proto.EventFilter String) × (to_proto_event_filter time_util (some filter) ≡ ok (some p))
    × (from_proto_event_filter time_util (some p) ≡ some (cut_to_uint32 filter))
filter_over_the_wire_example =
    filter_over_the_wire time_util filter ("2025-01-31 09:00:00", refl, refl) tt
