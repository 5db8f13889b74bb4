-- ===== src/Ipv4Filter/Tests.antt =====
-- The client's builder and use case on a small log.
use two_services.Ipv4Filter.EventBuilder.{build, event_builder}
use two_services.Grpc.{is_ok}
use two_services.Base.{
  String, Option, ◌==◌, ◌≢◌, if◌then◌else◌, arith, eq_iff, ◌≡◌, ◌⊎◌, suc, ◌+◌, true, none, some, [],
  concat, length,
}
use two_services.Shared.Dto
use two_services.NetLogger.{RejectReason}
use two_services.Utils.Convert.{to_dto_event, to_proto_event}
use two_services.History.Validate.{validate_event}
use two_services.Ipv4Filter.EventBuilder.Accepted.{build-validate_event}
use two_services.Ipv4Filter.UseCases.{on_batches}
use two_services.Ipv4Filter.UseCases.Built.{built, on_batches-built}
use two_services.Samples.{net, clock, now, Entry}

abbrev entry : Entry
entry = record { raw_line = "GET"; parsed_ip = none; reason = RejectReason.invalid_ip_address }

build-validate_event_example :
    ((entry.raw_line ≡ "") × (build net clock now "ipv4_filter" entry 3 ≡ (none, 3)))
    ⊎ ((event : Dto.Event) × (build net clock now "ipv4_filter" entry 3 ≡ (some event, suc 3))
        × (is_ok (validate_event (to_proto_event event)) ≡ true)
        × (to_dto_event (to_proto_event event) ≡ event))
build-validate_event_example = build-validate_event net clock now entry 3

on_batches-built_example :
    on_batches net (event_builder net clock now "ipv4_filter") (net.process_stream "GET" tt) ([], 0)
    ≡ (
      built net clock now "ipv4_filter" (concat (net.process_stream "GET" tt)) 0,
      0 + length (built net clock now "ipv4_filter" (concat (net.process_stream "GET" tt)) 0),
    )
on_batches-built_example =
    on_batches-built net clock now "ipv4_filter" (net.process_stream "GET" tt) 0

-- an environment that names the database's host
abbrev getenv : String → Option String
getenv name = if name == "POSTGRES_HOST" then some "postgres" else none

host_is_another : ◌≢◌ {A = String} "postgres" "ipv4_filter"
host_is_another = ground (arith, eq_iff "postgres" "ipv4_filter")
