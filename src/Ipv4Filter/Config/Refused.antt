-- ===== src/Ipv4Filter/Config/Refused.antt =====
-- What becomes of the events under a configuration.
use two_services.Base.{ℕ, ◌≡◌, ◌≢◌, String, false, Option, some, ◌==◌, eq_iff, arith}
use two_services.Grpc.{invalid_argument_status}
use two_services.NetLogger.{NetLogger}
use two_services.Utils.Builder.{Clock}
use two_services.Utils.Convert.{to_proto_event}
use two_services.History.Validate.{validate_event}
use two_services.Ipv4Filter.EventBuilder.{event_at}
use two_services.Ipv4Filter.Config.{app_config}

-- Where the environment names a database host other than "ipv4_filter", the history service refuses
-- every event that the client builds.
app_config-validate_event :
    (net : NetLogger) (clock : Clock) (now : ℕ → clock.TimePoint) (getenv : String → Option String)
    (host : String) (entry : net.LogEntry) (time : clock.TimePoint)
    → getenv "POSTGRES_HOST" ≡ some host
    → host ≢ "ipv4_filter"
    → validate_event
        (to_proto_event (event_at net clock now (app_config getenv).service_name entry time))
      ≡ invalid_argument_status "Unknown source_service."
unfolding validate_event to_proto_event event_at app_config
app_config-validate_event net clock now getenv host entry time h other =
    let differs : (host == "ipv4_filter") ≡ false = ground (arith, eq_iff host "ipv4_filter") in
    rw (h, differs)
