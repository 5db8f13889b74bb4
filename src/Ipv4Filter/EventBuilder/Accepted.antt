-- ===== src/Ipv4Filter/EventBuilder/Accepted.antt =====
-- The events that `EventBuilder` builds, on the server's side of the wire.
use Prim.Native.String.{◌++◌ as append}
use Prim.Native.String
use two_services.Base.{
  ℕ, suc, ◌≡◌, ◌≢◌, refl, ap, ◌∙◌, ◌⊎◌, inl, inr, String, true, Option, none, some, arith, eq_iff,
  ◌==◌, Bool-cases,
}
use two_services.Grpc.{is_ok}
use two_services.Shared.Dto
use two_services.Proto
use two_services.NetLogger.{NetLogger, RejectReason}
use two_services.Utils.Builder.{Clock, Tm, format_timestamp, put_time, get_filter_decision}
use two_services.Utils.Convert.{
  to_dto_event, to_proto_event, to_proto_event_status, to_proto_filter_decision,
}
use two_services.Utils.RoundTrip.{to_dto_event-to_proto_event, sent_decision, with_decision}
use two_services.History.Validate.{validate_event}
use two_services.History.Validate.Accepts.{IsAcceptable, validate_event-IsAcceptable}
use two_services.Ipv4Filter.EventBuilder.{event_at, build, status_by_ip}

append_not_empty : (s t : String) → ◌≢◌ {A = String} (append s (append "-" t)) ""
append_not_empty String.[] t h =
    cc (rw (String.append.nil (append "-" t), String.append.cons "-" "" t) at h)
append_not_empty (String.◌∷◌ c s) t h = cc (rw (String.append.cons c s (append "-" t)) at h)

put_time_not_empty : (tm : Tm) → put_time tm ≢ ""
unfolding put_time
put_time_not_empty tm = append_not_empty _ _

reads_decision :
    (reason : RejectReason)
    → sent_decision (get_filter_decision reason) ≡ get_filter_decision reason
unfolding get_filter_decision
reads_decision RejectReason.none = refl
reads_decision RejectReason.invalid_format = refl
reads_decision RejectReason.invalid_ip_address = refl
reads_decision RejectReason.filter_rejected = refl
reads_decision RejectReason.other = refl

status_is_set :
    {A : Type 0} (ip : Option A)
    → to_proto_event_status (status_by_ip ip) ≢ Proto.EventStatus.unspecified
unfolding to_proto_event_status
status_is_set none h = cc
status_is_set (some ip) h = cc

decision_is_set :
    (reason : RejectReason)
    → to_proto_filter_decision (get_filter_decision reason) ≢ Proto.FilterDecision.unspecified
unfolding get_filter_decision to_proto_filter_decision
decision_is_set RejectReason.none h = cc
decision_is_set RejectReason.invalid_format h = cc
decision_is_set RejectReason.invalid_ip_address h = cc
decision_is_set RejectReason.filter_rejected h = cc
decision_is_set RejectReason.other h = cc

module _ (net : NetLogger) (clock : Clock) (now : ℕ → clock.TimePoint) where
  -- The server reads a built event as it was built.
  pub event_at-unchanged :
      (src : String) (entry : net.LogEntry) (time : clock.TimePoint)
      → to_dto_event (to_proto_event (event_at net clock now src entry time))
        ≡ event_at net clock now src entry time
  unfolding event_at
  event_at-unchanged src entry time =
      to_dto_event-to_proto_event (event_at net clock now src entry time)
      ∙ ap (λ d. with_decision d (event_at net clock now src entry time))
          (reads_decision (net.reason entry))

  event_at-IsAcceptable :
      (entry : net.LogEntry) (time : clock.TimePoint)
      → net.raw_line entry ≢ ""
      → IsAcceptable (to_proto_event (event_at net clock now "ipv4_filter" entry time))
  unfolding event_at to_proto_event format_timestamp
  event_at-IsAcceptable entry time h = (
    refl,
    put_time_not_empty (clock.localtime time),
    status_is_set (net.parsed_ip entry),
    h,
    decision_is_set (net.reason entry),
  )

  -- `Build` makes an event of every entry with a line, and of no other; under the service name
  -- "ipv4_filter" the server's validation answers OK to the event, and its conversions give back the
  -- event as it was built.
  pub build-validate_event :
      (entry : net.LogEntry) (k : ℕ)
      → ((net.raw_line entry ≡ "") × (build net clock now "ipv4_filter" entry k ≡ (none, k)))
        ⊎ ((event : Dto.Event) × (build net clock now "ipv4_filter" entry k ≡ (some event, suc k))
            × (is_ok (validate_event (to_proto_event event)) ≡ true)
            × (to_dto_event (to_proto_event event) ≡ event))
  unfolding build
  build-validate_event entry k = elim (Bool-cases (net.raw_line entry == "")) [
    | inl e ↦ inl (ground (arith, eq_iff (net.raw_line entry) ""), rw (e, build))
    | inr e ↦ inr (
      event_at net clock now "ipv4_filter" entry (now k),
      rw (e, build),
      (validate_event-IsAcceptable
            (to_proto_event (event_at net clock now "ipv4_filter" entry (now k)))).1
          (event_at-IsAcceptable entry (now k)
            (λ h. ground (arith, eq_iff (net.raw_line entry) ""))),
      event_at-unchanged "ipv4_filter" entry (now k),
    )
  ]
