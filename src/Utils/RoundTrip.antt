-- ===== src/Utils/RoundTrip.antt =====
-- The conversions of shared/utils/utils.cc taken there and back.
use two_services.Base.{
  ℕ, String, Option, none, some, ◌≡◌, refl, ap, ◌≢◌, ◌⊎◌, inl, inr, arith, eq_iff, Option-cases,
  ◌==◌, ◌||◌, if◌then◌else◌,
}
use two_services.Base.Exec.{ok, throw}
use two_services.Shared.Dto
use two_services.Proto
use two_services.Utils.Convert.{
  TimeUtil, to_proto_event_status, from_proto_event_status, to_proto_filter_decision,
  from_proto_filter_decision, to_dto_event, to_proto_event, to_dto_stats, to_proto_stats, on_value,
  try_value, to_timestamp_from_str, from_timestamp_to_str, to_uint32, to_proto_event_filter,
  from_proto_event_filter,
}

-- The decision that arrives: one with no enumerator is lost.
abbrev pub sent_decision : String → String
sent_decision d = if d == "accepted" || d == "rejected" then d else ""

-- The event with another decision.
abbrev pub with_decision : String → Dto.Event → Dto.Event
with_decision d e = record e { payload = record (e.payload) { filter_decision = d } }

status_there_and_back : (s : Dto.Status) → from_proto_event_status (to_proto_event_status s) ≡ s
unfolding from_proto_event_status to_proto_event_status
status_there_and_back Dto.Status.unspecified = refl
status_there_and_back Dto.Status.success = refl
status_there_and_back Dto.Status.error = refl

on_status_there_and_back :
    (o : Option Dto.Status)
    → on_value from_proto_event_status (on_value to_proto_event_status o) ≡ o
on_status_there_and_back none = refl
on_status_there_and_back (some s) = ap some (status_there_and_back s)

decision_there_and_back :
    (d : String) → from_proto_filter_decision (to_proto_filter_decision d) ≡ sent_decision d
unfolding from_proto_filter_decision to_proto_filter_decision
decision_there_and_back d = ground (arith, eq_iff d "accepted", eq_iff d "rejected")

-- An event whose decision is "accepted" or "rejected" comes back from its message unchanged; of any
-- other event the decision, and nothing else, comes back as the empty text.
pub to_dto_event-to_proto_event :
    (e : Dto.Event)
    → to_dto_event (to_proto_event e) ≡ with_decision (sent_decision e.payload.filter_decision) e
unfolding to_dto_event to_proto_event
to_dto_event-to_proto_event e =
    cc (status_there_and_back e.status, decision_there_and_back e.payload.filter_decision)

-- The enumerators of a message have names, and its payload is set.
abbrev IsNamed : Proto.Event → Proto.EventPayload → Type 0
IsNamed e p =
    (e.payload ≡ some p)
    × ((n : ℕ) → e.status ≢ Proto.EventStatus.unknown n)
    × ((n : ℕ) → p.filter_decision ≢ Proto.FilterDecision.unknown n)

named_status :
    (s : Proto.EventStatus)
    → ((n : ℕ) → s ≢ Proto.EventStatus.unknown n)
    → to_proto_event_status (from_proto_event_status s) ≡ s
unfolding from_proto_event_status to_proto_event_status
named_status Proto.EventStatus.unspecified h = refl
named_status Proto.EventStatus.success h = refl
named_status Proto.EventStatus.error h = refl
named_status (Proto.EventStatus.unknown n) h = absurd (h n refl)

named_decision :
    (d : Proto.FilterDecision)
    → ((n : ℕ) → d ≢ Proto.FilterDecision.unknown n)
    → to_proto_filter_decision (from_proto_filter_decision d) ≡ d
unfolding from_proto_filter_decision to_proto_filter_decision
named_decision Proto.FilterDecision.unspecified h = refl
named_decision Proto.FilterDecision.accepted h = refl
named_decision Proto.FilterDecision.rejected h = refl
named_decision (Proto.FilterDecision.unknown n) h = absurd (h n refl)

-- A message whose payload is set and whose enumerators have names comes back from its entity
-- unchanged.
to_proto_event-to_dto_event :
    (e : Proto.Event) (p : Proto.EventPayload) → IsNamed e p → to_proto_event (to_dto_event e) ≡ e
unfolding to_dto_event to_proto_event
to_proto_event-to_dto_event e p h =
    rw h.0 (cc (named_status e.status h.1, named_decision p.filter_decision h.2))

-- Statistics pass through their message unchanged, in both directions.
pub stats_there_and_back :
    (s : Dto.Stats) (m : Proto.Stats)
    → (to_dto_stats (to_proto_stats s) ≡ s) × (to_proto_stats (to_dto_stats m) ≡ m)
unfolding to_dto_stats to_proto_stats
stats_there_and_back s m = (refl, refl)

-- A filter as it arrives: `limit` and `offset` were cut to 32 bits.
abbrev pub cut_to_uint32 : Dto.EventFilter → Dto.EventFilter
cut_to_uint32 f = record f {
  limit = on_value to_uint32 f.limit;
  offset = on_value to_uint32 f.offset;
}

module _ (time : TimeUtil) where
  open time use {Timestamp, from_string, to_string}

  -- A time, if one is given, is a text that `TimeUtil` reads and prints again as it is.
  abbrev pub IsCanonical : Option String → Type 0
  IsCanonical none = Unit {0}
  IsCanonical (some s) = (t : Timestamp) × (from_string s ≡ some t) × (to_string t ≡ s)

  -- A time is given that `TimeUtil` does not read.
  abbrev pub IsUnreadable : Option String → Type 0
  IsUnreadable none = ⊥
  IsUnreadable (some s) = from_string s ≡ none

  time_there_and_back :
      (o : Option String)
      → IsCanonical o
      → (t : Option Timestamp) × (try_value (to_timestamp_from_str time) o ≡ ok t)
        × (on_value (from_timestamp_to_str time) t ≡ o)
  unfolding to_timestamp_from_str from_timestamp_to_str
  time_there_and_back none h = (none, refl, refl)
  time_there_and_back (some s) h = (some (h.0), rw (h.1, to_timestamp_from_str), ap some h.2)

  unreadable_throws :
      (o : Option String)
      → IsUnreadable o
      → try_value (to_timestamp_from_str time) o ≡ throw "Bad string format."
  unfolding to_timestamp_from_str
  unreadable_throws none h = absurd h
  unreadable_throws (some s) h = rw (h, to_timestamp_from_str)

  read_or_throws :
      (o : Option String)
      → ((t : Option Timestamp) × (try_value (to_timestamp_from_str time) o ≡ ok t))
        ⊎ (try_value (to_timestamp_from_str time) o ≡ throw "Bad string format.")
  unfolding to_timestamp_from_str
  read_or_throws none = inl (none, refl)
  read_or_throws (some s) = elim (Option-cases (from_string s)) [
    | inl e ↦ inr (rw (e, to_timestamp_from_str))
    | inr (t, e) ↦ inl (some t, rw (e, to_timestamp_from_str))
  ]

  -- A filter whose times are canonical arrives, with the same fields but for a limit and an offset
  -- that were cut to 32 bits.
  pub filter_over_the_wire :
      (f : Dto.EventFilter)
      → IsCanonical f.from
      → IsCanonical f.to
      → (p : Proto.EventFilter Timestamp) × (to_proto_event_filter time (some f) ≡ ok (some p))
        × (from_proto_event_filter time (some p) ≡ some (cut_to_uint32 f))
  unfolding to_proto_event_filter from_proto_event_filter
  filter_over_the_wire f hf ht =
      let (from, from_sent, from_back) = time_there_and_back f.from hf in
      let (to, to_sent, to_back) = time_there_and_back f.to ht in
      (
        record {
          source_service = f.source_service;
          status = on_value to_proto_event_status f.status;
          limit = on_value to_uint32 f.limit;
          from = from;
          to = to;
          offset = on_value to_uint32 f.offset;
        },
        rw (from_sent, to_sent),
        cc (from_back, to_back, on_status_there_and_back f.status),
      )

  -- A filter with a time that `TimeUtil` does not read is not sent: the conversion throws.
  unreadable_time_throws :
      (f : Dto.EventFilter)
      → IsUnreadable f.from ⊎ IsUnreadable f.to
      → to_proto_event_filter time (some f) ≡ throw "Bad string format."
  unfolding to_proto_event_filter
  unreadable_time_throws f (inl h) = rw (unreadable_throws f.from h)
  unreadable_time_throws f (inr h) = elim (read_or_throws f.from) [
    | inl (t, e) ↦ rw (e, unreadable_throws f.to h)
    | inr e ↦ rw e
  ]
