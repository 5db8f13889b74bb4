-- ===== src/History/Repo/Invariant.antt =====
-- When the tables of the history service are consistent, and one event put into them.
use two_services.Base.{
  ℕ, ◌+◌, ◌<◌, ◌≡◌, refl, String, Bool, true, false, ◌&&◌, Option, none, some, List, [], ◌∷◌, ◌++◌,
  map, arith, All,
}
use two_services.Shared.Dto
use two_services.Shared.Dto.{status_to_str}
use two_services.History.Postgres.{
  Engine, Tables, EventRow, PayloadRow, has_event, find_payload, source_service_check, status_check,
  filter_decision_check,
}
use two_services.History.Postgres.Select.{Joined, join}

module _ (engine : Engine) where
  open engine use {Timestamptz, read_timestamp, Inet, read_inet}

  -- The rows that a query without conditions sees, in the order in which they were inserted.
  abbrev pub view : Tables engine → List (Joined engine)
  view t = map (join engine t) t.events

  -- A row with its payload, within the constraints of the schema.
  abbrev pub IsGood : Joined engine → Type 0
  IsGood row =
      (source_service_check row.event.source_service ≡ true)
      × (status_check row.event.status ≡ true)
      × ((p : PayloadRow engine) × (row.payload ≡ some p)
          × (filter_decision_check p.filter_decision ≡ true))

  -- Identifiers that are still to come are in use nowhere, and each event has its payload.
  pub record IsConsistent (t : Tables engine) : Type 0 where
    pub fresh_events : All (λ (row : EventRow engine). row.id < t.next_id) t.events
    pub fresh_payloads : All (λ (row : PayloadRow engine). row.event_id < t.next_id) t.payloads
    pub good : All IsGood (view t)

  -- The values of the columns that are not texts.
  pub record Columns : Type 0 where
    pub time : Timestamptz
    pub ip : Option Inet

  abbrev pub ip_column : Option String → Option (Option Inet)
  ip_column none = some none
  ip_column (some s) = elim (read_inet s) [ none ↦ none | some ip ↦ some (some ip) ]

  abbrev pub columns_of : Option Timestamptz → Option (Option Inet) → Bool → Option Columns
  columns_of (some time) (some ip) true = some (record { time = time; ip = ip })
  columns_of _ _ _ = none

  -- The columns of an event that the schema admits; none for any other event.
  unfoldable pub columns : Dto.Event → Option Columns
  columns e = columns_of (read_timestamp e.timestamp_utc) (ip_column e.payload.parsed_ip) (
      source_service_check e.source_service
      && (status_check (status_to_str e.status) && filter_decision_check e.payload.filter_decision))

  abbrev pub event_row : Dto.Event → Columns → ℕ → EventRow engine
  event_row e c id = record {
    id = id;
    source_service = e.source_service;
    timestamp_utc = c.time;
    status = status_to_str e.status;
  }

  abbrev pub payload_row : Dto.Event → Columns → ℕ → PayloadRow engine
  payload_row e c id = record {
    event_id = id;
    raw_line = e.payload.raw_line;
    parsed_ip = c.ip;
    filter_decision = e.payload.filter_decision;
    reject_reason = e.payload.reject_reason;
  }

  -- The tables with one event more.
  abbrev pub added : Dto.Event → Columns → Tables engine → Tables engine
  added e c t = record {
    events = t.events ++ event_row e c t.next_id ∷ [];
    payloads = t.payloads ++ payload_row e c t.next_id ∷ [];
    next_id = t.next_id + 1;
  }

  pub has_event-fresh :
      (n : ℕ) (rows : List (EventRow engine))
      → All (λ (row : EventRow engine). row.id < n) rows
      → has_event engine n rows ≡ false
  has_event-fresh n [] h = refl
  has_event-fresh n (row ∷ rows) h = ground (arith, has_event-fresh n rows h.1)

  pub has_event-append :
      (row : EventRow engine) (rows : List (EventRow engine))
      → has_event engine row.id (rows ++ row ∷ []) ≡ true
  has_event-append row [] = ground arith
  has_event-append row (r ∷ rows) = ground (arith, has_event-append row rows)

  pub find_payload-fresh :
      (n : ℕ) (rows : List (PayloadRow engine))
      → All (λ (row : PayloadRow engine). row.event_id < n) rows
      → find_payload engine n rows ≡ none
  find_payload-fresh n [] h = refl
  find_payload-fresh n (row ∷ rows) h = ground (arith, find_payload-fresh n rows h.1)

  pub find_payload-append_self :
      (row : PayloadRow engine) (rows : List (PayloadRow engine))
      → All (λ (r : PayloadRow engine). r.event_id < row.event_id) rows
      → find_payload engine row.event_id (rows ++ row ∷ []) ≡ some row
  find_payload-append_self row [] h = ground arith
  find_payload-append_self row (r ∷ rows) h = ground (arith, find_payload-append_self row rows h.1)

  pub find_payload-append_other :
      (id : ℕ) (row : PayloadRow engine) (rows : List (PayloadRow engine))
      → id < row.event_id
      → find_payload engine id (rows ++ row ∷ []) ≡ find_payload engine id rows
  find_payload-append_other id row [] h = ground arith
  find_payload-append_other id row (r ∷ rows) h =
      ground (arith, find_payload-append_other id row rows h)
