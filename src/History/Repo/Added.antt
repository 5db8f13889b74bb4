-- ===== src/History/Repo/Added.antt =====
-- One event put into the tables, by the loop body of `SaveEvents`.
use mathlib.Core.List.{map-append}
use two_services.Base.{
  and-eq_true, ℕ, ◌+◌, ◌^◌, ◌<◌, ◌≡◌, refl, ap, ap₂, ◌∙◌, String, Bool, true, false, Option, none,
  some, List, [], ◌∷◌, ◌++◌, map, arith, All, All-append_one, All-mono,
}
use two_services.Base.Exec.{ok}
use two_services.Shared.Dto
use two_services.Shared.Dto.{status_to_str}
use two_services.History.Postgres.{
  insert_event_row, insert_payload_row, Engine, Tables, EventRow, PayloadRow, read_inet_param,
  source_service_check, status_check, filter_decision_check, insert_event, insert_payload,
}
use two_services.History.Postgres.Select.{Joined, join}
use two_services.History.Repo.{save_one}
use two_services.History.Repo.Invariant.{
  view, IsGood, IsConsistent, Columns, columns, columns_of, ip_column, event_row, payload_row,
  added, has_event-fresh, has_event-append, find_payload-fresh, find_payload-append_self,
  find_payload-append_other,
}

module _ (engine : Engine) where
  open engine use {Timestamptz, read_timestamp, Inet, read_inet}

  ip_column-read :
      (o : Option String) (ip : Option Inet)
      → ip_column engine o ≡ some ip
      → read_inet_param engine o ≡ ok ip
  ip_column-read none ip h = cc
  ip_column-read (some s) ip h = ground arith

  -- The row that a query sees of an added event.
  abbrev pub added_row : Dto.Event → Columns engine → ℕ → Joined engine
  added_row e c id = record {
    event = event_row engine e c id;
    payload = some (payload_row engine e c id);
  }

  module _ (e : Dto.Event) (c : Columns engine) (t : Tables engine)
      (h : IsConsistent engine t) where
    -- The rows that were there join to what they joined to before.
    join-added :
        (rows : List (EventRow engine))
        → All (λ (row : EventRow engine). row.id < t.next_id) rows
        → map (join engine (added engine e c t)) rows ≡ map (join engine t) rows
    join-added [] f = refl
    join-added (row ∷ rows) f =
        ap₂ ◌∷◌
          (ap (λ p. record { event = row; payload = p })
            (find_payload-append_other engine row.id (payload_row engine e c t.next_id) t.payloads
              f.0))
          (join-added rows f.1)

    pub view-added :
        view engine (added engine e c t) ≡ view engine t ++ added_row e c t.next_id ∷ []
    view-added =
        map-append (join engine (added engine e c t)) t.events (event_row engine e c t.next_id ∷ [])
        ∙ ap₂ (◌++◌) (join-added t.events h.fresh_events) (
            ap (λ p. record { event = event_row engine e c t.next_id; payload = p } ∷ [])
              (find_payload-append_self engine (payload_row engine e c t.next_id) t.payloads
                h.fresh_payloads))

    pub added-IsConsistent :
        IsGood engine (added_row e c t.next_id) → IsConsistent engine (added engine e c t)
    added-IsConsistent g = record {
      fresh_events =
          All-append_one (λ (row : EventRow engine). row.id < t.next_id + 1) t.events _
            (All-mono (λ (row : EventRow engine). row.id < t.next_id) _ (λ row f. omega arith)
              t.events h.fresh_events)
            (omega arith);
      fresh_payloads =
          All-append_one (λ (row : PayloadRow engine). row.event_id < t.next_id + 1) t.payloads _
            (All-mono (λ (row : PayloadRow engine). row.event_id < t.next_id) _
              (λ row f. omega arith) t.payloads h.fresh_payloads)
            (omega arith);
      good = rw view-added (All-append_one (IsGood engine) (view engine t) _ h.good g);
    }

  columns_of-parts :
      (time : Option Timestamptz) (ip : Option (Option Inet)) (admitted : Bool) (c : Columns engine)
      → columns_of engine time ip admitted ≡ some c
      → (time ≡ some c.time) × (ip ≡ some c.ip) × (admitted ≡ true)
  columns_of-parts none ip admitted c h = cc
  columns_of-parts (some time) none admitted c h = cc
  columns_of-parts (some time) (some ip) false c h = cc
  columns_of-parts (some time) (some ip) true c h = (cc, cc, refl)

  module _ (e : Dto.Event) (c : Columns engine) (h : columns engine e ≡ some c) where
    -- what an event with columns meets
    pub columns-parts :
        (read_timestamp e.timestamp_utc ≡ some c.time)
        × (ip_column engine e.payload.parsed_ip ≡ some c.ip)
        × (source_service_check e.source_service ≡ true)
        × (status_check (status_to_str e.status) ≡ true)
        × (filter_decision_check e.payload.filter_decision ≡ true)
    unfolding columns
    columns-parts =
        let (time, ip, admitted) = columns_of-parts _ _ _ c h in
        let (source, others) = and-eq_true _ _ admitted in
        let (status, decision) = and-eq_true _ _ others in (time, ip, source, status, decision)

    pub columns-IsGood : (id : ℕ) → IsGood engine (added_row e c id)
    columns-IsGood id =
        (columns-parts.2, columns-parts.3, (payload_row engine e c id, refl, columns-parts.4))

    read_inet_param-ip : read_inet_param engine e.payload.parsed_ip ≡ ok c.ip
    read_inet_param-ip = ip_column-read e.payload.parsed_ip c.ip columns-parts.1

    -- the tables between the two statements
    abbrev half_added : Tables engine → Tables engine
    half_added t = record t {
      events = t.events ++ event_row engine e c t.next_id ∷ [];
      next_id = t.next_id + 1;
    }

    insert_event-admitted :
        (t : Tables engine)
        → IsConsistent engine t
        → t.next_id < 2 ^ 31
        → insert_event engine e.source_service e.timestamp_utc (status_to_str e.status) t
          ≡ (ok t.next_id, half_added t)
    unfolding insert_event insert_event_row
    insert_event-admitted t k room =
        rw (columns-parts.0, insert_event)
          (ground (
            arith,
            columns-parts.2,
            columns-parts.3,
            has_event-fresh engine t.next_id t.events k.fresh_events,
          ))

    insert_payload-admitted :
        (t : Tables engine)
        → IsConsistent engine t
        → insert_payload engine t.next_id e.payload.raw_line e.payload.parsed_ip
            e.payload.filter_decision e.payload.reject_reason
            (half_added t)
          ≡ (ok tt, added engine e c t)
    unfolding insert_payload insert_payload_row
    insert_payload-admitted t k =
        rw (read_inet_param-ip, insert_payload)
          (ground (
            arith,
            columns-parts.4,
            find_payload-fresh engine t.next_id t.payloads k.fresh_payloads,
            has_event-append engine (event_row engine e c t.next_id) t.events,
          ))

    -- Without faults the loop body adds the event.
    pub save_one-added :
        (t : Tables engine)
        → IsConsistent engine t
        → t.next_id < 2 ^ 31
        → save_one engine e (record { tables = t; faults = [] })
          ≡ (ok tt, record { tables = added engine e c t; faults = [] })
    unfolding save_one
    save_one-added t k room = rw (insert_event-admitted t k room) (rw (insert_payload-admitted t k))
