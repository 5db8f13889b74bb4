-- ===== src/History/Postgres.antt =====
-- The PostgreSQL database behind services/history/infrastructure/db/postgres_events_repo.cc: the
-- tables of sql/schema.sql with their constraints, and the statements of `PrepareStatements`. What
-- the server itself does (types, their texts and order, messages) is the parameter `Engine`.
pub mod Select
use mathlib.Core.List.{Perm, Pairwise}
use two_services.Base.{
  ℕ, ◌+◌, ◌^◌, ◌≡◌, String, Bool, true, false, not, ◌||◌, Option, none, some, List, [], ◌∷◌, ◌++◌,
  ◌==◌, nat_eq, leb, if◌then◌else◌,
}
use two_services.Base.Exec.{Except, ok, throw}

pub data SqlError : Type 0 where
  invalid_timestamp invalid_inet value_out_of_range sequence_exhausted duplicate_key : SqlError
  check_source_service check_status check_filter_decision fk_events_payloads : SqlError
  parameter_count null_conversion undefined_statement : SqlError

pub record Engine : Type 1 where
  pub Timestamptz : Type 0
  -- input and output of the type: none is a syntax error
  pub read_timestamp : String → Option Timestamptz
  pub show_timestamp : Timestamptz → String
  pub timestamp_leb : Timestamptz → Timestamptz → Bool
  pub Inet : Type 0
  pub read_inet : String → Option Inet
  pub show_inet : Inet → String
  -- ORDER BY: which order rows with equal keys come in is the server's choice
  pub order_by : (A : Type 0) → (A → Timestamptz) → List A → List A
  pub order_by-perm :
      (A : Type 0) (key : A → Timestamptz) (rows : List A) → Perm (order_by A key rows) rows
  pub order_by-sorted :
      (A : Type 0) (key : A → Timestamptz) (rows : List A)
      → Pairwise (λ a b. timestamp_leb (key a) (key b) ≡ true) (order_by A key rows)
  -- the text of the exception that libpqxx makes of an error
  pub what : SqlError → String

-- CHECK (source_service IN ('calculator', 'ipv4_filter'))
abbrev pub source_service_check : String → Bool
source_service_check s = s == "calculator" || s == "ipv4_filter"

-- CHECK (status IN ('success', 'error'))
abbrev pub status_check : String → Bool
status_check s = s == "success" || s == "error"

-- CHECK (filter_decision IN ('accepted', 'rejected'))
abbrev pub filter_decision_check : String → Bool
filter_decision_check s = s == "accepted" || s == "rejected"

module _ (engine : Engine) where
  open engine use {Timestamptz, read_timestamp, timestamp_leb, Inet, read_inet, order_by, what}

  pub record EventRow : Type 0 where
    pub id : ℕ
    pub source_service : String
    pub timestamp_utc : Timestamptz
    pub status : String

  pub record PayloadRow : Type 0 where
    pub event_id : ℕ
    pub raw_line : String
    pub parsed_ip : Option Inet
    pub filter_decision : String
    pub reject_reason : Option String

  -- `next_id` is the sequence of the column `id SERIAL`.
  pub record Tables : Type 0 where
    pub events : List EventRow
    pub payloads : List PayloadRow
    pub next_id : ℕ

  abbrev pub has_event : ℕ → List EventRow → Bool
  has_event id [] = false
  has_event id (row ∷ rows) = nat_eq row.id id || has_event id rows

  abbrev pub find_payload : ℕ → List PayloadRow → Option PayloadRow
  find_payload id [] = none
  find_payload id (row ∷ rows) = if nat_eq row.event_id id then some row else find_payload id rows

  abbrev pub is_some {ℓ} : {A : Type ℓ} → Option A → Bool
  is_some none = false
  is_some (some a) = true

  -- INSERT INTO events …, once the parameters are read. The sequence moves on before the constraints
  -- are checked. The lengths of the VARCHARs are implied by the checks:
  -- a text that is too long is refused with the error of its check, in place of that of its length.
  unfoldable pub insert_event_row : String → Timestamptz → String → Tables → Except ℕ × Tables
  insert_event_row source_service time status t =
      let id = t.next_id in
      let t' : Tables = record t { next_id = id + 1 } in
      if leb (2 ^ 31) id
      then (throw (what sequence_exhausted), t)
      else if not (source_service_check source_service)
      then (throw (what check_source_service), t')
      else if not (status_check status)
      then (throw (what check_status), t')
      else if has_event id t.events
      then (throw (what duplicate_key), t')
      else (
        ok id,
        record t' {
          events =
              t.events
              ++ record {
                id = id;
                source_service = source_service;
                timestamp_utc = time;
                status = status;
              }
                ∷ [];
        },
      )

  -- "insert_event"
  unfoldable pub insert_event : String → String → String → Tables → Except ℕ × Tables
  unfolding insert_event_row
  insert_event source_service timestamp_utc status t = elim (read_timestamp timestamp_utc) [
    | none ↦ (throw (what invalid_timestamp), t)
    | some time ↦ insert_event_row source_service time status t
  ]

  -- an INET parameter, which may be NULL
  abbrev pub read_inet_param : Option String → Except (Option Inet)
  read_inet_param none = ok none
  read_inet_param (some s) = elim (read_inet s) [
    | none ↦ throw (what invalid_inet)
    | some ip ↦ ok (some ip)
  ]

  unfoldable pub insert_payload_row : PayloadRow → Tables → Except (Unit {0}) × Tables
  insert_payload_row row t =
      if not (filter_decision_check row.filter_decision)
      then (throw (what check_filter_decision), t)
      else if is_some (find_payload row.event_id t.payloads)
      then (throw (what duplicate_key), t)
      else if not (has_event row.event_id t.events)
      then (throw (what fk_events_payloads), t)
      else (ok tt, record t { payloads = t.payloads ++ row ∷ [] })

  -- "insert_payload"
  unfoldable pub insert_payload :
      ℕ → String → Option String → String → Option String → Tables → Except (Unit {0}) × Tables
  unfolding insert_payload_row
  insert_payload event_id raw_line parsed_ip filter_decision reject_reason t =
      elim (read_inet_param parsed_ip) [
        | throw e ↦ (throw e, t)
        | ok ip ↦
            insert_payload_row
              (record {
                event_id = event_id;
                raw_line = raw_line;
                parsed_ip = ip;
                filter_decision = filter_decision;
                reject_reason = reject_reason;
              })
              t
      ]
