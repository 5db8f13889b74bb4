-- ===== src/History/Postgres/Select.antt =====
-- The queries "get_events" and "get_stats" of services/history/infrastructure/db/
-- postgres_events_repo.cc over the tables.
use two_services.Base.{
  ℕ, suc, ◌^◌, String, Bool, true, ◌&&◌, Option, none, some, List, [], ◌∷◌, map, ◌==◌, leb, length,
  take, drop, if◌then◌else◌,
}
use two_services.Base.Exec.{Except, ok, throw, bind}
use two_services.History.Postgres.{
  Engine, EventRow, PayloadRow, Tables, find_payload, value_out_of_range, invalid_timestamp,
}

-- the rows that pass a test
abbrev pub select {ℓ} : {A : Type ℓ} → (A → Bool) → List A → List A
select test [] = []
select test (x ∷ xs) = let rest = select test xs in if test x then x ∷ rest else rest

-- `a = COALESCE($n, a)`
abbrev pub same_or_null : Option String → String → Bool
same_or_null none s = true
same_or_null (some t) s = s == t

-- `LIMIT COALESCE($5, 1e9)`, and `OFFSET GREATEST(COALESCE($6, 0), 0)`
abbrev pub limit_of : Option ℕ → ℕ
limit_of none = 1_000_000_000
limit_of (some n) = n

abbrev pub offset_of : Option ℕ → ℕ
offset_of none = 0
offset_of (some n) = n

module _ (engine : Engine) where
  open engine use {Timestamptz, read_timestamp, timestamp_leb, order_by, what}

  -- a row of `events e LEFT JOIN payloads p ON e.id = p.event_id`; `event_id` is a key, so there is
  -- one payload at most
  pub record Joined : Type 0 where
    pub event : EventRow engine
    pub payload : Option (PayloadRow engine)

  abbrev pub join : Tables engine → EventRow engine → Joined
  join t row = record { event = row; payload = find_payload engine row.id t.payloads }

  -- a parameter of type TIMESTAMPTZ, sent as text, which may be NULL
  abbrev pub read_timestamp_param : Option String → Except (Option Timestamptz)
  read_timestamp_param none = ok none
  read_timestamp_param (some s) = elim (read_timestamp s) [
    | none ↦ throw (what invalid_timestamp)
    | some t ↦ ok (some t)
  ]

  -- an unsigned number, sent as text, for a parameter that takes numbers below a bound
  abbrev pub number_param : ℕ → Option ℕ → Except (Option ℕ)
  number_param bound none = ok none
  number_param bound (some n) = if leb bound n then throw (what value_out_of_range) else ok (some n)

  -- `COALESCE($5, 1e9)` is numeric, and LIMIT takes what fits a BIGINT.
  abbrev pub limit_param : Option ℕ → Except (Option ℕ)
  limit_param limit = number_param (2 ^ 63) limit

  -- `COALESCE($6, 0)` makes the parameter an INTEGER.
  abbrev pub offset_param : Option ℕ → Except (Option ℕ)
  offset_param offset = number_param (2 ^ 31) offset

  abbrev pub from_or_null : Option Timestamptz → Timestamptz → Bool
  from_or_null none t = true
  from_or_null (some from) t = timestamp_leb from t

  abbrev pub to_or_null : Option Timestamptz → Timestamptz → Bool
  to_or_null none t = true
  to_or_null (some to) t = timestamp_leb t to

  -- the WHERE clause
  abbrev pub where_clause :
      Option String → Option Timestamptz → Option Timestamptz → Option String → Joined → Bool
  where_clause source_service from to status row =
      same_or_null source_service row.event.source_service
      && (from_or_null from row.event.timestamp_utc
          && (to_or_null to row.event.timestamp_utc && same_or_null status row.event.status))

  -- FROM, WHERE and ORDER BY, with one order of rows with equal times for each state of the rows
  abbrev pub selected :
      Option String
      → Option Timestamptz
      → Option Timestamptz
      → Option String
      → Tables engine
      → List Joined
  selected source_service from to status t =
      order_by Joined (λ row. row.event.timestamp_utc)
        (select (where_clause source_service from to status) (map (join t) t.events))

  -- "get_events", with its six parameters
  unfoldable pub get_events :
      Option String
      → Option String
      → Option String
      → Option String
      → Option ℕ
      → Option ℕ
      → Tables engine
      → Except (List Joined)
  get_events source_service from to status limit offset t = bind (read_timestamp_param from) λ from.
      bind (read_timestamp_param to) λ to. bind (limit_param limit) λ limit.
        bind (offset_param offset) λ offset. ok (
          take (limit_of limit)
            (drop (offset_of offset) (selected source_service from to status t)))

  -- COUNT(*) FILTER (WHERE status = …)
  abbrev pub count_status : String → List (EventRow engine) → ℕ
  count_status status [] = 0
  count_status status (row ∷ rows) =
      let rest = count_status status rows in if row.status == status then suc rest else rest

  -- "get_stats": one row of three counts
  unfoldable pub get_stats : Tables engine → List (ℕ × ℕ × ℕ)
  get_stats t =
      (length t.events, count_status "success" t.events, count_status "error" t.events) ∷ []
