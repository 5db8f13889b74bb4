-- ===== src/History/Repo.antt =====
-- `PostgresEventsRepo` of services/history/infrastructure/db/postgres_events_repo.cc.
pub mod Invariant
pub mod Added
pub mod Save
pub mod Success
pub mod Keeps
pub mod Query
pub mod Appended
pub mod Reading
pub mod Returned
pub mod Unnamed
pub mod Steps
pub mod Limit
pub mod Doubt
mod Tests
use Prim.Native.String.{◌++◌ as append}
use two_services.Base.{ℕ, String, Option, none, some, List, [], ◌∷◌}
use two_services.Base.Exec.{Except, ok, throw, Exec, ◌>>=◌, ◌>>◌, pure, lift, bind}
use two_services.Shared.Dto
use two_services.Shared.Dto.{status_to_str, str_to_status}
use two_services.Shared.Result.{Result, VoidResult, ok_value, not_ok, void_ok, void_not_ok}
use two_services.Utils.Convert.{on_value}
use two_services.History.UseCases.{EventRepository}
use two_services.History.Postgres.{
  Engine, Tables, PayloadRow, insert_event, insert_payload, parameter_count, null_conversion,
}
use two_services.History.Postgres.Select.{Joined}
use two_services.History.Postgres.Select

-- what the handlers of `catch (const std::exception &e)` put in front
abbrev pub postgres_error : String → String
postgres_error what = append "[Postgres] " what

module _ (engine : Engine) where
  open engine use {show_timestamp, show_inet, what}

  -- The database and what will happen to the calls that are still to be made: the next one is
  -- carried out, or it throws with a text, as when the connection breaks.
  pub record Db : Type 0 where
    pub tables : Tables engine
    pub faults : List (Option String)

  abbrev pub call_with :
      {A : Type 0} → (Tables engine → Except A × Tables engine) → List (Option String) → Exec Db A
  call_with f faults db = let (r, t) = f db.tables in (r, record { tables = t; faults = faults })

  -- one call to the server
  abbrev pub call : {A : Type 0} → (Tables engine → Except A × Tables engine) → Exec Db A
  call f db = elim db.faults [
    | [] ↦ call_with f [] db
    | none ∷ faults ↦ call_with f faults db
    | some what ∷ faults ↦ (throw what, record db { faults = faults })
  ]

  -- BEGIN and COMMIT change no table themselves
  abbrev pub control : Exec Db (Unit {0})
  control = call (λ t. (ok tt, t))

  -- A transaction that throws is rolled back when it is destroyed; sequences do not go back.
  abbrev pub rolled_back : {A : Type 0} → Tables engine → Except A → Db → Except A × Db
  rolled_back t (ok a) db = (ok a, db)
  rolled_back t (throw e) db =
      (throw e, record db { tables = record t { next_id = db.tables.next_id } })

  abbrev pub transaction : {A : Type 0} → Exec Db A → Exec Db A
  transaction body db = let (r, db') = body db in rolled_back db.tables r db'

  -- `exec` of "insert_event", with the identifier that it returns
  abbrev pub send_event : Dto.Event → Exec Db ℕ
  send_event e =
      call (insert_event engine e.source_service e.timestamp_utc (status_to_str e.status))

  -- `exec` of "insert_payload"
  abbrev pub send_payload : Dto.Event → ℕ → Exec Db (Unit {0})
  send_payload e event_id = call (
      insert_payload engine event_id e.payload.raw_line e.payload.parsed_ip
        e.payload.filter_decision e.payload.reject_reason)

  -- the body of the loop over the events
  unfoldable pub save_one : Dto.Event → Exec Db (Unit {0})
  save_one event = do event_id ← send_event event; send_payload event event_id

  unfoldable pub save_all : List Dto.Event → Exec Db (Unit {0})
  unfolding save_one
  save_all [] = pure tt
  save_all (event ∷ events) = do save_one event; save_all events

  abbrev pub insert_body : List Dto.Event → Exec Db (Unit {0})
  insert_body events = do control; save_all events; control

  -- the `try` block of `SaveEvents`
  unfoldable pub insert_all : List Dto.Event → Exec Db (Unit {0})
  unfolding save_all
  insert_all events = transaction (insert_body events)

  abbrev pub caught_void : Except (Unit {0}) → VoidResult
  caught_void (ok _) = void_ok
  caught_void (throw e) = void_not_ok (postgres_error e)

  -- PostgresEventsRepo::SaveEvents
  unfoldable pub save_events : List Dto.Event → Exec Db VoidResult
  unfolding insert_all
  save_events [] db = (ok void_ok, db)
  save_events (event ∷ events) db =
      let (r, db') = insert_all (event ∷ events) db in (ok (caught_void r), db')

  -- the part of a row that stands in the table `payloads`, which `as<std::string>` reads
  abbrev pub payload_of_row : Option (PayloadRow engine) → Except Dto.Payload
  payload_of_row none = throw (what null_conversion)
  payload_of_row (some row) = ok (record {
    raw_line = row.raw_line;
    parsed_ip = on_value show_inet row.parsed_ip;
    filter_decision = row.filter_decision;
    reject_reason = row.reject_reason;
  })

  -- one round of the loop over the result
  unfoldable pub event_of_row : Joined engine → Except Dto.Event
  event_of_row row = bind (str_to_status row.event.status) λ status.
      bind (payload_of_row row.payload) λ payload. ok (record {
        source_service = row.event.source_service;
        timestamp_utc = show_timestamp row.event.timestamp_utc;
        status = status;
        payload = payload;
      })

  unfoldable pub events_of_rows : List (Joined engine) → Except (List Dto.Event)
  unfolding event_of_row
  events_of_rows [] = ok []
  events_of_rows (row ∷ rows) =
      bind (event_of_row row) λ event. bind (events_of_rows rows) λ events. ok (event ∷ events)

  -- `exec` of "get_events": with the parameters of a filter, or with none at all, which is an error
  -- since the statement has six
  unfoldable pub query_events :
      Option Dto.EventFilter → Tables engine → Except (List (Joined engine))
  unfolding status_to_str
  query_events none t = throw (what parameter_count)
  query_events (some f) t =
      Select.get_events engine f.source_service f.from f.to (on_value status_to_str f.status)
        f.limit f.offset t

  abbrev pub fetch_body : Option Dto.EventFilter → Exec Db (List Dto.Event)
  fetch_body filter = do
    control
    rows ← call (λ t. (query_events filter t, t))
    events ← lift (events_of_rows rows)
    control
    pure events

  -- the `try` block of `GetEvents`
  unfoldable pub read_events : Option Dto.EventFilter → Exec Db (List Dto.Event)
  unfolding query_events events_of_rows
  read_events filter = transaction (fetch_body filter)

  abbrev pub caught {ℓ} : {A : Type ℓ} → Except A → Result A
  caught (ok a) = ok_value a
  caught (throw e) = not_ok (postgres_error e)

  -- PostgresEventsRepo::GetEvents
  unfoldable pub get_events : Option Dto.EventFilter → Exec Db (Result (List Dto.Event))
  unfolding read_events
  get_events filter db = let (r, db') = read_events filter db in (ok (caught r), db')

  -- what `GetStats` makes of the rows
  abbrev pub stats_of_rows : List (ℕ × ℕ × ℕ) → Result Dto.Stats
  stats_of_rows [] = not_ok "No stats returned"
  stats_of_rows ((total, success, error) ∷ rows) =
      ok_value (record { events_total = total; events_success = success; events_error = error })

  abbrev pub count_body : Exec Db (Result Dto.Stats)
  count_body = do
    control
    rows ← call (λ t. (ok (Select.get_stats engine t), t))
    control
    pure (stats_of_rows rows)

  -- the `try` block of `GetStats`
  unfoldable pub read_stats : Exec Db (Result Dto.Stats)
  read_stats = transaction count_body

  abbrev pub caught_result {ℓ} : {A : Type ℓ} → Except (Result A) → Result A
  caught_result (ok result) = result
  caught_result (throw e) = not_ok (postgres_error e)

  -- PostgresEventsRepo::GetStats
  unfoldable pub get_stats : Exec Db (Result Dto.Stats)
  unfolding read_stats
  get_stats db = let (r, db') = read_stats db in (ok (caught_result r), db')

  abbrev pub postgres_events_repo : EventRepository Db
  postgres_events_repo = record {
    save_events = save_events;
    get_events = get_events;
    get_stats = get_stats;
  }
