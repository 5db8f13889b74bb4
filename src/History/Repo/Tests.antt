-- ===== src/History/Repo/Tests.antt =====
-- The repository on a small database.
use two_services.Samples.Facts.{no_tables-IsConsistent, text_ne}
use mathlib.Core.List.{Perm}
use two_services.Base.{inl, false, ◌≡◌, refl, true, none, some, List, [], ◌∷◌, ◌++◌, map, arith}
use two_services.Base.Exec.{ok}
use two_services.Shared.Dto
use two_services.Shared.Dto.{no_filter, status_to_str}
use two_services.Shared.Result.{VoidResult, void_ok, void_not_ok, ok_value}
use two_services.Utils.Address.{read_ipv4, read_octets, after_dot, at_end}
use two_services.Base.Decimal.{read_digits}
use two_services.History.Postgres.{
  Tables, insert_event, insert_event_row, insert_payload, insert_payload_row,
}
use two_services.History.Repo.{Db, save_events, insert_all, save_all, save_one, get_events}
use two_services.History.Repo.Invariant.{IsConsistent, Columns, columns, view}
use two_services.History.Repo.Save.{IsStored, all_columns, save_events-IsStored}
use two_services.History.Repo.Success.{save_events_success}
use two_services.History.Repo.Keeps.{save_events-IsConsistent}
use two_services.History.Repo.Reading.{IsTaken, decode}
use two_services.History.Repo.Returned.{all_as_stored, get_events-save_events}
use two_services.Samples.{engine, no_tables, empty_db}
use two_services.Grpc.{is_ok}
use two_services.Proto
use two_services.Utils.Convert.{to_dto_event}
use two_services.History.Validate.{validate_event}
use two_services.History.Repo.Doubt.{
  Ended, save_events_doubtful, insert_unanswered, save_events_doubtful-Ended,
}
use two_services.History.Validate.Accepts.{IsAcceptable}
use two_services.History.Repo.Unnamed.{save_events-IsUnnamed}
use two_services.Samples.Data.{event_message, event, error_event, unknown_event}

abbrev events : List Dto.Event
events = event ∷ error_event ∷ []

abbrev events_columns : List (Columns engine)
events_columns =
    record { time = "2025-01-31 09:05:00"; ip = some 3_232_235_777 }
    ∷ record { time = "2025-01-31 09:04:00"; ip = none }
    ∷ []

events_admitted : all_columns engine events ≡ some events_columns
unfolding all_columns columns status_to_str read_ipv4 read_octets after_dot at_end read_digits
events_admitted = refl

-- the connection breaks at the second payload
abbrev broken_db : Db engine
broken_db = record empty_db { faults = none ∷ none ∷ none ∷ none ∷ some "connection lost" ∷ [] }

save_events_doubtful-Ended_example :
    (result : VoidResult) × ((save_events_doubtful engine (some "in doubt") events empty_db).0
      ≡ ok result)
    × Ended engine
        (some "in doubt")
        events
        result
        no_tables
        (save_events_doubtful engine (some "in doubt") events empty_db).1.tables
save_events_doubtful-Ended_example =
    save_events_doubtful-Ended engine (some "in doubt") events empty_db no_tables-IsConsistent

-- COMMIT is carried out, and its answer is lost
commit_in_doubt :
    (save_events_doubtful engine (some "in doubt") events empty_db).0
    ≡ ok (void_not_ok "[Postgres] in doubt")
unfolding save_events_doubtful insert_unanswered save_all save_one insert_event insert_event_row
    insert_payload insert_payload_row status_to_str read_ipv4 read_octets after_dot at_end
    read_digits
commit_in_doubt = refl

-- the second payload finds no connection
nothing_is_kept : (save_events_doubtful engine none events broken_db).1.tables.events ≡ []
unfolding save_events_doubtful save_events insert_all save_all save_one insert_event
    insert_event_row insert_payload insert_payload_row status_to_str read_ipv4 read_octets after_dot
    at_end read_digits
nothing_is_kept = refl

save_events-IsStored_example :
    (u : Tables engine) × (save_events engine events empty_db
      ≡ (ok void_ok, record { tables = u; faults = [] }))
    × IsStored engine events no_tables u
save_events-IsStored_example =
    save_events-IsStored engine events events_columns no_tables no_tables-IsConsistent (omega arith)
      events_admitted

events_saved : (save_events engine events empty_db).0 ≡ ok void_ok
unfolding save_events insert_all save_all save_one insert_event insert_event_row insert_payload
    insert_payload_row status_to_str read_ipv4 read_octets after_dot at_end read_digits
events_saved = refl

save_events_success_example :
    IsStored engine events no_tables (save_events engine events empty_db).1.tables
save_events_success_example =
    save_events_success engine events empty_db void_ok no_tables-IsConsistent events_saved refl

save_events-IsConsistent_example :
    IsConsistent engine (save_events engine (event ∷ unknown_event ∷ []) broken_db).1.tables
save_events-IsConsistent_example =
    save_events-IsConsistent engine (event ∷ unknown_event ∷ []) broken_db no_tables-IsConsistent

abbrev filter : Dto.EventFilter
filter = record no_filter {
  from = some "2025-01-31 09:00:00";
  status = some Dto.Status.error;
  limit = some 10;
}

abbrev filter_taken : IsTaken engine filter
filter_taken = record {
  from = some "2025-01-31 09:00:00";
  to = none;
  from_read = refl;
  to_read = refl;
  limit_fits = omega arith;
  offset_fits = omega arith;
}

get_events-save_events_example :
    (u : Tables engine) × (found : List Dto.Event) × (save_events engine events empty_db
      ≡ (ok void_ok, record { tables = u; faults = [] }))
    × (get_events engine (some no_filter) (record { tables = u; faults = [] })
        ≡ (ok (ok_value found), record { tables = u; faults = [] }))
    × Perm found
        (map (decode engine) (view engine no_tables) ++ all_as_stored engine events events_columns)
get_events-save_events_example =
    get_events-save_events engine events events_columns no_tables no_tables-IsConsistent
      (omega arith) (omega arith) events_admitted

abbrev unnamed_message : Proto.Event
unnamed_message = record event_message { status = Proto.EventStatus.unknown 7 }

unnamed_message-IsAcceptable : IsAcceptable unnamed_message
unnamed_message-IsAcceptable = (refl, text_ne _ _ refl, λ e. cc, text_ne _ _ refl, λ e. cc)

save_events-IsUnnamed_example :
    (is_ok (validate_event unnamed_message) ≡ true)
    × (result : VoidResult) × ((save_events engine (to_dto_event unnamed_message ∷ []) empty_db).0
        ≡ ok result)
    × (result.success ≡ false)
save_events-IsUnnamed_example =
    save_events-IsUnnamed engine unnamed_message empty_db unnamed_message-IsAcceptable
      (inl (7, refl)) no_tables-IsConsistent
