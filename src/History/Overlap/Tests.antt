-- ===== src/History/Overlap/Tests.antt =====
-- Two calls of `SaveEvents` on two connections: both insert before either commits.
use two_services.Base.{◌≡◌, refl, true, false, none, some, List, [], ◌∷◌}
use two_services.Base.Exec.{ok}
use two_services.Shared.Dto.{status_to_str}
use two_services.Shared.Result.{VoidResult, ok_value}
use two_services.History.Postgres.{
  Tables, insert_event, insert_event_row, insert_payload, insert_payload_row,
}
use two_services.History.Repo.{Db, save_one, save_events, get_stats}
use two_services.History.Repo.Invariant.{IsConsistent, added}
use two_services.History.Overlap.{
  Txn, Shared, started, assign, advance, visible, begins, inserts, commits, Steps, here, next,
  quiet,
}
use two_services.History.Overlap.Serial.{IsSerial, kept, Steps-IsSerial}
use two_services.History.Overlap.Counted.{bag_stats, get_stats-bag_stats}
use mathlib.Core.Quot
use two_services.History.Overlap.Alone.{save_events-Steps, outcome_of}
use two_services.Utils.Address.{read_ipv4, read_octets, after_dot, at_end}
use two_services.Base.Decimal.{read_digits}
use two_services.Shared.Dto
use two_services.Samples.{engine, no_tables, empty_db}
use two_services.Samples.Data.{event, error_event}
use two_services.Samples.Facts.{no_tables-IsConsistent}

abbrev begun : List Dto.Event → Txn engine
begun events = started engine events

abbrev one_begun : Shared engine
one_begun = record (quiet engine no_tables) {
  running = assign engine 0 (some (begun (event ∷ []))) (λ c. none);
}

abbrev both_begun : Shared engine
both_begun = record one_begun {
  running = assign engine 1 (some (begun (error_event ∷ []))) one_begun.running;
}

-- what the first transaction sees once its event is in
abbrev first_end : Db engine
first_end = record {
  tables =
      added engine event (record { time = "2025-01-31 09:05:00"; ip = some 3_232_235_777 })
        (visible engine no_tables (begun (event ∷ [])).own);
  faults = [];
}

first_inserted :
    save_one engine event
      (record { tables = visible engine no_tables (begun (event ∷ [])).own; faults = [] })
    ≡ (ok tt, first_end)
unfolding save_one insert_event insert_event_row insert_payload insert_payload_row status_to_str
    read_ipv4 read_octets after_dot at_end read_digits
first_inserted = refl

-- the sequence has moved on, and the row of the first is not seen
abbrev moved_on : Tables engine
moved_on = advance engine first_end.tables.next_id no_tables

abbrev second_end : Db engine
second_end = record {
  tables =
      added engine error_event (record { time = "2025-01-31 09:04:00"; ip = none })
        (visible engine moved_on (begun (error_event ∷ [])).own);
  faults = [];
}

second_inserted :
    save_one engine error_event
      (record { tables = visible engine moved_on (begun (error_event ∷ [])).own; faults = [] })
    ≡ (ok tt, second_end)
unfolding save_one insert_event insert_event_row insert_payload insert_payload_row status_to_str
second_inserted = refl

abbrev one_inserted : (s : Shared engine) × Steps engine (quiet engine no_tables) s
one_inserted = (
  _,
  next
      (next (next here (begins (quiet engine no_tables) 0 event [] refl))
        (begins one_begun 1 error_event [] refl))
      (inserts both_begun 0 (begun (event ∷ [])) event [] [] first_end refl refl first_inserted),
)

-- the second commits before the first, whose answer is lost
abbrev both_committed : (s : Shared engine) × Steps engine (quiet engine no_tables) s
both_committed = (
  _,
  next
      (next
        (next one_inserted.1 (
          inserts _ 1 (begun (error_event ∷ [])) error_event [] [] second_end refl refl
            second_inserted))
        (commits _ 1 _ true refl refl))
      (commits _ 0 _ false refl refl),
)

Steps-IsSerial_example :
    IsConsistent engine both_committed.0.committed × IsSerial engine no_tables both_committed.0
Steps-IsSerial_example = Steps-IsSerial engine no_tables no_tables-IsConsistent both_committed.1

save_events-Steps_example :
    (result : VoidResult) × (s : Shared engine) × ((save_events engine
        (event ∷ error_event ∷ [])
        empty_db).0
      ≡ ok result)
    × Steps engine (quiet engine empty_db.tables) s
    × (s.committed ≡ (save_events engine (event ∷ error_event ∷ []) empty_db).1.tables)
    × (s.outcomes ≡ outcome_of engine empty_db.tables result (event ∷ error_event ∷ []) ∷ [])
save_events-Steps_example = save_events-Steps engine event (error_event ∷ []) empty_db

get_stats-bag_stats_example :
    get_stats engine (record { tables = both_committed.0.committed; faults = [] }) ≡ (
      ok (ok_value (bag_stats (Quot.mk (kept engine both_committed.0.outcomes)))),
      record { tables = both_committed.0.committed; faults = [] },
    )
get_stats-bag_stats_example = get_stats-bag_stats engine 1 both_committed.1
