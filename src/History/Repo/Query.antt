-- ===== src/History/Repo/Query.antt =====
-- `GetStats` over consistent tables.
use two_services.Base.{
  ℕ, String, ◌==◌, ◌+◌, ◌≡◌, refl, sym, List, [], ◌∷◌, map, arith, All, length, length-map, eq_iff,
}
use two_services.Base.Order.{count_if}
use two_services.Base.Exec.{ok}
use two_services.Shared.Dto
use two_services.Shared.Dto.{str_to_status, success-ne-error}
use two_services.Shared.Result.{ok_value}
use two_services.History.Postgres.{Engine, Tables, EventRow}
use two_services.History.Postgres.Select.{Joined, select, join, count_status}
use two_services.History.Postgres.Select
use two_services.History.Repo.{get_stats, read_stats}
use two_services.History.Repo.Invariant.{IsConsistent, IsGood, view}

module _ (engine : Engine) where
  status_counts :
      (t : Tables engine) (rows : List (EventRow engine))
      → All (IsGood engine) (map (join engine t) rows)
      → length rows ≡ count_status engine "success" rows + count_status engine "error" rows
  status_counts t [] h = refl
  status_counts t (row ∷ rows) h = ground (
    arith,
    success-ne-error,
    status_counts t rows h.1,
    h.0.1,
    eq_iff row.status "success",
    eq_iff row.status "error",
  )

  -- The rows as they are joined, with this status.
  abbrev pub with_status : String → List (Joined engine) → ℕ
  with_status status rows = count_if (λ row. row.event.status == status) rows

  with_status-join :
      (status : String) (t : Tables engine) (rows : List (EventRow engine))
      → count_status engine status rows ≡ with_status status (map (join engine t) rows)
  with_status-join status t [] = refl
  with_status-join status t (row ∷ rows) = ground (arith, with_status-join status t rows)

  -- `GetStats` on a consistent database, without faults: it succeeds, changes nothing, the total is
  -- the number of stored events, the counts are those of the stored events with the status "success" and
  -- with the status "error", and the successes and errors add up to the total.
  pub get_stats_adds_up :
      (t : Tables engine)
      → IsConsistent engine t
      → (stats : Dto.Stats) × (get_stats engine (record { tables = t; faults = [] })
          ≡ (ok (ok_value stats), record { tables = t; faults = [] }))
        × (stats.events_total ≡ length (view engine t))
        × (stats.events_success ≡ with_status "success" (view engine t))
        × (stats.events_error ≡ with_status "error" (view engine t))
        × (stats.events_total ≡ stats.events_success + stats.events_error)
  unfolding get_stats read_stats Select.get_stats
  get_stats_adds_up t h = (
    record {
      events_total = length t.events;
      events_success = count_status engine "success" t.events;
      events_error = count_status engine "error" t.events;
    },
    refl,
    sym (length-map (join engine t) t.events),
    with_status-join "success" t t.events,
    with_status-join "error" t t.events,
    status_counts t t.events h.good,
  )
