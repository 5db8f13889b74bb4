-- ===== src/History/Overlap/Counted.antt =====
-- What `GetStats` answers about transactions that overlapped, over an abstract store: a bag of
-- events, which knows neither their order nor their identifiers.
use mathlib.Core.List.{Perm}
use mathlib.Core.Quot
use mathlib.Core.Quot.{Quot, Quot-set}
use two_services.Base.{
  ℕ, ◌≡◌, refl, sym, ap, ◌∙◌, String, Bool, List, [], ◌∷◌, map, arith, length, length-map, ◌==◌,
}
use two_services.Base.Exec.{ok}
use two_services.Base.Order.{count_if, count_if-Perm, length-Perm}
use two_services.Shared.Dto
use two_services.Shared.Dto.{status_to_str}
use two_services.Shared.Result.{ok_value}
use two_services.History.Postgres.{Engine, Tables, EventRow}
use two_services.History.Postgres.Select.{Joined, join, count_status}
use two_services.History.Postgres.Select
use two_services.History.Repo.{get_stats, read_stats}
use two_services.History.Repo.Invariant.{IsConsistent}
use two_services.History.Overlap.{Shared, Steps, quiet}
use two_services.History.Overlap.Rows.{Own, nothing, row}
use two_services.History.Overlap.Serial.{kept, Steps-IsSerial}

abbrev pub has_status : String → Dto.Event → Bool
has_status text event = status_to_str event.status == text

abbrev pub stats_of : List Dto.Event → Dto.Stats
stats_of events = record {
  events_total = length events;
  events_success = count_if (has_status "success") events;
  events_error = count_if (has_status "error") events;
}

pub Stats-set : IsSet Dto.Stats
Stats-set = hlevel

pub stats_of-Perm : (xs ys : List Dto.Event) → Perm xs ys → stats_of xs ≡ stats_of ys
stats_of-Perm xs ys p i = record {
  events_total = length-Perm p i;
  events_success = count_if-Perm (has_status "success") p i;
  events_error = count_if-Perm (has_status "error") p i;
}

-- The abstract store.
abbrev pub Bag : Type 0
Bag = Quot (Perm {A = Dto.Event})

-- Its statistics.
abbrev pub bag_stats : Bag → Dto.Stats
bag_stats = Quot.lift Stats-set stats_of stats_of-Perm

module _ (engine : Engine) where
  events-view :
      (t : Tables engine) (rows : List (EventRow engine))
      → map (λ (r : Joined engine). r.event) (map (join engine t) rows) ≡ rows
  events-view t [] = refl
  events-view t (r ∷ rows) = ap (◌∷◌ r) (events-view t rows)

  count_status-Own :
      (text : String) {events : List Dto.Event} {rows : List (Joined engine)}
      → Own engine events rows
      → count_status engine text (map (λ (r : Joined engine). r.event) rows)
        ≡ count_if (has_status text) events
  count_status-Own text nothing = refl
  count_status-Own text (row event c id e own) = ground (arith, count_status-Own text own)

  length-Own :
      {events : List Dto.Event} {rows : List (Joined engine)}
      → Own engine events rows
      → length rows ≡ length events
  length-Own nothing = refl
  length-Own (row event c id e own) = omega (arith, length-Own own)

  -- From tables without rows, however the transactions of `SaveEvents` overlap: without faults,
  -- `GetStats` answers what the bag of the committed events has for its statistics. The order of the commits,
  -- the identifiers and the calls that were refused make no difference.
  pub get_stats-bag_stats :
      (n : ℕ) {s : Shared engine}
      → let t : Tables engine = record { events = []; payloads = []; next_id = n } in
        Steps engine (quiet engine t) s
        → get_stats engine (record { tables = s.committed; faults = [] }) ≡ (
          ok (ok_value (bag_stats (Quot.mk (kept engine s.outcomes)))),
          record { tables = s.committed; faults = [] },
        )
  unfolding get_stats read_stats Select.get_stats
  get_stats-bag_stats n {s} steps =
      let t : Tables engine = record { events = []; payloads = []; next_id = n } in
      let empty : IsConsistent engine t = record {
        fresh_events = tt;
        fresh_payloads = tt;
        good = tt;
      } in
      let (_, (rows, same, own)) = Steps-IsSerial engine t empty steps in
      let events : s.committed.events ≡ map (λ (r : Joined engine). r.event) rows =
        sym (events-view s.committed s.committed.events)
        ∙ ap (map (λ (r : Joined engine). r.event)) same in
      ap (λ stats. (ok (ok_value stats), record { tables = s.committed; faults = [] }))
        (λ i. record {
          events_total =
              (ap length events ∙ length-map (λ (r : Joined engine). r.event) rows ∙ length-Own own)
                i;
          events_success =
              (ap (count_status engine "success") events ∙ count_status-Own "success" own) i;
          events_error = (ap (count_status engine "error") events ∙ count_status-Own "error" own) i;
        })
