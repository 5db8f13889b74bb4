-- ===== src/History/Repo/Returned.antt =====
-- `GetEvents` after `SaveEvents`.
use mathlib.Core.List.{Perm, map-append}
use two_services.Base.{
  ℕ, ◌+◌, ◌^◌, ◌≤◌, ◌≡◌, refl, ap, ap₂, subst, ◌∙◌, none, some, List, [], ◌∷◌, ◌++◌, map, arith,
  length, length-append, take_all,
}
use mathlib.Core.List.Perm
use two_services.Base.Order.{length-Perm}
use two_services.Base.Exec.{ok}
use two_services.Shared.Dto
use two_services.Shared.Dto.{status_to_str, str_to_status, no_filter}
use two_services.Shared.Result.{ok_value, void_ok}
use two_services.Utils.Convert.{on_value}
use two_services.History.Postgres.{Engine, Tables}
use two_services.History.Postgres.Select.{Joined, select, selected, where_clause}
use two_services.History.Repo.{event_of_row, save_events, get_events}
use two_services.History.Repo.Invariant.{view, IsConsistent, Columns}
use two_services.History.Repo.Added.{added_row}
use two_services.History.Repo.Save.{all_columns, added_rows, save_events-IsStored}
use two_services.History.Repo.Reading.{decode, page, IsTaken, get_events-page}

module _ (engine : Engine) where
  -- An event as the database gives it back: the time and the address in the database's own form.
  abbrev pub as_stored : Dto.Event → Columns engine → Dto.Event
  as_stored e c = record e {
    timestamp_utc = engine.show_timestamp c.time;
    payload = record (e.payload) { parsed_ip = on_value engine.show_inet c.ip };
  }

  abbrev pub all_as_stored : List Dto.Event → List (Columns engine) → List Dto.Event
  all_as_stored (e ∷ es) (c ∷ cs) = as_stored e c ∷ all_as_stored es cs
  all_as_stored _ _ = []

  str_to_status-status_to_str : (s : Dto.Status) → str_to_status (status_to_str s) ≡ ok s
  unfolding str_to_status status_to_str
  str_to_status-status_to_str Dto.Status.unspecified = refl
  str_to_status-status_to_str Dto.Status.success = refl
  str_to_status-status_to_str Dto.Status.error = refl

  decode-added_row :
      (e : Dto.Event) (c : Columns engine) (id : ℕ)
      → decode engine (added_row engine e c id) ≡ as_stored e c
  unfolding decode event_of_row
  decode-added_row e c id = rw (str_to_status-status_to_str e.status)

  decode-added_rows :
      (es : List Dto.Event) (cs : List (Columns engine)) (id : ℕ)
      → map (decode engine) (added_rows engine es cs id) ≡ all_as_stored es cs
  unfolding added_rows
  decode-added_rows [] [] id = refl
  decode-added_rows [] (c ∷ cs) id = refl
  decode-added_rows (e ∷ es) [] id = refl
  decode-added_rows (e ∷ es) (c ∷ cs) id =
      ap₂ (◌∷◌) (decode-added_row e c id) (decode-added_rows es cs (id + 1))

  select-all :
      (rows : List (Joined engine)) → select (where_clause engine none none none none) rows ≡ rows
  select-all [] = refl
  select-all (row ∷ rows) = ap (◌∷◌ row) (select-all rows)

  -- The order in which a query without conditions returns the rows.
  abbrev pub in_order : Tables engine → List (Joined engine)
  in_order t = selected engine none none none none t

  in_order-Perm : (t : Tables engine) → Perm (in_order t) (view engine t)
  in_order-Perm t =
      subst (Perm (in_order t)) (select-all (view engine t)) (engine.order_by-perm _ _ _)

  -- The filter without conditions is taken.
  abbrev no_filter_taken : IsTaken engine no_filter
  no_filter_taken = record {
    from = none;
    to = none;
    from_read = refl;
    to_read = refl;
    limit_fits = omega arith;
    offset_fits = omega arith;
  }

  added_rows-length :
      (es : List Dto.Event) (cs : List (Columns engine)) (id : ℕ)
      → length (added_rows engine es cs id) ≤ length es
  unfolding added_rows
  added_rows-length [] cs id = omega arith
  added_rows-length (e ∷ es) [] id = omega arith
  added_rows-length (e ∷ es) (c ∷ cs) id = omega (arith, added_rows-length es cs (id + 1))

  page-no_filter :
      (t : Tables engine)
      → length (view engine t) ≤ 1_000_000_000
      → page engine no_filter none none t ≡ map (decode engine) (in_order t)
  page-no_filter t h =
      let few : length (in_order t) ≤ 1_000_000_000 =
        omega (arith, h, length-Perm (in_order-Perm t)) in
      ap (map (decode engine)) (take_all 1_000_000_000 (in_order t) few)

  -- On consistent tables, without faults, with identifiers left and with no more than 10 ^ 9
  -- events in all: `SaveEvents` succeeds on events that the schema admits, and `GetEvents` with
  -- the filter without conditions then returns, in some order, the events that were stored before
  -- and the new ones, with times and addresses in the database's form, and changes nothing.
  pub get_events-save_events :
      (events : List Dto.Event) (cs : List (Columns engine)) (t : Tables engine)
      → IsConsistent engine t
      → t.next_id + length events ≤ 2 ^ 31
      → length (view engine t) + length events ≤ 1_000_000_000
      → all_columns engine events ≡ some cs
      → (u : Tables engine) × (found : List Dto.Event) × (save_events engine events
            (record { tables = t; faults = [] })
          ≡ (ok void_ok, record { tables = u; faults = [] }))
        × (get_events engine (some no_filter) (record { tables = u; faults = [] })
            ≡ (ok (ok_value found), record { tables = u; faults = [] }))
        × Perm found (map (decode engine) (view engine t) ++ all_as_stored events cs)
  get_events-save_events events cs t h room few k =
      let (u, saved, stored) = save_events-IsStored engine events cs t h room k in
      let small : length (view engine u) ≤ 1_000_000_000 = omega (
        arith,
        few,
        ap length stored.rows,
        length-append (view engine t) (added_rows engine events stored.columns t.next_id),
        added_rows-length events stored.columns t.next_id,
      ) in
      (
        u,
        map (decode engine) (in_order u),
        saved,
        get_events-page engine no_filter u no_filter_taken stored.consistent
            ∙ ap (λ found. (ok (ok_value found), record { tables = u; faults = [] }))
                (page-no_filter u small),
        subst (Perm (map (decode engine) (in_order u)))
            (ap (map (decode engine)) stored.rows
              ∙ map-append (decode engine) (view engine t)
                  (added_rows engine events stored.columns t.next_id)
              ∙ ap (◌++◌ (map (decode engine) (view engine t))) (
                  decode-added_rows events stored.columns t.next_id
                  ∙ ap (all_as_stored events) (cc (stored.admitted, k))))
            (Perm.map (decode engine) (in_order-Perm u)),
      )
