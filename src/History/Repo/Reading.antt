-- ===== src/History/Repo/Reading.antt =====
-- `GetEvents` over consistent tables: the rows that its query selects, and what is read from them.
use mathlib.Core.List.{map-append}
use two_services.Base.{
  ℕ, ◌<◌, ◌≤◌, ◌≡◌, refl, ◌∙◌, inl, inr, String, Bool, true, false, Option, none, some, List, [],
  ◌∷◌, map, arith, Bool-cases, and-eq_true, All, ◌^◌, take, drop, ◌++◌, ◌+◌, ap, sym,
  take-append_drop, drop-add, ◌==◌, eq_iff,
}
use two_services.Base.Exec.{Except, ok, throw}
use two_services.Shared.Dto
use two_services.Shared.Dto.{str_to_status, status_to_str, success-ne-error}
use two_services.Utils.Convert.{on_value}
use two_services.Shared.Result.{ok_value, not_ok}
use two_services.History.Postgres.{Engine, Tables, value_out_of_range, status_check}
use two_services.Base.Order.{all, all-Perm, all-take, all-drop}
use two_services.History.Postgres.Select.{
  Joined, select, selected, join, where_clause, limit_of, offset_of, read_timestamp_param,
  limit_param, offset_param,
}
use two_services.History.Postgres.Select
use two_services.History.Repo.{
  postgres_error, event_of_row, events_of_rows, query_events, get_events, read_events,
}
use two_services.History.Repo.Invariant.{IsConsistent, IsGood, view}

module _ (engine : Engine) where
  -- whether a row can be read back, and what it reads as
  abbrev reads : Except Dto.Event → Bool
  reads (ok event) = true
  reads (throw what) = false

  abbrev pub is_readable : Joined engine → Bool
  is_readable row = reads (event_of_row engine row)

  abbrev event_or_empty : Except Dto.Event → Dto.Event
  event_or_empty (ok event) = event
  event_or_empty (throw what) = record {
    source_service = "";
    timestamp_utc = "";
    status = Dto.Status.unspecified;
    payload = record {
      raw_line = "";
      parsed_ip = none;
      filter_decision = "";
      reject_reason = none;
    };
  }

  -- The event that a row reads as.
  unfoldable pub decode : Joined engine → Dto.Event
  decode row = event_or_empty (event_of_row engine row)

  pub checked_status :
      (s : String) → status_check s ≡ true → (status : Dto.Status) × (str_to_status s ≡ ok status)
  unfolding str_to_status
  checked_status s h = elim (Bool-cases (s == "success")) [
    | inl e ↦ (
      Dto.Status.success,
      ground (
        arith,
        success-ne-error,
        eq_iff s "success",
        eq_iff s "unspecified",
        eq_iff "success" "unspecified",
      ),
    )
    | inr e ↦ (
      Dto.Status.error,
      ground (arith, eq_iff s "error", eq_iff s "unspecified", eq_iff "error" "unspecified"),
    )
  ]

  IsGood-is_readable : (row : Joined engine) → IsGood engine row → is_readable row ≡ true
  unfolding event_of_row
  IsGood-is_readable row (source, status, (p, joined, decision)) =
      let (st, e) = checked_status row.event.status status in rw (e, joined)

  all-good : (rows : List (Joined engine)) → All (IsGood engine) rows → all is_readable rows ≡ true
  all-good [] h = refl
  all-good (row ∷ rows) h = rw (IsGood-is_readable row h.0) (all-good rows h.1)

  reads-ok : (r : Except Dto.Event) → reads r ≡ true → r ≡ ok (event_or_empty r)
  reads-ok (ok event) h = refl
  reads-ok (throw what) h = cc

  events_of_rows-decode :
      (rows : List (Joined engine))
      → all is_readable rows ≡ true
      → events_of_rows engine rows ≡ ok (map decode rows)
  unfolding events_of_rows decode
  events_of_rows-decode [] h = refl
  events_of_rows-decode (row ∷ rows) h =
      let (first, others) = and-eq_true _ _ h in
      rw (reads-ok (event_of_row engine row) first, events_of_rows-decode rows others)

  all-select :
      (good test : Joined engine → Bool) (rows : List (Joined engine))
      → all good rows ≡ true
      → all good (select test rows) ≡ true
  all-select good test [] h = refl
  all-select good test (row ∷ rows) h =
      let (first, others) = and-eq_true (good row) (all good rows) h in
      elim (Bool-cases (test row)) [
        | inl kept ↦ rw (kept, first) (all-select good test rows others)
        | inr dropped ↦ rw dropped (all-select good test rows others)
      ]

  -- what holds of every row holds of the rows of a query
  pub all-selected :
      (good : Joined engine → Bool) (source_service : Option String)
      (from to : Option engine.Timestamptz) (status : Option String) (t : Tables engine)
      → all good (view engine t) ≡ true
      → all good (selected engine source_service from to status t) ≡ true
  all-selected good source_service from to status t h =
      all-Perm good (engine.order_by-perm _ _ _)
      ∙ all-select good (where_clause engine source_service from to status) (view engine t) h

  selected-readable :
      (source_service : Option String) (from to : Option engine.Timestamptz)
      (status : Option String) (t : Tables engine)
      → IsConsistent engine t
      → all is_readable (selected engine source_service from to status t) ≡ true
  selected-readable source_service from to status t h =
      all-selected is_readable source_service from to status t (all-good (view engine t) h.good)

  -- The events of a filter: the rows that meet its conditions, in order, from its offset on and up to
  -- its limit.
  abbrev pub page :
      Dto.EventFilter
      → Option engine.Timestamptz
      → Option engine.Timestamptz
      → Tables engine
      → List Dto.Event
  page f from to t = map decode (
      take (limit_of f.limit) (
        drop (offset_of f.offset)
          (selected engine f.source_service from to (on_value status_to_str f.status) t)))

  -- The parameters of a filter are ones that the server takes.
  pub record IsTaken (f : Dto.EventFilter) : Type 0 where
    pub from : Option engine.Timestamptz
    pub to : Option engine.Timestamptz
    pub from_read : read_timestamp_param engine f.from ≡ ok from
    pub to_read : read_timestamp_param engine f.to ≡ ok to
    pub limit_fits : limit_of f.limit < 2 ^ 63
    pub offset_fits : offset_of f.offset < 2 ^ 31

  limit_param-limit_of : (o : Option ℕ) → limit_of o < 2 ^ 63 → limit_param engine o ≡ ok o
  limit_param-limit_of none h = refl
  limit_param-limit_of (some n) h = ground arith

  offset_param-offset_of : (o : Option ℕ) → offset_of o < 2 ^ 31 → offset_param engine o ≡ ok o
  offset_param-offset_of none h = refl
  offset_param-offset_of (some n) h = ground arith

  -- On consistent tables and without faults `GetEvents` does not fail on a filter with readable
  -- times, a limit below 2 ^ 63 and an offset below 2 ^ 31: it returns the page that the filter
  -- asks for and changes nothing.
  pub get_events-page :
      (f : Dto.EventFilter) (t : Tables engine) (p : IsTaken f)
      → IsConsistent engine t
      → get_events engine (some f) (record { tables = t; faults = [] })
        ≡ (ok (ok_value (page f p.from p.to t)), record { tables = t; faults = [] })
  unfolding get_events read_events query_events Select.get_events
  get_events-page f t p h =
      rw
        (
          p.from_read,
          p.to_read,
          limit_param-limit_of f.limit p.limit_fits,
          offset_param-offset_of f.offset p.offset_fits,
        )
        rw
        (events_of_rows-decode _ (
          all-take is_readable (limit_of f.limit) _ (
            all-drop is_readable (offset_of f.offset) _ (
              selected-readable f.source_service p.from p.to (on_value status_to_str f.status) t
                h))))
        refl

  -- Whatever the tables hold, without faults, an offset of 2 ^ 31 or more, in a filter with
  -- readable times and a limit below 2 ^ 63, makes `GetEvents` answer with the database's error,
  -- and changes nothing.
  get_events-offset_too_large :
      (f : Dto.EventFilter) (t : Tables engine) (from to : Option engine.Timestamptz) (n : ℕ)
      → read_timestamp_param engine f.from ≡ ok from
      → read_timestamp_param engine f.to ≡ ok to
      → limit_of f.limit < 2 ^ 63
      → f.offset ≡ some n
      → 2 ^ 31 ≤ n
      → get_events engine (some f) (record { tables = t; faults = [] }) ≡ (
        ok (not_ok (postgres_error (engine.what value_out_of_range))),
        record { tables = t; faults = [] },
      )
  unfolding get_events read_events query_events Select.get_events
  get_events-offset_too_large f t from to n hf ht hl e h =
      let refused : offset_param engine (some n) ≡ throw (engine.what value_out_of_range) =
        ground arith in
      rw (hf, ht, limit_param-limit_of f.limit hl, e, refused)

  -- A page of `n` events and the page of `m` events that follows it make the page of `n + m` events.
  page-append :
      (f : Dto.EventFilter) (from to : Option engine.Timestamptz) (t : Tables engine) (k n m : ℕ)
      → page (record f { limit = some n; offset = some k }) from to t
          ++ page (record f { limit = some m; offset = some (k + n) }) from to t
        ≡ page (record f { limit = some (n + m); offset = some k }) from to t
  page-append f from to t k n m =
      let rows = selected engine f.source_service from to (on_value status_to_str f.status) t in
      sym (map-append decode (take n (drop k rows)) (take m (drop (k + n) rows)))
      ∙ ap (map decode) (
          ap (λ l. take n (drop k rows) ++ take m l) (drop-add k n rows)
          ∙ take-append_drop n m (drop k rows))
