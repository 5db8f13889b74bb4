-- ===== src/History/Repo/Save.antt =====
-- `SaveEvents` as a whole, and what it leaves in the tables.
use mathlib.Core.List.{append_assoc, append-nil}
use two_services.Base.{
  ℕ, ◌+◌, ◌^◌, ◌≤◌, ◌≡◌, refl, sym, ◌∙◌, ◌⊎◌, inl, inr, true, Option, none, some, List, [], ◌∷◌,
  ◌++◌, arith, length,
}
use two_services.Base.Exec.{Except, ok, throw}
use two_services.Shared.Dto
use two_services.Shared.Dto.{status_to_str}
use two_services.Shared.Result.{VoidResult, void_ok}
use two_services.History.Postgres.{Engine, Tables}
use two_services.History.Postgres.Select.{Joined}
use two_services.History.Repo.{
  Db, rolled_back, save_all, insert_all, insert_body, caught_void, save_events,
}
use two_services.History.Repo.Invariant.{view, IsGood, IsConsistent, Columns, columns, added}
use two_services.History.Repo.Added.{
  added_row, view-added, added-IsConsistent, columns-IsGood, save_one-added,
}

module _ (engine : Engine) where
  -- What a caller sees of the tables: all but the sequence.
  abbrev pub SameRows : Tables engine → Tables engine → Type 0
  SameRows t u = (t.events ≡ u.events) × (t.payloads ≡ u.payloads)

  rolled_back-SameRows :
      (t : Tables engine) (r : Except (Unit {0})) (db : Db engine)
      → ((caught_void engine (rolled_back engine t r db).0).success ≡ true)
        ⊎ SameRows (rolled_back engine t r db).1.tables t
  rolled_back-SameRows t (ok a) db = inl refl
  rolled_back-SameRows t (throw e) db = inr (refl, refl)

  -- `SaveEvents` returns a result whatever happens, and the result is a success, or the rows of both
  -- tables are what they were.
  pub save_events_atomic :
      (events : List Dto.Event) (db : Db engine)
      → (result : VoidResult) × ((save_events engine events db).0 ≡ ok result)
        × ((result.success ≡ true) ⊎ SameRows (save_events engine events db).1.tables db.tables)
  unfolding save_events insert_all
  save_events_atomic [] db = (void_ok, refl, inl refl)
  save_events_atomic (e ∷ es) db = (
    _,
    refl,
    rolled_back-SameRows db.tables (insert_body engine (e ∷ es) db).0
        (insert_body engine (e ∷ es) db).1,
  )

  abbrev pub both_columns :
      Option (Columns engine) → Option (List (Columns engine)) → Option (List (Columns engine))
  both_columns (some c) (some cs) = some (c ∷ cs)
  both_columns _ _ = none

  -- The columns of all the events, if the schema admits every one.
  unfoldable pub all_columns : List Dto.Event → Option (List (Columns engine))
  all_columns [] = some []
  all_columns (e ∷ es) = both_columns (columns engine e) (all_columns es)

  -- The rows that are added, numbered from `id` on.
  unfoldable pub added_rows : List Dto.Event → List (Columns engine) → ℕ → List (Joined engine)
  added_rows (e ∷ es) (c ∷ cs) id = added_row engine e c id ∷ added_rows es cs (id + 1)
  added_rows _ _ id = []

  -- The events are in the tables `u`, after those of `t` and in their order, and nothing else is new.
  pub record IsStored (events : List Dto.Event) (t u : Tables engine) : Type 0 where
    pub columns : List (Columns engine)
    pub admitted : all_columns events ≡ some columns
    pub rows : view engine u ≡ view engine t ++ added_rows events columns t.next_id
    pub consistent : IsConsistent engine u
    pub next : u.next_id ≡ t.next_id + length events

  pub IsStored-nil : (t : Tables engine) → IsConsistent engine t → IsStored [] t t
  unfolding all_columns added_rows
  IsStored-nil t h = record {
    columns = [];
    admitted = refl;
    rows = sym (append-nil _);
    consistent = h;
    next = omega arith;
  }

  pub IsStored-cons :
      (e : Dto.Event) (es : List Dto.Event) (c : Columns engine) (t u : Tables engine)
      → IsConsistent engine t
      → columns engine e ≡ some c
      → IsStored es (added engine e c t) u
      → IsStored (e ∷ es) t u
  unfolding all_columns added_rows
  IsStored-cons e es c t u h k s = record {
    columns = c ∷ s.columns;
    admitted = rw (k, s.admitted);
    rows =
        s.rows
        ∙ rw (view-added engine e c t h) (
            append_assoc (view engine t) (added_row engine e c t.next_id ∷ [])
              (added_rows es s.columns (t.next_id + 1)));
    consistent = s.consistent;
    next = omega (arith, s.next);
  }

  pub both_columns-parts :
      (o : Option (Columns engine)) (os : Option (List (Columns engine)))
      (cs : List (Columns engine))
      → both_columns o os ≡ some cs
      → ((c : Columns engine) × (o ≡ some c)) × ((ds : List (Columns engine)) × (os ≡ some ds))
  both_columns-parts none os cs h = cc
  both_columns-parts (some c) none cs h = cc
  both_columns-parts (some c) (some ds) cs h = ((c, refl), (ds, refl))

  save_all-IsStored :
      (events : List Dto.Event) (cs : List (Columns engine)) (t : Tables engine)
      → IsConsistent engine t
      → t.next_id + length events ≤ 2 ^ 31
      → all_columns events ≡ some cs
      → (u : Tables engine) × (save_all engine events (record { tables = t; faults = [] })
          ≡ (ok tt, record { tables = u; faults = [] }))
        × IsStored events t u
  unfolding save_all all_columns
  save_all-IsStored [] cs t h room k = (t, refl, IsStored-nil t h)
  save_all-IsStored (e ∷ es) cs t h room k =
      let ((c, p), (ds, q)) = both_columns-parts _ _ cs k in
      let good : IsGood engine (added_row engine e c t.next_id) =
        columns-IsGood engine e c p t.next_id in
      let (u, runs, stored) =
        save_all-IsStored es ds (added engine e c t) (added-IsConsistent engine e c t h good)
          (omega arith) q in
      (
        u,
        rw (save_one-added engine e c p t h (omega arith)) runs,
        IsStored-cons e es c t u h p stored,
      )

  -- On consistent tables, without faults, and with identifiers left, events that the schema admits
  -- are all stored, and `SaveEvents` reports success.
  pub save_events-IsStored :
      (events : List Dto.Event) (cs : List (Columns engine)) (t : Tables engine)
      → IsConsistent engine t
      → t.next_id + length events ≤ 2 ^ 31
      → all_columns events ≡ some cs
      → (u : Tables engine) × (save_events engine events (record { tables = t; faults = [] })
          ≡ (ok void_ok, record { tables = u; faults = [] }))
        × IsStored events t u
  unfolding save_events insert_all
  save_events-IsStored [] cs t h room k = (t, refl, IsStored-nil t h)
  save_events-IsStored (e ∷ es) cs t h room k =
      let (u, runs, stored) = save_all-IsStored (e ∷ es) cs t h room k in (u, rw runs, stored)
