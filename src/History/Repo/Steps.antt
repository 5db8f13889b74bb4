-- ===== src/History/Repo/Steps.antt =====
-- Calls of the repository one after another, in any order and by any handlers.
use mathlib.Core.List.{append-nil, append_assoc}
use two_services.Base.{
  ◌≡◌, refl, sym, ap, ap₂, subst, ◌∙◌, inl, inr, String, Option, none, some, List, [], ◌∷◌, ◌++◌,
}
use two_services.Base.Exec.{Except, ok, throw, Exec, ◌>>=◌, lift, Except-cases}
use two_services.Shared.Dto
use two_services.History.Postgres.{Engine, Tables}
use two_services.History.Postgres.Select
use two_services.History.Postgres.Select.{Joined, join}
use two_services.History.Repo.{
  Db, call, control, rolled_back, transaction, query_events, events_of_rows, fetch_body, count_body,
  read_events, read_stats, save_events, get_events, get_stats,
}
use two_services.History.Repo.Invariant.{IsConsistent, view}
use two_services.History.Repo.Save.{SameRows, save_events_atomic}
use two_services.History.Repo.Success.{save_events_success}
use two_services.History.Repo.Keeps.{save_events-IsConsistent}

module _ (engine : Engine) where
  -- The tables are what they were.
  abbrev pub Unchanged : {A : Type 0} → Exec (Db engine) A → Type 0
  Unchanged m = (db : Db engine) → (m db).1.tables ≡ db.tables

  pub call-Unchanged :
      {A : Type 0} (f : Tables engine → Except A × Tables engine)
      → ((t : Tables engine) → (f t).1 ≡ t)
      → (t : Tables engine) (faults : List (Option String))
      → (call engine f (record { tables = t; faults = faults })).1.tables ≡ t
  call-Unchanged f h t [] = h t
  call-Unchanged f h t (none ∷ faults) = h t
  call-Unchanged f h t (some what ∷ faults) = refl

  pub bind-Unchanged :
      {A B : Type 0} (m : Exec (Db engine) A) (f : A → Exec (Db engine) B)
      → Unchanged m
      → ((a : A) → Unchanged (f a))
      → Unchanged (m >>= f)
  bind-Unchanged m f hm hf db = elim (Except-cases (m db).0) [
    | inl (a, e) ↦ rw e (hf a (m db).1 ∙ hm db)
    | inr (what, e) ↦ rw e (hm db)
  ]

  rolled_back-Unchanged :
      {A : Type 0} (t : Tables engine) (r : Except A) (db : Db engine)
      → db.tables ≡ t
      → (rolled_back engine t r db).1.tables ≡ t
  rolled_back-Unchanged t (ok a) db h = h
  rolled_back-Unchanged t (throw what) db h = ap (λ u. record t { next_id = u.next_id }) h

  pub transaction-Unchanged :
      {A : Type 0} (m : Exec (Db engine) A) → Unchanged m → Unchanged (transaction engine m)
  transaction-Unchanged m h db = rolled_back-Unchanged db.tables (m db).0 (m db).1 (h db)

  pub control-Unchanged : Unchanged (control engine)
  control-Unchanged db = call-Unchanged (λ t. (ok tt, t)) (λ t. refl) db.tables db.faults

  pub read_events-Unchanged :
      (filter : Option Dto.EventFilter) → Unchanged (read_events engine filter)
  unfolding read_events
  read_events-Unchanged filter = transaction-Unchanged (fetch_body engine filter) (
      bind-Unchanged (control engine) _ control-Unchanged λ _.
        bind-Unchanged (call engine (λ t. (query_events engine filter t, t))) _
          (λ db.
            call-Unchanged (λ t. (query_events engine filter t, t)) (λ t. refl) db.tables db.faults)
          λ rows.
            bind-Unchanged (lift (events_of_rows engine rows)) _ (λ db. refl)
              λ events. bind-Unchanged (control engine) _ control-Unchanged λ _ db. refl)

  pub read_stats-Unchanged : Unchanged (read_stats engine)
  unfolding read_stats
  read_stats-Unchanged = transaction-Unchanged (count_body engine) (
      bind-Unchanged (control engine) _ control-Unchanged λ _.
        bind-Unchanged (call engine (λ t. (ok (Select.get_stats engine t), t))) _
          (λ db.
            call-Unchanged (λ t. (ok (Select.get_stats engine t), t)) (λ t. refl) db.tables
              db.faults)
          λ rows. bind-Unchanged (control engine) _ control-Unchanged λ _ db. refl)

  -- A call of the repository, by any handler; in between, the connections may get better or worse.
  pub data Call : Db engine → Db engine → Type 0 where
    saved : (events : List Dto.Event) (db : Db engine) → Call db (save_events engine events db).1
    fetched :
        (filter : Option Dto.EventFilter) (db : Db engine) → Call db (get_events engine filter db).1
    counted : (db : Db engine) → Call db (get_stats engine db).1
    disturbed :
        (db : Db engine) (faults : List (Option String)) → Call db (record db { faults = faults })

  pub data Calls (start : Db engine) : Db engine → Type 0 where
    here : Calls start start
    next : {db end : Db engine} → Calls start db → Call db end → Calls start end

  -- The rows of `t`, with others behind them.
  abbrev pub Extends : Tables engine → Tables engine → Type 0
  Extends t u = (more : List (Joined engine)) × (view engine u ≡ view engine t ++ more)

  pub Extends-same : (t u : Tables engine) → view engine u ≡ view engine t → Extends t u
  Extends-same t u h = ([], h ∙ sym (append-nil (view engine t)))

  pub Extends-trans : (s t u : Tables engine) → Extends s t → Extends t u → Extends s u
  Extends-trans s t u (more, rows) (even_more, all_rows) = (
    more ++ even_more,
    all_rows ∙ ap (λ l. l ++ even_more) rows ∙ append_assoc (view engine s) more even_more,
  )

  SameRows-view : (t u : Tables engine) → SameRows engine u t → view engine u ≡ view engine t
  SameRows-view t u (events, payloads) =
      ap₂ (λ rows details. view engine (record t { events = rows; payloads = details })) events
        payloads

  saved-Extends :
      (events : List Dto.Event) (db : Db engine)
      → IsConsistent engine db.tables
      → Extends db.tables (save_events engine events db).1.tables
  saved-Extends events db h =
      let (result, returns, outcome) = save_events_atomic engine events db in
      elim outcome [
        | inl success ↦
            let stored = save_events_success engine events db result h returns success in
            (_, stored.rows)
        | inr same ↦
            let after = (save_events engine events db).1.tables in
            Extends-same db.tables after (SameRows-view db.tables after same)
      ]

  Unchanged-keeps :
      (t u : Tables engine) → u ≡ t → IsConsistent engine t → IsConsistent engine u × Extends t u
  Unchanged-keeps t u e h =
      (subst (IsConsistent engine) (sym e) h, Extends-same t u (ap (view engine) e))

  pub Call-keeps :
      {db end : Db engine}
      → Call db end
      → IsConsistent engine db.tables
      → IsConsistent engine end.tables × Extends db.tables end.tables
  unfolding get_events get_stats
  Call-keeps (saved events db) h =
      (save_events-IsConsistent engine events db h, saved-Extends events db h)
  Call-keeps (fetched filter db) h = Unchanged-keeps db.tables _ (read_events-Unchanged filter db) h
  Call-keeps (counted db) h = Unchanged-keeps db.tables _ (read_stats-Unchanged db) h
  Call-keeps (disturbed db faults) h = (h, Extends-same db.tables db.tables refl)

  -- Whatever calls are made of the repository, one after another, with whatever faults: consistent tables
  -- stay consistent, and no stored event is lost, changed or moved: new ones stand behind the old ones.
  Calls-keep :
      {start end : Db engine}
      → Calls start end
      → IsConsistent engine start.tables
      → IsConsistent engine end.tables × Extends start.tables end.tables
  Calls-keep {start} here h = (h, Extends-same start.tables start.tables refl)
  Calls-keep {start} {end} (next {db} reach step) h =
      let (kept, first) = Calls-keep reach h in
      let (keeps, second) = Call-keeps step kept in
      (keeps, Extends-trans start.tables db.tables end.tables first second)
