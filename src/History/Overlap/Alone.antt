-- ===== src/History/Overlap/Alone.antt =====
-- `SaveEvents` as PostgresEventsRepo runs it is one way through the steps of Overlap.
use mathlib.Core.List.{append_assoc, append-nil}
use two_services.Base.{
  ℕ, ◌+◌, ◌≡◌, refl, sym, ap, ap₂, subst, ◌∙◌, inl, inr, String, true, Option, some, List, [], ◌∷◌,
  ◌++◌, if◌then◌else◌,
}
use two_services.Base.Exec.{Except, ok, throw, continue, Except-cases}
use two_services.Shared.Dto
use two_services.Shared.Result.{VoidResult}
use two_services.History.Postgres.{Engine, Tables}
use two_services.History.Repo.{
  Db, control, save_one, save_all, insert_all, rolled_back, save_events, caught_void,
}
use two_services.History.Repo.Invariant.{Columns, added}
use two_services.History.Repo.Success.{save_one-eq-ok}
use two_services.History.Repo.Steps.{control-Unchanged}
use two_services.History.Overlap.{
  Txn, Shared, Outcome, saved, refused, visible, own_of, started, advance, begins, inserts, throws,
  breaks, commits, Steps, here, next, quiet,
}
use two_services.History.Overlap.Rows.{own_of-added}

module _ (engine : Engine) where
  visible-own_of :
      (e : Dto.Event) (t own u : Tables engine)
      → ((c : Columns engine) × (u ≡ added engine e c (visible engine t own)))
      → visible engine (advance engine u.next_id t) (own_of engine t u) ≡ u
  visible-own_of e t own u (c, h) =
      ap₂ (λ (n : ℕ) o. visible engine (advance engine n t) o) (ap (λ v. v.next_id) h)
        (own_of-added engine e c t own u h)
      ∙ ap₂
          (λ events payloads. record {
            events = events;
            payloads = payloads;
            next_id = t.next_id + 1;
          })
          (sym (append_assoc t.events own.events _)) (sym (append_assoc t.payloads own.payloads _))
      ∙ sym h

  module _ (t : Tables engine) where
    -- How the transaction on connection 0 stands once the loop has ended: all is inserted, or
    -- nothing is left of it.
    abbrev Ends : List Dto.Event → Except (Unit {0}) → Db engine → Type 0
    Ends events (ok a) end =
        (s : Shared engine) × (tx : Txn engine) × Steps engine (quiet engine t) s
        × (s.running 0 ≡ some tx)
        × (tx.events_left ≡ [])
        × (tx.events_done ≡ events)
        × (s.committed ≡ advance engine end.tables.next_id t)
        × (visible engine s.committed tx.own ≡ end.tables)
        × (s.outcomes ≡ [])
    Ends events (throw what) end =
        (s : Shared engine) × Steps engine (quiet engine t) s
        × (s.committed ≡ advance engine end.tables.next_id t)
        × (s.outcomes ≡ refused events ∷ [])

    save_all-Ends :
        (events : List Dto.Event) (s : Shared engine) (tx : Txn engine)
        (faults : List (Option String))
        → Steps engine (quiet engine t) s
        → s.running 0 ≡ some tx
        → tx.events_left ≡ events
        → s.committed ≡ advance engine s.committed.next_id t
        → s.outcomes ≡ []
        → let db : Db engine = record {
          tables = visible engine s.committed tx.own;
          faults = faults;
        } in
          Ends
            (tx.events_done ++ events)
            (save_all engine events db).0
            (save_all engine events db).1
    unfolding save_all
    save_all-Ends [] s tx faults steps runs left same no_outcome =
        (s, tx, steps, runs, left, sym (append-nil tx.events_done), same, refl, no_outcome)
    save_all-Ends (e ∷ es) s tx faults steps runs left same no_outcome =
        let db : Db engine = record {
          tables = visible engine s.committed tx.own;
          faults = faults;
        } in
        let end = (save_one engine e db).1 in
        elim (Except-cases (save_one engine e db).0) [
          | inl (_, good) ↦
              let one : save_one engine e db ≡ (ok tt, end) = λ i. (good i, end) in
              let (c, _, tables) =
                save_one-eq-ok engine e (visible engine s.committed tx.own) faults end one in
              let rest =
                save_all-Ends es _ _ end.faults
                  (next steps (inserts s 0 tx e es faults end runs left one)) refl refl
                  (ap (advance engine end.tables.next_id) same) no_outcome in
              rw good (
                subst
                  (λ (q : Tables engine × List Dto.Event).
                    let after : Db engine = record { tables = q.0; faults = end.faults } in
                    Ends q.1 (save_all engine es after).0 (save_all engine es after).1)
                  (λ i. (
                    visible-own_of e s.committed tx.own end.tables (c, tables) i,
                    append_assoc tx.events_done (e ∷ []) es i,
                  ))
                  rest)
          | inr (what, bad) ↦
              let one : save_one engine e db ≡ (throw what, end) = λ i. (bad i, end) in
              rw bad (
                _,
                next steps (throws s 0 tx e es faults what end runs left one),
                ap (advance engine end.tables.next_id) same,
                ap₂ (λ l m. l ++ refused (tx.events_done ++ m) ∷ []) no_outcome left,
              )
        ]

    -- what has come of a call with this result
    abbrev pub outcome_of : VoidResult → List Dto.Event → Outcome engine
    outcome_of result events = if result.success then saved events else refused events

    -- The call has ended with these tables.
    abbrev Over : List Dto.Event → Except (Unit {0}) → Db engine → Type 0
    Over events r end =
        (s : Shared engine) × Steps engine (quiet engine t) s
        × (s.committed ≡ end.tables)
        × (s.outcomes ≡ outcome_of (caught_void engine r) events ∷ [])

    committed-Over :
        (events : List Dto.Event) (r : Except (Unit {0})) (end : Db engine)
        → Ends events r end
        → let q = continue r (λ _. control engine) end in
          Over events (rolled_back engine t q.0 q.1).0 (rolled_back engine t q.0 q.1).1
    committed-Over events (throw what) end (s, steps, same, outcomes) = (s, steps, same, outcomes)
    committed-Over events (ok a) end (s, tx, steps, runs, left, done, same, whole, no_outcome) =
        elim (Except-cases (control engine end).0) [
          | inl (_, good) ↦ rw good (
            _,
            next steps (commits s 0 tx true runs left),
            whole ∙ sym (control-Unchanged engine end),
            ap₂ (λ l m. l ++ saved m ∷ []) no_outcome done,
          )
          | inr (what, bad) ↦ rw bad (
            _,
            next steps (breaks s 0 tx runs),
            same
                ∙ ap (λ (u : Tables engine). advance engine u.next_id t)
                    (sym (control-Unchanged engine end)),
            ap₂ (λ l m. l ++ refused m ∷ []) no_outcome (ap₂ (◌++◌) done left ∙ append-nil events),
          )
        ]

  -- A call of `SaveEvents` with events, by itself, and with whatever faults, goes through some of these steps:
  -- they leave the tables that the call leaves, and the outcome is its result.
  pub save_events-Steps :
      (event : Dto.Event) (events : List Dto.Event) (db : Db engine)
      → (result : VoidResult) × (s : Shared engine) × ((save_events engine (event ∷ events) db).0
          ≡ ok result)
        × Steps engine (quiet engine db.tables) s
        × (s.committed ≡ (save_events engine (event ∷ events) db).1.tables)
        × (s.outcomes ≡ outcome_of db.tables result (event ∷ events) ∷ [])
  unfolding save_events insert_all
  save_events-Steps event events db =
      let all = event ∷ events in
      let t = db.tables in
      let begun = (control engine db).1 in
      let first = begins (quiet engine t) 0 event events refl in
      let begin : Steps engine (quiet engine t) _ = next here first in
      elim (Except-cases (control engine db).0) [
        | inl (_, good) ↦
            let whole : visible engine t (started engine all).own ≡ begun.tables =
              ap₂ (λ rows details. record t { events = rows; payloads = details })
                (append-nil t.events) (append-nil t.payloads)
              ∙ sym (control-Unchanged engine db) in
            let (s, steps, same, outcome) = committed-Over t all _ _ (
              subst
                (λ u.
                  let after : Db engine = record { tables = u; faults = begun.faults } in
                  Ends t all (save_all engine all after).0 (save_all engine all after).1)
                whole (save_all-Ends t all _ _ begun.faults begin refl refl refl refl)) in
            rw good (_, s, refl, steps, same, outcome)
        | inr (what, bad) ↦ rw bad (
          _,
          _,
          refl,
          next begin (breaks _ 0 _ refl),
          ap (λ (u : Tables engine). advance engine u.next_id t)
              (sym (control-Unchanged engine db)),
          refl,
        )
      ]
