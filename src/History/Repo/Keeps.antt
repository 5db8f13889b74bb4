-- ===== src/History/Repo/Keeps.antt =====
-- `SaveEvents` and the consistency of the tables.
use native.Mathlib.Nat.{le_trans}
use two_services.Base.{
  ℕ, ◌≤◌, ◌<◌, ◌≡◌, refl, inl, inr, String, false, Option, none, some, List, [], ◌∷◌, arith,
  Option-cases, Bool-cases, All-mono,
}
use two_services.Base.Exec.{Except, ok, throw, Exec, ◌>>=◌, ◌>>◌, Except-cases}
use two_services.Shared.Dto
use two_services.Shared.Dto.{status_to_str}
use two_services.History.Postgres.{
  Engine, Tables, EventRow, PayloadRow, read_inet_param, insert_event, insert_payload,
  insert_event_row, insert_payload_row,
}
use two_services.History.Repo.{
  Db, call, control, rolled_back, send_event, send_payload, save_one, save_all, insert_body,
  insert_all, caught_void, save_events,
}
use two_services.History.Repo.Invariant.{IsConsistent}
use two_services.History.Repo.Success.{save_events_success}

module _ (engine : Engine) where
  -- The sequence does not go back.
  abbrev Grows : {A : Type 0} → Exec (Db engine) A → Type 0
  Grows m = (db : Db engine) → db.tables.next_id ≤ (m db).1.tables.next_id

  insert_event-Grows :
      (source_service timestamp_utc status : String) (t : Tables engine)
      → t.next_id ≤ (insert_event engine source_service timestamp_utc status t).1.next_id
  unfolding insert_event insert_event_row
  insert_event-Grows s ts st t = elim (Option-cases (engine.read_timestamp ts)) [
    | inl e ↦ rw (e, insert_event) (omega arith)
    | inr (time, e) ↦ rw (e, insert_event) (ground arith)
  ]

  insert_payload-Grows :
      (id : ℕ) (raw_line : String) (ip : Option String) (decision : String) (reason : Option String)
      (t : Tables engine)
      → t.next_id ≤ (insert_payload engine id raw_line ip decision reason t).1.next_id
  unfolding insert_payload insert_payload_row
  insert_payload-Grows id raw_line ip decision reason t =
      elim (Except-cases (read_inet_param engine ip)) [
        | inl (i, e) ↦ rw (e, insert_payload) (ground arith)
        | inr (what, e) ↦ rw (e, insert_payload) (omega arith)
      ]

  call-Grows :
      {A : Type 0} (f : Tables engine → Except A × Tables engine)
      → ((t : Tables engine) → t.next_id ≤ (f t).1.next_id)
      → (t : Tables engine) (faults : List (Option String))
      → t.next_id ≤ (call engine f (record { tables = t; faults = faults })).1.tables.next_id
  call-Grows f h t [] = h t
  call-Grows f h t (none ∷ faults) = h t
  call-Grows f h t (some what ∷ faults) = omega arith

  bind-Grows :
      {A B : Type 0} (m : Exec (Db engine) A) (f : A → Exec (Db engine) B)
      → Grows m
      → ((a : A) → Grows (f a))
      → Grows (m >>= f)
  bind-Grows m f hm hf db = elim (Except-cases (m db).0) [
    | inl (a, e) ↦ rw e (le_trans (hm db) (hf a (m db).1))
    | inr (what, e) ↦ rw e (hm db)
  ]

  send_event-Grows : (e : Dto.Event) → Grows (send_event engine e)
  send_event-Grows e s =
      call-Grows (insert_event engine e.source_service e.timestamp_utc (status_to_str e.status))
        (insert_event-Grows e.source_service e.timestamp_utc (status_to_str e.status)) s.tables
        s.faults

  send_payload-Grows : (e : Dto.Event) (id : ℕ) → Grows (send_payload engine e id)
  send_payload-Grows e id s =
      call-Grows
        (insert_payload engine id e.payload.raw_line e.payload.parsed_ip e.payload.filter_decision
          e.payload.reject_reason)
        (insert_payload-Grows id e.payload.raw_line e.payload.parsed_ip e.payload.filter_decision
          e.payload.reject_reason)
        s.tables s.faults

  save_all-Grows : (events : List Dto.Event) → Grows (save_all engine events)
  unfolding save_all save_one
  save_all-Grows [] db = omega arith
  save_all-Grows (e ∷ es) db =
      bind-Grows (save_one engine e) (λ _. save_all engine es)
        (bind-Grows (send_event engine e) (send_payload engine e) (send_event-Grows e)
          (send_payload-Grows e))
        (λ _. save_all-Grows es) db

  insert_body-Grows : (events : List Dto.Event) → Grows (insert_body engine events)
  insert_body-Grows events =
      bind-Grows (control engine) (λ _. save_all engine events >> control engine) control-Grows
        (λ _.
          bind-Grows (save_all engine events) (λ _. control engine) (save_all-Grows events)
            (λ _. control-Grows))
    where
      control-Grows : Grows (control engine)
      control-Grows db = call-Grows (λ t. (ok tt, t)) (λ t. omega arith) db.tables db.faults

  next_id-IsConsistent :
      (t : Tables engine) (n : ℕ)
      → t.next_id ≤ n
      → IsConsistent engine t
      → IsConsistent engine (record t { next_id = n })
  next_id-IsConsistent t n le h = record {
    fresh_events =
        All-mono (λ (row : EventRow engine). row.id < t.next_id) _ (λ row f. omega arith) t.events
          h.fresh_events;
    fresh_payloads =
        All-mono (λ (row : PayloadRow engine). row.event_id < t.next_id) _ (λ row f. omega arith)
          t.payloads h.fresh_payloads;
    good = h.good;
  }

  rolled_back-IsConsistent :
      (t : Tables engine) (r : Except (Unit {0})) (db : Db engine)
      → t.next_id ≤ db.tables.next_id
      → IsConsistent engine t
      → (caught_void engine (rolled_back engine t r db).0).success ≡ false
      → IsConsistent engine (rolled_back engine t r db).1.tables
  rolled_back-IsConsistent t (ok a) db le h failed = cc
  rolled_back-IsConsistent t (throw what) db le h failed =
      next_id-IsConsistent t db.tables.next_id le h

  -- Whatever `SaveEvents` is given and whatever the calls to the server do, consistent tables stay
  -- consistent: identifiers are not used twice, and every event has its payload.
  pub save_events-IsConsistent :
      (events : List Dto.Event) (db : Db engine)
      → IsConsistent engine db.tables
      → IsConsistent engine (save_events engine events db).1.tables
  unfolding save_events insert_all
  save_events-IsConsistent [] db h = h
  save_events-IsConsistent (e ∷ es) db h =
      elim (Bool-cases (caught_void engine (insert_all engine (e ∷ es) db).0).success) [
        | inl success ↦
            (save_events_success engine (e ∷ es) db
              (caught_void engine (insert_all engine (e ∷ es) db).0) h refl success).consistent
        | inr failed ↦
            rolled_back-IsConsistent db.tables (insert_body engine (e ∷ es) db).0
              (insert_body engine (e ∷ es) db).1 (insert_body-Grows (e ∷ es) db) h failed
      ]
