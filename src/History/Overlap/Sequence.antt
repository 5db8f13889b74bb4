-- ===== src/History/Overlap/Sequence.antt =====
-- The loop body of `SaveEvents` does not move the sequence of the identifiers back.
use two_services.Base.{
  ℕ, ◌≤◌, ◌≡◌, ap, inl, inr, String, Option, none, some, List, [], ◌∷◌, arith, Option-cases,
}
use two_services.Base.Exec.{Except, Except-cases}
use two_services.Shared.Dto
use two_services.Shared.Dto.{status_to_str}
use two_services.History.Postgres.{
  Engine, Tables, insert_event, insert_event_row, insert_payload, insert_payload_row,
  read_inet_param,
}
use two_services.History.Repo.{Db, save_one, call, send_event, send_payload}

module _ (engine : Engine) where
  -- a statement does not move the sequence back
  insert_event_row-le :
      (source : String) (time : engine.Timestamptz) (status : String) (t : Tables engine)
      → t.next_id ≤ (insert_event_row engine source time status t).1.next_id
  unfolding insert_event_row
  insert_event_row-le source time status t = ground arith

  insert_event-le :
      (source timestamp status : String) (t : Tables engine)
      → t.next_id ≤ (insert_event engine source timestamp status t).1.next_id
  unfolding insert_event
  insert_event-le source timestamp status t =
      elim (Option-cases (engine.read_timestamp timestamp)) [
        | inl e ↦ rw (e, insert_event) (omega arith)
        | inr (time, e) ↦ rw (e, insert_event) (insert_event_row-le source time status t)
      ]

  insert_payload-le :
      (id : ℕ) (line : String) (ip : Option String) (decision : String) (reason : Option String)
      (t : Tables engine)
      → t.next_id ≤ (insert_payload engine id line ip decision reason t).1.next_id
  unfolding insert_payload insert_payload_row
  insert_payload-le id line ip decision reason t = elim (Except-cases (read_inet_param engine ip)) [
    | inl (a, e) ↦ rw (e, insert_payload) (ground arith)
    | inr (what, e) ↦ rw (e, insert_payload) (omega arith)
  ]

  call-le :
      {A : Type 0} (f : Tables engine → Except A × Tables engine)
      → ((t : Tables engine) → t.next_id ≤ (f t).1.next_id)
      → (t : Tables engine) (faults : List (Option String))
      → t.next_id ≤ (call engine f (record { tables = t; faults = faults })).1.tables.next_id
  call-le f h t [] = h t
  call-le f h t (none ∷ faults) = h t
  call-le f h t (some what ∷ faults) = omega arith

  pub save_one-le :
      (event : Dto.Event) (t : Tables engine) (faults : List (Option String))
      (r : Except (Unit {0})) (end : Db engine)
      → save_one engine event (record { tables = t; faults = faults }) ≡ (r, end)
      → t.next_id ≤ end.tables.next_id
  unfolding save_one
  save_one-le event t faults r end h =
      let db : Db engine = record { tables = t; faults = faults } in
      let sent = send_event engine event db in
      let first : t.next_id ≤ sent.1.tables.next_id =
        call-le
          (insert_event engine event.source_service event.timestamp_utc
            (status_to_str event.status))
          (insert_event-le event.source_service event.timestamp_utc (status_to_str event.status)) t
          faults in
      let moved : (save_one engine event db).1.tables.next_id ≡ end.tables.next_id =
        ap (λ q. q.1.tables.next_id) h in
      elim (Except-cases sent.0) [
        | inl (id, e) ↦
            let second : sent.1.tables.next_id
                ≤ (send_payload engine event id sent.1).1.tables.next_id =
              call-le
                (insert_payload engine id event.payload.raw_line event.payload.parsed_ip
                  event.payload.filter_decision event.payload.reject_reason)
                (insert_payload-le id event.payload.raw_line event.payload.parsed_ip
                  event.payload.filter_decision event.payload.reject_reason)
                sent.1.tables sent.1.faults in
            let ends = rw e at moved in omega arith
        | inr (what, e) ↦ let ends = rw e at moved in omega arith
      ]
