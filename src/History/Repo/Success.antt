-- ===== src/History/Repo/Success.antt =====
-- What a success of `SaveEvents` means, whatever calls broke on the way.
use two_services.Base.{
  ℕ, ◌+◌, ◌≡◌, refl, sym, ap, subst, ◌∙◌, inl, inr, String, true, Option, none, some, List, [], ◌∷◌,
  ◌++◌, arith, Option-cases,
}
use two_services.Base.Exec.{Except, ok, throw, >>=-eq-ok, Except-cases, ◌>>◌}
use two_services.Shared.Dto
use two_services.Shared.Dto.{status_to_str}
use two_services.History.Postgres.{
  Engine, Tables, read_inet_param, source_service_check, status_check, filter_decision_check,
  insert_event, insert_payload, insert_event_row, insert_payload_row,
}
use two_services.Shared.Result.{VoidResult}
use two_services.History.Repo.{
  Db, call, control, rolled_back, send_event, send_payload, save_one, save_all, insert_body,
  insert_all, caught_void, save_events,
}
use two_services.History.Repo.Invariant.{IsConsistent, Columns, columns, added, ip_column}
use two_services.History.Repo.Added.{added-IsConsistent, columns-IsGood}
use two_services.History.Repo.Save.{IsStored, IsStored-nil, IsStored-cons}

module _ (engine : Engine) where
  open engine use {Timestamptz, read_timestamp, Inet}

  call-eq-ok :
      {A : Type 0} (f : Tables engine → Except A × Tables engine) (t : Tables engine)
      (faults : List (Option String)) (a : A) (end : Db engine)
      → call engine f (record { tables = t; faults = faults }) ≡ (ok a, end)
      → f t ≡ (ok a, end.tables)
  call-eq-ok f t [] a end h = ap (λ q. (q.0, q.1.tables)) h
  call-eq-ok f t (none ∷ faults) a end h = ap (λ q. (q.0, q.1.tables)) h
  call-eq-ok f t (some what ∷ faults) a end h = absurd (cc (ap (λ q. q.0) h))

  ip_column_of_read :
      (o : Option String) (ip : Option Inet)
      → read_inet_param engine o ≡ ok ip
      → ip_column engine o ≡ some ip
  ip_column_of_read none ip h = cc
  ip_column_of_read (some s) ip h = ground arith

  insert_event-eq-ok :
      (source_service timestamp_utc status : String) (t : Tables engine) (id : ℕ)
      (end : Tables engine)
      → insert_event engine source_service timestamp_utc status t ≡ (ok id, end)
      → (time : Timestamptz) × (read_timestamp timestamp_utc ≡ some time)
        × (source_service_check source_service ≡ true)
        × (status_check status ≡ true)
        × (id ≡ t.next_id)
        × (end ≡ record t {
          events =
              t.events
              ++ record {
                id = t.next_id;
                source_service = source_service;
                timestamp_utc = time;
                status = status;
              }
                ∷ [];
          next_id = t.next_id + 1;
        })
  unfolding insert_event insert_event_row
  insert_event-eq-ok s ts st t id end h = elim (Option-cases (read_timestamp ts)) [
    | inl e ↦ absurd (ground arith)
    | inr (time, e) ↦ (time, e, ground arith, ground arith, ground arith, ground arith)
  ]

  insert_payload-eq-ok :
      (id : ℕ) (raw_line : String) (parsed_ip : Option String) (decision : String)
      (reason : Option String) (t end : Tables engine)
      → insert_payload engine id raw_line parsed_ip decision reason t ≡ (ok tt, end)
      → (ip : Option Inet) × (read_inet_param engine parsed_ip ≡ ok ip)
        × (filter_decision_check decision ≡ true)
        × (end ≡ record t {
          payloads =
              t.payloads
              ++ record {
                event_id = id;
                raw_line = raw_line;
                parsed_ip = ip;
                filter_decision = decision;
                reject_reason = reason;
              }
                ∷ [];
        })
  unfolding insert_payload insert_payload_row
  insert_payload-eq-ok id raw_line parsed_ip decision reason t end h =
      elim (Except-cases (read_inet_param engine parsed_ip)) [
        | inl (ip, e) ↦ (ip, e, ground arith, ground arith)
        | inr (what, e) ↦ absurd (ground arith)
      ]

  columns-admitted :
      (e : Dto.Event) (time : Timestamptz) (ip : Option Inet)
      → read_timestamp e.timestamp_utc ≡ some time
      → ip_column engine e.payload.parsed_ip ≡ some ip
      → source_service_check e.source_service ≡ true
      → status_check (status_to_str e.status) ≡ true
      → filter_decision_check e.payload.filter_decision ≡ true
      → columns engine e ≡ some (record { time = time; ip = ip })
  unfolding columns
  columns-admitted e time ip t i a b c = rw (t, i, a, b, c)

  pub save_one-eq-ok :
      (e : Dto.Event) (t : Tables engine) (faults : List (Option String)) (end : Db engine)
      → save_one engine e (record { tables = t; faults = faults }) ≡ (ok tt, end)
      → (c : Columns engine) × (columns engine e ≡ some c) × (end.tables ≡ added engine e c t)
  unfolding save_one
  save_one-eq-ok e t faults end h =
      let (id, middle, first, second) =
        >>=-eq-ok (send_event engine e) (send_payload engine e)
          (record { tables = t; faults = faults }) h in
      let (time, read, source, status, next, half) =
        insert_event-eq-ok e.source_service e.timestamp_utc (status_to_str e.status) t id
          middle.tables
          (call-eq-ok
            (insert_event engine e.source_service e.timestamp_utc (status_to_str e.status)) t faults
            id middle first) in
      let (ip, address, decision, full) =
        insert_payload-eq-ok id e.payload.raw_line e.payload.parsed_ip e.payload.filter_decision
          e.payload.reject_reason middle.tables end.tables
          (call-eq-ok
            (insert_payload engine id e.payload.raw_line e.payload.parsed_ip
              e.payload.filter_decision e.payload.reject_reason)
            middle.tables middle.faults tt end second) in
      (
        record { time = time; ip = ip },
        columns-admitted e time ip read (ip_column_of_read e.payload.parsed_ip ip address) source
            status decision,
        full ∙ cc (half, next),
      )

  pub save_all-eq-ok :
      (events : List Dto.Event) (t : Tables engine) (faults : List (Option String))
      (end : Db engine)
      → IsConsistent engine t
      → save_all engine events (record { tables = t; faults = faults }) ≡ (ok tt, end)
      → IsStored engine events t end.tables
  unfolding save_all
  save_all-eq-ok [] t faults end k h =
      subst (IsStored engine [] t) (ap (λ q. q.1.tables) h) (IsStored-nil engine t k)
  save_all-eq-ok (e ∷ es) t faults end k h =
      let (done, middle, first, rest) =
        >>=-eq-ok (save_one engine e) (λ _. save_all engine es)
          (record { tables = t; faults = faults }) h in
      let (c, admitted, tables) = save_one-eq-ok e t faults middle first in
      let consistent : IsConsistent engine (added engine e c t) =
        added-IsConsistent engine e c t k (columns-IsGood engine e c admitted t.next_id) in
      IsStored-cons engine e es c t end.tables k admitted (
        subst (λ u. IsStored engine es u end.tables) tables
          (save_all-eq-ok es middle.tables middle.faults end
            (subst (IsConsistent engine) (sym tables) consistent) rest))

  rolled_back-eq-ok :
      (t : Tables engine) (r : Except (Unit {0})) (db end : Db engine)
      → rolled_back engine t r db ≡ (ok tt, end)
      → (r ≡ ok tt) × (db ≡ end)
  rolled_back-eq-ok t (ok a) db end h = (refl, ap (λ q. q.1) h)
  rolled_back-eq-ok t (throw what) db end h = absurd (cc (ap (λ q. q.0) h))

  pub control-eq-ok :
      (db end : Db engine) → control engine db ≡ (ok tt, end) → db.tables ≡ end.tables
  control-eq-ok db end h = ap (λ q. q.1) (call-eq-ok (λ t. (ok tt, t)) db.tables db.faults tt end h)

  insert_body-eq-ok :
      (events : List Dto.Event) (db end : Db engine)
      → IsConsistent engine db.tables
      → insert_body engine events db ≡ (ok tt, end)
      → IsStored engine events db.tables end.tables
  insert_body-eq-ok events db end k h =
      let (begun, opened, begin_ok, rest) =
        >>=-eq-ok (control engine) (λ _. save_all engine events >> control engine) db h in
      let (saved, written, saved_ok, commit_ok) =
        >>=-eq-ok (save_all engine events) (λ _. control engine) opened rest in
      let same : db.tables ≡ opened.tables = control-eq-ok db opened begin_ok in
      subst (λ t. IsStored engine events t end.tables) (sym same)
        (subst (IsStored engine events opened.tables) (control-eq-ok written end commit_ok) (
          save_all-eq-ok events opened.tables opened.faults written
            (subst (IsConsistent engine) same k) saved_ok))

  caught_void-success :
      (r : Except (Unit {0})) (result : VoidResult)
      → ok (caught_void engine r) ≡ ok result
      → result.success ≡ true
      → r ≡ ok tt
  caught_void-success (ok a) result h success = refl
  caught_void-success (throw what) result h success = cc

  insert_all-eq-ok :
      (events : List Dto.Event) (db end : Db engine)
      → IsConsistent engine db.tables
      → insert_all engine events db ≡ (ok tt, end)
      → IsStored engine events db.tables end.tables
  unfolding insert_all
  insert_all-eq-ok events db end k h =
      let (body_ok, same) =
        rolled_back-eq-ok db.tables (insert_body engine events db).0
          (insert_body engine events db).1 end h in
      insert_body-eq-ok events db end k (λ i. (body_ok i, same i))

  -- On consistent tables, where `SaveEvents` reports success, every event was stored, in order,
  -- and nothing else; whatever the calls to the server did.
  pub save_events_success :
      (events : List Dto.Event) (db : Db engine) (result : VoidResult)
      → IsConsistent engine db.tables
      → (save_events engine events db).0 ≡ ok result
      → result.success ≡ true
      → IsStored engine events db.tables (save_events engine events db).1.tables
  unfolding save_events
  save_events_success [] db result k h success = IsStored-nil engine db.tables k
  save_events_success (e ∷ es) db result k h success =
      insert_all-eq-ok (e ∷ es) db (insert_all engine (e ∷ es) db).1 k (λ i. (
        caught_void-success (insert_all engine (e ∷ es) db).0 result h success i,
        (insert_all engine (e ∷ es) db).1,
      ))
