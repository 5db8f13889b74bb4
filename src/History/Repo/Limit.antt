-- ===== src/History/Repo/Limit.antt =====
-- How many events `GetEvents` of the repository and of the service bring, whatever the tables hold and
-- whatever the calls to the server do.
use two_services.Base.{
  ℕ, String, suc, ◌≤◌, ◌^◌, subst, leb, take, ◌≡◌, refl, inl, inr, Option, none, some, List, [],
  ◌∷◌, arith, length, length-take-le, length-map, drop, Bool-cases,
}
use two_services.Base.Exec.{Except, ok, throw, Exec, continue, bind}
use two_services.Grpc.{Status, status_ok}
use two_services.Shared.Dto
use two_services.Shared.Dto.{status_to_str}
use two_services.Proto
use two_services.Utils.Convert.{
  TimeUtil, on_value, to_proto_event, from_proto_filter, from_proto_event_filter,
}
use two_services.History.Postgres.{Engine, Tables}
use two_services.History.Postgres.Select.{
  Joined, selected, limit_of, offset_of, read_timestamp_param, limit_param, offset_param,
}
use two_services.History.Postgres.Select
use two_services.History.Repo.{
  Db, call, control, rolled_back, transaction, query_events, events_of_rows, event_of_row,
  fetch_body, read_events, get_events, caught, postgres_events_repo,
}
use two_services.History.UseCases.{use_cases, execute_get}
use two_services.History.Server
use two_services.History.Server.{events_response, found_response}

-- A list of at most `n` elements, where there is one.
abbrev pub AtMost {ℓ} : {A : Type ℓ} → ℕ → Except (List A) → Type 0
AtMost n (ok xs) = length xs ≤ n
AtMost n (throw what) = Unit {0}

module _ {A B : Type 0} (n : ℕ) where
  bind-AtMost :
      (r : Except A) (f : A → Except (List B))
      → ((a : A) → r ≡ ok a → AtMost n (f a))
      → AtMost n (bind r f)
  bind-AtMost (ok a) f h = h a refl
  bind-AtMost (throw what) f h = tt

  continue-AtMost :
      {S : Type 0} (r : Except A) (f : A → Exec S (List B)) (s : S)
      → ((a : A) → r ≡ ok a → AtMost n (f a s).0)
      → AtMost n (continue r f s).0
  continue-AtMost (ok a) f s h = h a refl
  continue-AtMost (throw what) f s h = tt

module _ (engine : Engine) where
  limit_param-eq-ok : (o limit : Option ℕ) → limit_param engine o ≡ ok limit → limit ≡ o
  limit_param-eq-ok none limit h = cc h
  limit_param-eq-ok (some n) limit h = elim (Bool-cases (leb (2 ^ 63) n)) [
    | inl e ↦ absurd (cc (rw e at h))
    | inr e ↦ let same : ok (some n) ≡ ok limit = rw e at h in cc same
  ]

  query_events-AtMost :
      (f : Dto.EventFilter) (t : Tables engine)
      → AtMost (limit_of f.limit) (query_events engine (some f) t)
  unfolding query_events Select.get_events
  query_events-AtMost f t =
      bind-AtMost (limit_of f.limit) (read_timestamp_param engine f.from) _ λ from hf.
        bind-AtMost (limit_of f.limit) (read_timestamp_param engine f.to) _ λ to ht.
          bind-AtMost (limit_of f.limit) (limit_param engine f.limit) _ λ limit hl.
            bind-AtMost (limit_of f.limit) (offset_param engine f.offset) _ λ offset ho.
              subst
                (λ (o : Option ℕ).
                  length (
                    take (limit_of limit) (
                      drop (offset_of offset) (
                        selected engine f.source_service from to (on_value status_to_str f.status)
                          t)))
                  ≤ limit_of o)
                (limit_param-eq-ok f.limit limit hl)
                (length-take-le (limit_of limit) (
                  drop (offset_of offset)
                    (selected engine f.source_service from to (on_value status_to_str f.status) t)))

  -- no more events than rows
  events_of_rows-AtMost :
      (rows : List (Joined engine)) → AtMost (length rows) (events_of_rows engine rows)
  unfolding events_of_rows
  events_of_rows-AtMost [] = omega arith
  events_of_rows-AtMost (row ∷ rows) =
      bind-AtMost (suc (length rows)) (event_of_row engine row) _ λ event he.
        bind-AtMost (suc (length rows)) (events_of_rows engine rows) _
          λ events h. more rows events h (events_of_rows-AtMost rows)
    where
      more :
          (rows : List (Joined engine)) (events : List Dto.Event)
          → events_of_rows engine rows ≡ ok events
          → AtMost (length rows) (events_of_rows engine rows)
          → suc (length events) ≤ suc (length rows)
      more rows events h few = let few' : length events ≤ length rows = rw h at few in omega arith

  call-eq-ok :
      {A : Type 0} (r : Tables engine → Except A) (t : Tables engine)
      (faults : List (Option String)) (a : A)
      → (call engine (λ t. (r t, t)) (record { tables = t; faults = faults })).0 ≡ ok a
      → r t ≡ ok a
  call-eq-ok r t [] a h = h
  call-eq-ok r t (none ∷ faults) a h = h
  call-eq-ok r t (some what ∷ faults) a h = cc h

  AtMost-rows :
      (f : Dto.EventFilter) (t : Tables engine) (faults : List (Option String))
      (rows : List (Joined engine)) (events : List Dto.Event)
      → (call engine
          (λ t. (query_events engine (some f) t, t))
          (record { tables = t; faults = faults })).0
        ≡ ok rows
      → events_of_rows engine rows ≡ ok events
      → length events ≤ limit_of f.limit
  AtMost-rows f t faults rows events hr he =
      let found = call-eq-ok (query_events engine (some f)) t faults rows hr in
      let few : length rows ≤ limit_of f.limit =
        subst (AtMost (limit_of f.limit)) found (query_events-AtMost f t) in
      let fewer : length events ≤ length rows =
        subst (AtMost (length rows)) he (events_of_rows-AtMost rows) in
      omega arith

  fetch_body-AtMost :
      (f : Dto.EventFilter) (db : Db engine)
      → AtMost (limit_of f.limit) (fetch_body engine (some f) db).0
  fetch_body-AtMost f db =
      let begun = control engine db in
      let found = call engine (λ t. (query_events engine (some f) t, t)) begun.1 in
      continue-AtMost (limit_of f.limit) begun.0 _ begun.1 λ _ _.
        continue-AtMost (limit_of f.limit) found.0 _ found.1 λ rows hr.
          continue-AtMost (limit_of f.limit) (events_of_rows engine rows) _ found.1 λ events he.
            continue-AtMost (limit_of f.limit) (control engine found.1).0 _
              (control engine found.1).1
              λ _ _. AtMost-rows f begun.1.tables begun.1.faults rows events hr he

  rolled_back-AtMost :
      (n : ℕ) (t : Tables engine) (r : Except (List Dto.Event)) (db : Db engine)
      → AtMost n r
      → AtMost n (rolled_back engine t r db).0
  rolled_back-AtMost n t (ok events) db h = h
  rolled_back-AtMost n t (throw what) db h = tt

  -- the events of a reply, by the result of the repository
  reply-length :
      (n : ℕ) (r : Except (List Dto.Event))
      → AtMost n r
      → length (events_response (caught engine r)).events ≤ n
  reply-length n (ok []) h = omega arith
  reply-length n (ok (e ∷ events)) h = omega (arith, length-map to_proto_event events, h)
  reply-length n (throw what) h = omega arith

  -- The reply of `GetEvents` to a request with a limit has no more events than the limit, and one without a
  -- limit at most 10 ^ 9, whatever the tables hold, and whatever the calls to the server do.
  pub get_events-limit :
      (time : TimeUtil) (request : Proto.GetEventsRequest time.Timestamp) (db : Db engine)
      (status : Status) (response : Proto.GetEventsResponse)
      → (Server.get_events (use_cases (postgres_events_repo engine)) time request db).0
        ≡ ok (status, response)
      → length response.events ≤ limit_of (Proto.filter_or_default request.event_filter).limit
  unfolding Server.get_events use_cases execute_get get_events read_events from_proto_event_filter
      from_proto_filter
  get_events-limit time request db status response h =
      let p = Proto.filter_or_default request.event_filter in
      let f = from_proto_filter time p in
      let few = rolled_back-AtMost (limit_of p.limit) db.tables _ _ (fetch_body-AtMost f db) in
      let same : (
        status_ok,
        events_response (caught engine (transaction engine (fetch_body engine (some f)) db).0),
      )
          ≡ (status, response) =
        cc h in
      subst (λ (q : Status × Proto.GetEventsResponse). length q.1.events ≤ limit_of p.limit) same
        (reply-length (limit_of p.limit) _ few)
