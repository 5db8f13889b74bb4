-- ===== src/History/Pooled/Ready.antt =====
-- `PostgresEventsRepo` as the use cases take it: over a pool with a connection to give, where no call waits.
use two_services.Base.{
  ℕ, suc, ◌+◌, ◌≡◌, refl, ap, ◌∙◌, Bool, true, String, Option, some, List, [], ◌∷◌, ◌++◌, length,
  All, All-append_one, subst, sym,
}
use two_services.Base.Exec.{Except, ok, Exec}
use two_services.Shared.Dto
use two_services.Shared.Result.{void_ok}
use two_services.History.Pool.{Driver, acquire, destroy, return_connection}
use two_services.History.Pool.Prepared.{return-open}
use two_services.History.Pool.Reach.{return_connection-length}
use two_services.History.Postgres.{Engine}
use two_services.History.Repo
use two_services.History.Repo.{
  Db, postgres_events_repo, insert_all, read_events, read_stats, caught_void, caught, caught_result,
}
use two_services.History.UseCases.{
  EventRepository, use_cases, execute_save, execute_get, execute_stats,
}
use two_services.History.Stream.{silent}
use two_services.History.Stream.Alike.{Same}
use two_services.History.Service.Alike.{Alike}
use two_services.History.Service.Durable.{postgres_use_cases}
use two_services.History.Pooled.{
  Held, Meanwhile, with_connection, caught_on, save_events, get_events, get_stats,
}
use two_services.History.Pooled.Calls.{Stays}

module _ (engine : Engine) (driver : Driver) (is_prepared : driver.Connection → Bool)
    (meanwhile : ℕ → Meanwhile engine driver is_prepared) where
  open driver use {Connection}

  -- The connections of the pool, the first that it gives and the others, the database, the number of calls
  -- before, and what was written to the standard output.
  pub record Ready : Type 0 where
    pub first : Connection
    pub others : List Connection
    pub db : Db engine
    pub calls : ℕ
    pub printed : List String

  abbrev pub held : Ready → Held engine driver is_prepared
  held s = record { connections = s.first ∷ s.others; db = s.db }

  abbrev pub write : String → Ready → Ready
  write text s = record s { printed = s.printed ++ text ∷ [] }

  -- A call returned, and the pool has a connection again.
  pub record Returned {A : Type 0} (outcome : Option (A × Held engine driver is_prepared))
      : Type 0 where
    pub value : A
    pub first : Connection
    pub others : List Connection
    pub db : Db engine
    pub same : outcome ≡ some (value, record { connections = first ∷ others; db = db })

  unfoldable pub uncons :
      (connections : List Connection) (n : ℕ)
      → length connections ≡ suc n
      → (first : Connection) × (others : List Connection) × (connections ≡ first ∷ others)
  uncons [] n h = absurd (cc h)
  uncons (conn ∷ connections) n h = (conn, connections, refl)

  unfoldable pub returned :
      {A : Type 0} (m : Meanwhile engine driver is_prepared)
      (body : Connection → Db engine → A × Db engine) (s : Ready)
      → Returned (with_connection engine driver is_prepared m body (held s))
  unfolding acquire destroy uncons
  returned m body s =
      let (a, db') = body s.first s.db in
      let (first, others, e) =
        uncons (return_connection driver m.again (some (m.used s.first)) s.others) (length s.others)
          (return_connection-length driver m.again (m.used s.first) s.others) in
      record {
        value = a;
        first = first;
        others = others;
        db = db';
        same = ap (λ l. some (a, record { connections = l; db = db' })) e;
      }

  unfoldable pub save_events_returned :
      (m : Meanwhile engine driver is_prepared) (events : List Dto.Event) (s : Ready)
      → Returned (save_events engine driver is_prepared m events (held s))
  unfolding save_events returned
  save_events_returned m [] s = record {
    value = _;
    first = s.first;
    others = s.others;
    db = s.db;
    same = refl;
  }
  save_events_returned m (event ∷ events) s =
      returned m
        (caught_on engine driver is_prepared (caught_void engine)
          (insert_all engine (event ∷ events)))
        s

  unfoldable pub get_events_returned :
      (m : Meanwhile engine driver is_prepared) (filter : Option Dto.EventFilter) (s : Ready)
      → Returned (get_events engine driver is_prepared m filter (held s))
  unfolding get_events returned
  get_events_returned m filter s =
      returned m (caught_on engine driver is_prepared (caught engine) (read_events engine filter)) s

  unfoldable pub get_stats_returned :
      (m : Meanwhile engine driver is_prepared) (s : Ready)
      → Returned (get_stats engine driver is_prepared m (held s))
  unfolding get_stats returned
  get_stats_returned m s =
      returned m (caught_on engine driver is_prepared (caught_result engine) (read_stats engine)) s

  -- what a call that returned leaves
  abbrev pub after :
      {A : Type 0} {outcome : Option (A × Held engine driver is_prepared)}
      → Ready
      → Returned outcome
      → Except A × Ready
  after s r =
      (ok r.value, record s { first = r.first; others = r.others; db = r.db; calls = s.calls + 1 })

  -- The object that main.cc makes over the pool: each method is that of the repository over the pool, with
  -- what becomes of the connection during that call.
  unfoldable pub pooled_events_repo : EventRepository Ready
  unfolding save_events_returned get_events_returned get_stats_returned
  pooled_events_repo = record {
    save_events = λ events s. after s (save_events_returned (meanwhile s.calls) events s);
    get_events = λ filter s. after s (get_events_returned (meanwhile s.calls) filter s);
    get_stats = λ s. after s (get_stats_returned (meanwhile s.calls) s);
  }

  module _
      (stays : (k : ℕ)
        → Stays engine driver is_prepared (λ conn. is_prepared conn ≡ true) (meanwhile k)) where
    -- The pool is prepared, and the database is that of the other.
    pub record Serves (db : Db engine) (s : Ready) : Type 0 where
      pub same : s.db ≡ db
      pub prepared : All (λ conn. is_prepared conn ≡ true) (s.first ∷ s.others)

    Serves-eq :
        {A : Type 0} (a : A) (db : Db engine) (connections : List Connection) (s : Ready)
        (outcome : Option (A × Held engine driver is_prepared)) (r : Returned outcome)
        → All (λ conn. is_prepared conn ≡ true) connections
        → outcome ≡ some (a, record { connections = connections; db = db })
        → Same Serves (ok a, db) (after s r)
    Serves-eq {A} a db connections s outcome r h e =
        let found = sym r.same ∙ e in
        let value : r.value ≡ a = cc found in
        let database : r.db ≡ db = cc found in
        let pool : r.first ∷ r.others ≡ connections = cc found in
        (
          ap ok (sym value),
          record {
            same = database;
            prepared = subst (All (λ conn. is_prepared conn ≡ true)) (sym pool) h;
          },
        )

    with_connection-eq :
        {A B : Type 0} (catch : Except A → B) (m : Exec (Db engine) A) (db : Db engine) (s : Ready)
        → Serves db s
        → with_connection engine driver is_prepared
            (meanwhile s.calls)
            (caught_on engine driver is_prepared catch m)
            (held s)
          ≡ some (
            catch (m db).0,
            record {
              connections = s.others ++ (meanwhile s.calls).used s.first ∷ [];
              db = (m db).1;
            },
          )
    unfolding acquire destroy
    with_connection-eq catch m db s h =
        let m' = meanwhile s.calls in
        let (open_still, stays_prepared) = stays s.calls s.first h.prepared.0 in
        rw (h.prepared.0, return-open driver m'.again (m'.used s.first) s.others open_still, h.same)

    after-Serves :
        {A B : Type 0} (catch : Except A → B) (m : Exec (Db engine) A) (db : Db engine) (s : Ready)
        (r : Returned (
          with_connection engine driver is_prepared
            (meanwhile s.calls)
            (caught_on engine driver is_prepared catch m)
            (held s)))
        → Serves db s
        → Same Serves (ok (catch (m db).0), (m db).1) (after s r)
    after-Serves catch m db s r h =
        let (open_still, stays_prepared) = stays s.calls s.first h.prepared.0 in
        Serves-eq (catch (m db).0) (m db).1 _ s _ r
          (All-append_one (λ conn. is_prepared conn ≡ true) s.others _ h.prepared.1 stays_prepared)
          (with_connection-eq catch m db s h)

    save_events-Serves :
        (events : List Dto.Event) (db : Db engine) (s : Ready)
        → Serves db s
        → Same Serves (Repo.save_events engine events db) (pooled_events_repo.save_events events s)
    unfolding Repo.save_events save_events pooled_events_repo
    save_events-Serves [] db s h =
        Serves-eq void_ok db (s.first ∷ s.others) s _
          (save_events_returned (meanwhile s.calls) [] s) h.prepared
          (ap (λ d. some (void_ok, record { connections = s.first ∷ s.others; db = d })) h.same)
    save_events-Serves (event ∷ events) db s h =
        after-Serves (caught_void engine) (insert_all engine (event ∷ events)) db s
          (save_events_returned (meanwhile s.calls) (event ∷ events) s) h

    -- The use cases over the pool answer like those over the repository without one.
    pub pooled_events_repo-Alike :
        Alike (postgres_use_cases engine) silent (use_cases pooled_events_repo) write Serves
    unfolding use_cases execute_save execute_get execute_stats Repo.get_events Repo.get_stats
        get_events get_stats pooled_events_repo
    pooled_events_repo-Alike = record {
      saves = record {
        said = λ text db s h. record { same = h.same; prepared = h.prepared };
        saved = save_events-Serves;
      };
      fetched = λ filter db s h.
          after-Serves (caught engine) (read_events engine filter) db s
            (get_events_returned (meanwhile s.calls) filter s) h;
      counted = λ db s h.
          after-Serves (caught_result engine) (read_stats engine) db s
            (get_stats_returned (meanwhile s.calls) s) h;
    }
