-- ===== src/History/Pooled/Reopened.antt =====
-- A connection that `ReturnConnection` opens again is not prepared again: what the pool does while
-- its connections stay, and when they were lost.
use mathlib.Core.List.{append_assoc, append-nil}
use two_services.Base.{
  ℕ, suc, ◌≡◌, refl, sym, ap, subst, ◌∙◌, inl, inr, String, Bool, true, false, Option, none, some,
  List, [], ◌∷◌, ◌++◌, length, length-append, arith, ◌+◌, All, All-append_one,
}
use two_services.Base.Exec.{Except, ok, throw}
use two_services.Shared.Dto
use two_services.Shared.Result.{VoidResult}
use two_services.History.Pool.{Driver, acquire, destroy, return_connection}
use two_services.History.Postgres.{Engine, Tables}
use two_services.History.Repo.{Db}
use two_services.History.Service.Interleaved.{Action, saves, fetches, counts, disturbs}
use two_services.History.Service.Interleaved
use two_services.History.Pooled.{
  Held, Meanwhile, without_statement, save_events, get_events, get_stats, perform, perform_all,
}
use two_services.History.Pooled.Calls.{Stays, actions, Worked, perform_all-All, and_then-some}

module _ (engine : Engine) (driver : Driver) (is_prepared : driver.Connection → Bool) where
  open driver use {Connection, is_open}

  -- Over a pool of prepared connections, none of which is lost or forgets its statements, any calls of the
  -- repository return, and do to the database what the repository does without a pool.
  pub perform_all-prepared :
      (calls : List (Action engine × Meanwhile engine driver is_prepared))
      (connections : List Connection) (db : Db engine) (n : ℕ)
      → length connections ≡ suc n
      → All (λ conn. is_prepared conn ≡ true) connections
      → All (λ call. Stays engine driver is_prepared (λ conn. is_prepared conn ≡ true) call.1) calls
      → (t : Held engine driver is_prepared) × (perform_all engine driver is_prepared calls
            (record { connections = connections; db = db })
          ≡ some t)
        × (length t.connections ≡ suc n)
        × All (λ conn. is_prepared conn ≡ true) t.connections
        × (t.db ≡ Interleaved.perform_all engine (actions engine driver is_prepared calls) db)
  perform_all-prepared =
      perform_all-All engine driver is_prepared (λ conn. is_prepared conn ≡ true)
        (λ rest db end. end ≡ Interleaved.perform_all engine rest db) (λ db. refl) more
    where
      more :
          (action : Action engine) (rest : List (Action engine)) (conn : Connection)
          (db next end : Db engine)
          → is_prepared conn ≡ true
          → Worked engine driver is_prepared conn db (Interleaved.perform engine action db) next
          → end ≡ Interleaved.perform_all engine rest next
          → end ≡ Interleaved.perform_all engine (action ∷ rest) db
      more action rest conn db next end h (inl (_, e)) does =
          does ∙ ap (Interleaved.perform_all engine rest) e
      more action rest conn db next end h (inr (f, _)) does = absurd (cc (h, f))

  -- A connection as `make_unique<pqxx::connection>` gives it.
  abbrev pub Fresh : Connection → Type 0
  Fresh conn = (is_open conn ≡ true) × (is_prepared conn ≡ false)

  unprepared-Unchanged :
      (calls : List (Action engine × Meanwhile engine driver is_prepared))
      (connections : List Connection) (db : Db engine) (n : ℕ)
      → length connections ≡ suc n
      → All Fresh connections
      → All (λ call. Stays engine driver is_prepared Fresh call.1) calls
      → (t : Held engine driver is_prepared) × (perform_all engine driver is_prepared calls
            (record { connections = connections; db = db })
          ≡ some t)
        × (length t.connections ≡ suc n)
        × All Fresh t.connections
        × (t.db.tables ≡ db.tables)
  unprepared-Unchanged =
      perform_all-All engine driver is_prepared Fresh (λ rest db end. end.tables ≡ db.tables)
        (λ db. refl) more
    where
      more :
          (action : Action engine) (rest : List (Action engine)) (conn : Connection)
          (db next end : Db engine)
          → Fresh conn
          → Worked engine driver is_prepared conn db (Interleaved.perform engine action db) next
          → end.tables ≡ next.tables
          → end.tables ≡ db.tables
      more action rest conn db next end h (inl (e, _)) same = absurd (cc (h.1, e))
      more action rest conn db next end h (inr (_, e)) same = same ∙ e

  without_statement-throws :
      (A : Type 0) (t : Tables engine) (faults : List (Option String))
      → (what : String) × ((without_statement engine driver is_prepared {A = A}
            (record { tables = t; faults = faults })).0
          ≡ throw what)
  without_statement-throws A t [] = (_, refl)
  without_statement-throws A t (some what ∷ faults) = (_, refl)
  without_statement-throws A t (none ∷ []) = (_, refl)
  without_statement-throws A t (none ∷ none ∷ faults) = (_, refl)
  without_statement-throws A t (none ∷ some what ∷ faults) = (_, refl)

  -- `SaveEvents` returned, and its result is no success.
  abbrev pub Refused :
      Meanwhile engine driver is_prepared → List Dto.Event → Held engine driver is_prepared → Type 0
  Refused m events s =
      (result : VoidResult) × (t : Held engine driver is_prepared) × (save_events engine driver
          is_prepared m events s
        ≡ some (result, t))
      × (result.success ≡ false)

  save_events-Refused :
      (m : Meanwhile engine driver is_prepared) (event : Dto.Event) (events : List Dto.Event)
      (connections : List Connection) (db : Db engine) (n : ℕ)
      → length connections ≡ suc n
      → All Fresh connections
      → Refused m (event ∷ events) (record { connections = connections; db = db })
  unfolding save_events acquire
  save_events-Refused m event events [] db n h all = absurd (cc h)
  save_events-Refused m event events (conn ∷ rest) db n h all =
      let (what, throws) = without_statement-throws (Unit {0}) db.tables db.faults in
      (_, _, refl, rw (all.0.1, throws) refl)

  -- A call that takes a connection.
  pub data Takes : Action engine → Type 0 where
    saves_some : (event : Dto.Event) (events : List Dto.Event) → Takes (saves (event ∷ events))
    fetches_any : (filter : Option Dto.EventFilter) → Takes (fetches filter)
    counts_all : Takes counts

  -- The connection of a call is closed meanwhile, and another is opened in its place.
  pub record Loses (call : Action engine × Meanwhile engine driver is_prepared) : Type 0 where
    pub takes : Takes call.0
    pub new_conn : Connection
    pub closed : (conn : Connection) → is_open (call.1.used conn) ≡ false
    pub opened : call.1.again ≡ ok new_conn
    pub fresh : Fresh new_conn

  Takes-returns :
      (action : Action engine) (m : Meanwhile engine driver is_prepared) (conn : Connection)
      (rest : List Connection) (db : Db engine)
      → Takes action
      → (t : Held engine driver is_prepared) × (perform engine driver is_prepared action m
            (record { connections = conn ∷ rest; db = db })
          ≡ some t)
        × (t.connections ≡ return_connection driver m.again (some (m.used conn)) rest)
  unfolding save_events get_events get_stats acquire destroy
  Takes-returns _ m conn rest db (saves_some event events) = (_, refl, refl)
  Takes-returns _ m conn rest db (fetches_any filter) = (_, refl, refl)
  Takes-returns _ m conn rest db counts_all = (_, refl, refl)

  return_connection-closed :
      (attempt : Except Connection) (conn new_conn : Connection) (rest : List Connection)
      → is_open conn ≡ false
      → attempt ≡ ok new_conn
      → return_connection driver attempt (some conn) rest ≡ rest ++ new_conn ∷ []
  unfolding return_connection
  return_connection-closed attempt conn new_conn rest e opened = rw (e, opened) refl

  losses-Fresh :
      (losses : List (Action engine × Meanwhile engine driver is_prepared))
      (old new : List Connection) (db : Db engine)
      → length old ≡ length losses
      → All Loses losses
      → All Fresh new
      → (t : Held engine driver is_prepared) × (perform_all engine driver is_prepared losses
            (record { connections = old ++ new; db = db })
          ≡ some t)
        × (length t.connections ≡ length losses + length new)
        × All Fresh t.connections
  losses-Fresh [] [] new db h all fresh = (_, refl, omega arith, fresh)
  losses-Fresh [] (conn ∷ old) new db h all fresh = absurd (cc h)
  losses-Fresh (call ∷ losses) [] new db h all fresh = absurd (cc h)
  losses-Fresh ((action, m) ∷ losses) (conn ∷ old) new db h (loses, all) fresh =
      let (s, returned, came_back) = Takes-returns action m conn (old ++ new) db loses.takes in
      let queue : s.connections ≡ old ++ (new ++ loses.new_conn ∷ []) =
        came_back
        ∙ return_connection-closed m.again (m.used conn) loses.new_conn (old ++ new)
            (loses.closed conn) loses.opened
        ∙ append_assoc old new (loses.new_conn ∷ []) in
      let (t, returns, size, all_fresh) =
        losses-Fresh losses old (new ++ loses.new_conn ∷ []) s.db (omega (arith, h)) all
          (All-append_one Fresh new loses.new_conn fresh loses.fresh) in
      (
        t,
        and_then-some engine driver is_prepared action m losses
            (record { connections = conn ∷ (old ++ new); db = db }) s t returned
            (ap
                (λ l.
                  perform_all engine driver is_prepared losses
                    (record { connections = l; db = s.db }))
                queue
              ∙ returns),
        omega (arith, size, length-append new (loses.new_conn ∷ [])),
        all_fresh,
      )

  -- When the calls of the repository have lost each connection of the pool once, and another,
  -- without the prepared statements, was opened in its place, then whatever calls follow, while the
  -- new connections stay, return and leave the tables as they are, and every saving of events is
  -- refused.
  pub perform_all-reopened :
      (losses later : List (Action engine × Meanwhile engine driver is_prepared))
      (connections : List Connection) (db : Db engine) (n : ℕ)
      (m : Meanwhile engine driver is_prepared) (event : Dto.Event) (events : List Dto.Event)
      → length connections ≡ suc n
      → length losses ≡ suc n
      → All Loses losses
      → All (λ call. Stays engine driver is_prepared Fresh call.1) later
      → (t : Held engine driver is_prepared) × (u : Held engine driver is_prepared) × (perform_all
            engine driver is_prepared losses
            (record { connections = connections; db = db })
          ≡ some t)
        × (perform_all engine driver is_prepared later t ≡ some u)
        × (u.db.tables ≡ t.db.tables)
        × Refused m (event ∷ events) u
  perform_all-reopened losses later connections db n m event events h size lost stays =
      let (t, returns, t_size, fresh) =
        losses-Fresh losses connections [] db (h ∙ sym size) lost tt in
      let (u, returns_later, u_size, still_fresh, same) =
        unprepared-Unchanged later t.connections t.db n (omega (arith, t_size, size)) fresh stays in
      (
        t,
        u,
        subst
            (λ l.
              perform_all engine driver is_prepared losses (record { connections = l; db = db })
              ≡ some t)
            (append-nil connections) returns,
        returns_later,
        same,
        save_events-Refused m event events u.connections u.db n u_size still_fresh,
      )
