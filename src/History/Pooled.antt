-- ===== src/History/Pooled.antt =====
-- `PostgresEventsRepo` with the connections that its methods take from the pool and give back. A
-- connection that was not prepared, or was opened again since, knows none of the prepared statements.
pub mod Calls
pub mod Reopened
pub mod Created
pub mod Ready
mod Tests
use two_services.Base.{Bool, true, Option, none, some, List, [], ◌∷◌, if◌then◌else◌}
use two_services.Base.Exec.{Except, throw, Exec, ◌>>=◌, ◌>>◌}
use two_services.Shared.Dto
use two_services.Shared.Result.{Result, VoidResult, void_ok}
use two_services.History.Pool.{Driver, Handle, acquire, destroy}
use two_services.History.Postgres.{Engine, undefined_statement}
use two_services.History.Repo.{
  Db, call, control, transaction, insert_all, read_events, read_stats, caught_void, caught,
  caught_result,
}
use two_services.History.Service.Interleaved.{Action, saves, fetches, counts, disturbs}

module _ (engine : Engine) (driver : Driver) (is_prepared : driver.Connection → Bool) where
  open driver use {Connection}

  -- The connections that wait in the pool, and the database behind them.
  pub record Held : Type 0 where
    pub connections : List Connection
    pub db : Db engine

  -- What becomes of the connection during a call, and what opening it again would do.
  pub record Meanwhile : Type 0 where
    pub used : Connection → Connection
    pub again : Except Connection

  -- a transaction whose first `exec` finds no prepared statement
  abbrev pub without_statement : {A : Type 0} → Exec (Db engine) A
  without_statement =
      transaction engine
        (do control engine; call engine (λ t. (throw (engine.what undefined_statement), t)))

  abbrev pub on_connection : {A : Type 0} → Exec (Db engine) A → Connection → Exec (Db engine) A
  on_connection m conn db = if is_prepared conn then m db else without_statement db

  -- the body of a method, with what it makes of the transaction's outcome
  abbrev pub caught_on :
      {A B : Type 0} → (Except A → B) → Exec (Db engine) A → Connection → Db engine → B × Db engine
  caught_on catch m conn db = let (r, db') = on_connection m conn db in (catch r, db')

  -- what stands behind `pool_->Acquire()`, up to the destructor of the handle; none where it waits
  abbrev pub with_acquired :
      {A : Type 0}
      → Meanwhile
      → (Connection → Db engine → A × Db engine)
      → Option (Connection × List Connection)
      → Db engine
      → Option (A × Held)
  with_acquired m body none db = none
  with_acquired m body (some (conn, rest)) db =
      let (a, db') = body conn db in
      let handle : Handle driver = record { has_pool = true; conn = some (m.used conn) } in
      some (a, record { connections = destroy driver m.again handle rest; db = db' })

  abbrev pub with_connection :
      {A : Type 0} → Meanwhile → (Connection → Db engine → A × Db engine) → Held → Option (A × Held)
  with_connection m body s = with_acquired m body (acquire driver s.connections) s.db

  -- PostgresEventsRepo::SaveEvents, which takes no connection where there is nothing to insert
  unfoldable pub save_events : Meanwhile → List Dto.Event → Held → Option (VoidResult × Held)
  unfolding insert_all acquire destroy
  save_events m [] s = some (void_ok, s)
  save_events m (event ∷ events) s =
      with_connection m (caught_on (caught_void engine) (insert_all engine (event ∷ events))) s

  -- PostgresEventsRepo::GetEvents
  unfoldable pub get_events :
      Meanwhile → Option Dto.EventFilter → Held → Option (Result (List Dto.Event) × Held)
  unfolding read_events acquire destroy
  get_events m filter = with_connection m (caught_on (caught engine) (read_events engine filter))

  -- PostgresEventsRepo::GetStats
  unfoldable pub get_stats : Meanwhile → Held → Option (Result Dto.Stats × Held)
  unfolding read_stats acquire destroy
  get_stats m = with_connection m (caught_on (caught_result engine) (read_stats engine))

  abbrev pub left : {A : Type 0} → Option (A × Held) → Option Held
  left none = none
  left (some (a, s)) = some s

  -- What is left behind by a call.
  abbrev pub perform : Action engine → Meanwhile → Held → Option Held
  perform (saves events) m s = left (save_events m events s)
  perform (fetches filter) m s = left (get_events m filter s)
  perform counts m s = left (get_stats m s)
  perform (disturbs faults) m s = some (record s { db = record s.db { faults = faults } })

  abbrev pub and_then : Option Held → (Held → Option Held) → Option Held
  and_then none f = none
  and_then (some s) f = f s

  -- calls one after another; none where one of them waits
  abbrev pub perform_all : List (Action engine × Meanwhile) → Held → Option Held
  perform_all [] s = some s
  perform_all ((action, m) ∷ calls) s = and_then (perform action m s) (perform_all calls)
