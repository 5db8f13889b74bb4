-- ===== src/History/Pool.antt =====
-- `ConnectionPool` and `CreatePreparedPool` of services/history/infrastructure/db/pg_conn_pool.h. The
-- mutex makes `Acquire` and `ReturnConnection` steps that do not interleave; what opening a connection
-- does is an argument of each call that may open one.
pub mod Reach
pub mod Prepared
pub mod Waiting
mod Tests
use two_services.Base.{
  ℕ, suc, zero, Bool, true, false, not, Option, none, some, List, [], ◌∷◌, ◌++◌, if◌then◌else◌,
}
use two_services.Base.Exec.{Except, ok, throw, bind}

-- pqxx::connection
pub record Driver : Type 1 where
  pub Connection : Type 0
  pub is_open : Connection → Bool

module _ (driver : Driver) where
  open driver use {Connection, is_open}

  -- the constructor: `attempts k` is what the `k`th opening does, and the first that throws ends it
  unfoldable pub open_connections : (ℕ → Except Connection) → ℕ → ℕ → Except (List Connection)
  open_connections attempts i zero = ok []
  open_connections attempts i (suc n) =
      bind (attempts i)
        λ conn. bind (open_connections attempts (suc i) n) λ conns. ok (conn ∷ conns)

  -- `Acquire`; none where it waits
  unfoldable pub acquire : List Connection → Option (Connection × List Connection)
  acquire [] = none
  acquire (conn ∷ connections) = some (conn, connections)

  -- `Acquire` with a timeout, at the end of the waiting
  unfoldable pub acquire_within : List Connection → Except (Connection × List Connection)
  acquire_within [] = throw "Timeout waiting for free connection"
  acquire_within (conn ∷ connections) = ok (conn, connections)

  -- `!conn || !conn->is_open()`
  abbrev pub is_lost : Option Connection → Bool
  is_lost none = true
  is_lost (some conn) = not (is_open conn)

  -- what `conn` points to after the attempt to open a new connection: an attempt that throws assigns
  -- nothing
  abbrev pub assigned : Except Connection → Option Connection → Option Connection
  assigned (ok new_conn) conn = some new_conn
  assigned (throw what) conn = conn

  abbrev pub push : Option Connection → List Connection → List Connection
  push none connections = connections
  push (some conn) connections = connections ++ conn ∷ []

  -- The push is taken to find the memory that it needs: the `catch (...)` around it is left out.
  unfoldable pub return_connection :
      Except Connection → Option Connection → List Connection → List Connection
  return_connection attempt conn connections =
      push (if is_lost conn then assigned attempt conn else conn) connections

  -- ConnectionHandle; `has_pool` is `pool_ != nullptr`
  pub record Handle : Type 0 where
    pub has_pool : Bool
    pub conn : Option Connection

  abbrev pub moved_from : Handle
  moved_from = record { has_pool = false; conn = none }

  abbrev pub return_if :
      Bool → Except Connection → Option Connection → List Connection → List Connection
  return_if false attempt conn connections = connections
  return_if true attempt none connections = connections
  return_if true attempt (some conn) connections = return_connection attempt (some conn) connections

  -- the destructor
  unfoldable pub destroy : Except Connection → Handle → List Connection → List Connection
  unfolding return_connection
  destroy attempt handle connections = return_if handle.has_pool attempt handle.conn connections

  -- the move constructor: the new handle, and what is left of the other
  unfoldable pub move_construct : Handle → Handle × Handle
  move_construct other = (other, moved_from)

  -- the move assignment between two handles: this one, the other, and the pool
  unfoldable pub move_assign :
      Except Connection → Handle → Handle → List Connection → Handle × Handle × List Connection
  unfolding return_connection
  move_assign attempt this other connections =
      (other, moved_from, return_if this.has_pool attempt this.conn connections)

  -- the loop of `CreatePreparedPool`; `prepare conn` is the connection after the preparer, which may
  -- have thrown, and none stands for waiting for ever
  unfoldable pub prepare_all :
      (Connection → Connection)
      → (ℕ → Except Connection)
      → ℕ
      → List Connection
      → Option (List Connection)
  unfolding destroy
  prepare_all prepare attempts zero connections = some connections
  prepare_all prepare attempts (suc n) [] = none
  prepare_all prepare attempts (suc n) (conn ∷ connections) =
      prepare_all prepare attempts n
        (destroy (attempts n) (record { has_pool = true; conn = some (prepare conn) }) connections)

  unfoldable pub create_prepared_pool :
      (Connection → Connection)
      → (ℕ → Except Connection)
      → (ℕ → Except Connection)
      → ℕ
      → Except (Option (List Connection))
  unfolding open_connections prepare_all
  create_prepared_pool prepare attempts again pool_size =
      bind (open_connections attempts 0 pool_size)
        λ connections. ok (prepare_all prepare again pool_size connections)
