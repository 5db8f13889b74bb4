-- ===== src/History/Pool/Waiting.antt =====
-- The threads of the pool: those that wait on `cv_`, and the order of the lock, the push and the
-- notification in `Acquire` and `ReturnConnection` of pg_conn_pool.h.
use two_services.Base.{
  ℕ, suc, ◌+◌, ◌≤◌, ◌<◌, ◌≡◌, ◌⊎◌, inl, inr, String, none, some, List, ◌∷◌, ◌++◌, length, arith,
}
use two_services.Base.Exec.{Except, ok, throw}
use two_services.History.Pool.{Driver, acquire, acquire_within, return_connection}
use two_services.History.Pool.Reach.{
  State, Reachable, here, acquired, returned, changed, next, return_connection-length,
  acquire-length, acquire-length_none, acquire_within-ok, acquire_within-throw, Reachable-size,
}

module _ (driver : Driver) where
  open driver use {Connection}

  -- The pool with its handles, and how many threads are asleep in `wait` or `wait_for`, how many have
  -- woken up there and have not tested the queue again, and how many stand before `notify_one`.
  pub record Threads : Type 0 where
    pub pool : State driver
    pub asleep : ℕ
    pub awake : ℕ
    pub notifying : ℕ

  abbrev pub with_lent : Connection → List Connection → State driver → State driver
  with_lent conn rest pool = record { connections = rest; lent = conn ∷ pool.lent }

  -- A step of one thread, with the mutex held for all of it, or without the mutex.
  pub data Turn : Threads → Threads → Type 0 where
    -- `Acquire` finds a connection
    takes :
        (s : Threads) (conn : Connection) (rest : List Connection)
        → acquire driver s.pool.connections ≡ some (conn, rest)
        → Turn s (record s { pool = with_lent conn rest s.pool })
    -- `Acquire` finds none, and releases the mutex and sleeps at once
    sleeps :
        (s : Threads)
        → acquire driver s.pool.connections ≡ none
        → Turn s (record s { asleep = suc s.asleep })
    -- a thread that has woken up finds a connection
    wakes_and_takes :
        (s : Threads) (n : ℕ) (conn : Connection) (rest : List Connection)
        → s.awake ≡ suc n
        → acquire driver s.pool.connections ≡ some (conn, rest)
        → Turn s (record s { awake = n; pool = with_lent conn rest s.pool })
    -- it finds none, and sleeps again
    sleeps_again :
        (s : Threads) (n : ℕ)
        → s.awake ≡ suc n
        → acquire driver s.pool.connections ≡ none
        → Turn s (record s { awake = n; asleep = suc s.asleep })
    -- the time of a sleeping thread is over: `wait_for` tests the queue a last time
    late_and_takes :
        (s : Threads) (n : ℕ) (conn : Connection) (rest : List Connection)
        → s.asleep ≡ suc n
        → acquire_within driver s.pool.connections ≡ ok (conn, rest)
        → Turn s (record s { asleep = n; pool = with_lent conn rest s.pool })
    times_out :
        (s : Threads) (n : ℕ) (what : String)
        → s.asleep ≡ suc n
        → acquire_within driver s.pool.connections ≡ throw what
        → Turn s (record s { asleep = n })
    -- the time of a thread is over that has woken up
    gives_up :
        (s : Threads) (n : ℕ) (what : String)
        → s.awake ≡ suc n
        → acquire_within driver s.pool.connections ≡ throw what
        → Turn s (record s { awake = n })
    -- `wait` may return without a notification
    wakes_by_itself :
        (s : Threads) (n : ℕ)
        → s.asleep ≡ suc n
        → Turn s (record s { asleep = n; awake = suc s.awake })
    -- the part of `ReturnConnection` under the lock, after the connection was opened again if need be
    pushes :
        (s : Threads) (attempt : Except Connection) (conn : Connection)
        (before after : List Connection)
        → s.pool.lent ≡ before ++ conn ∷ after
        → Turn s (record s {
          pool = record {
            connections = return_connection driver attempt (some conn) s.pool.connections;
            lent = before ++ after;
          };
          notifying = suc s.notifying;
        })
    -- `notify_one` with a thread asleep, and with none
    notifies :
        (s : Threads) (n m : ℕ)
        → s.notifying ≡ suc n
        → s.asleep ≡ suc m
        → Turn s (record s { notifying = n; asleep = m; awake = suc s.awake })
    notifies_nobody :
        (s : Threads) (n : ℕ)
        → s.notifying ≡ suc n
        → s.asleep ≡ 0
        → Turn s (record s { notifying = n })
    -- the connection of a handle changes, as when the server closes it
    breaks :
        (s : Threads) (conn new_conn : Connection) (before after : List Connection)
        → s.pool.lent ≡ before ++ conn ∷ after
        → Turn s (record s { pool = record s.pool { lent = before ++ new_conn ∷ after } })

  pub data Turns (start : Threads) : Threads → Type 0 where
    begin : Turns start start
    turn : {s t : Threads} → Turns start s → Turn s t → Turns start t

  -- Where a thread sleeps, each connection in the queue has a thread under way that takes it or wakes
  -- another.
  abbrev pub IsCovered : Threads → Type 0
  IsCovered s = (s.asleep ≡ 0) ⊎ (length s.pool.connections ≤ s.awake + s.notifying)

  pushed-covers :
      (s : Threads) (attempt : Except Connection) (conn : Connection)
      → IsCovered s
      → (s.asleep ≡ 0)
        ⊎ (length (return_connection driver attempt (some conn) s.pool.connections)
            ≤ s.awake + suc s.notifying)
  pushed-covers s attempt conn (inl none_asleep) = inl none_asleep
  pushed-covers s attempt conn (inr covered) =
      inr (omega (arith, return_connection-length driver attempt conn s.pool.connections))

  -- no thread slept, or the queue had a connection more before one was taken
  taken-covers :
      (s : Threads) (asleep awake : ℕ) (conn : Connection) (rest : List Connection)
      → acquire driver s.pool.connections ≡ some (conn, rest)
      → asleep ≤ s.asleep
      → s.awake ≤ suc awake
      → IsCovered s
      → (asleep ≡ 0) ⊎ (length rest ≤ awake + s.notifying)
  taken-covers s asleep awake conn rest h fewer one_less (inl none_asleep) = inl (omega arith)
  taken-covers s asleep awake conn rest h fewer one_less (inr covered) =
      inr (omega (arith, acquire-length driver s.pool.connections conn rest h))

  -- nothing is left for a thread to take
  empty-covers :
      (connections : List Connection) (asleep awake notifying : ℕ)
      → length connections ≡ 0
      → (asleep ≡ 0) ⊎ (length connections ≤ awake + notifying)
  empty-covers connections asleep awake notifying h = inr (omega arith)

  Turn-IsCovered : {s t : Threads} → Turn s t → IsCovered s → IsCovered t
  Turn-IsCovered (takes s conn rest h) c =
      taken-covers s s.asleep s.awake conn rest h (omega arith) (omega arith) c
  Turn-IsCovered (sleeps s h) c =
      empty-covers s.pool.connections (suc s.asleep) s.awake s.notifying
        (acquire-length_none driver s.pool.connections h)
  Turn-IsCovered (wakes_and_takes s n conn rest e h) c =
      taken-covers s s.asleep n conn rest h (omega arith) (omega arith) c
  Turn-IsCovered (sleeps_again s n e h) c =
      empty-covers s.pool.connections (suc s.asleep) n s.notifying
        (acquire-length_none driver s.pool.connections h)
  Turn-IsCovered (late_and_takes s n conn rest e h) c =
      taken-covers s n s.awake conn rest (acquire_within-ok driver s.pool.connections conn rest h)
        (omega arith) (omega arith) c
  Turn-IsCovered (times_out s n what e h) c =
      empty-covers s.pool.connections n s.awake s.notifying
        (acquire_within-throw driver s.pool.connections what h)
  Turn-IsCovered (gives_up s n what e h) c =
      empty-covers s.pool.connections s.asleep n s.notifying
        (acquire_within-throw driver s.pool.connections what h)
  Turn-IsCovered (wakes_by_itself s n e) (inl none_asleep) = absurd (omega arith)
  Turn-IsCovered (wakes_by_itself s n e) (inr covered) = inr (omega arith)
  Turn-IsCovered (pushes s attempt conn before after h) c = pushed-covers s attempt conn c
  Turn-IsCovered (notifies s n m e f) (inl none_asleep) = absurd (omega arith)
  Turn-IsCovered (notifies s n m e f) (inr covered) = inr (omega arith)
  Turn-IsCovered (notifies_nobody s n e none_asleep) c = inl none_asleep
  Turn-IsCovered (breaks s conn new_conn before after h) c = c

  Turns-IsCovered : {start s : Threads} → Turns start s → IsCovered start → IsCovered s
  Turns-IsCovered begin c = c
  Turns-IsCovered (turn turns last) c = Turn-IsCovered last (Turns-IsCovered turns c)

  -- What the threads do to the pool are the steps of Pool/Reach.
  Turn-Reachable :
      {start : State driver} {s t : Threads}
      → Turn s t
      → Reachable driver start s.pool
      → Reachable driver start t.pool
  Turn-Reachable (takes s conn rest h) r = next r (acquired s.pool conn rest h)
  Turn-Reachable (sleeps s h) r = r
  Turn-Reachable (wakes_and_takes s n conn rest e h) r = next r (acquired s.pool conn rest h)
  Turn-Reachable (sleeps_again s n e h) r = r
  Turn-Reachable (late_and_takes s n conn rest e h) r =
      next r (acquired s.pool conn rest (acquire_within-ok driver s.pool.connections conn rest h))
  Turn-Reachable (times_out s n what e h) r = r
  Turn-Reachable (gives_up s n what e h) r = r
  Turn-Reachable (wakes_by_itself s n e) r = r
  Turn-Reachable (pushes s attempt conn before after h) r =
      next r (returned s.pool attempt conn before after h)
  Turn-Reachable (notifies s n m e f) r = r
  Turn-Reachable (notifies_nobody s n e none_asleep) r = r
  Turn-Reachable (breaks s conn new_conn before after h) r =
      next r (changed s.pool conn new_conn before after h)

  Turns-Reachable : {start s : Threads} → Turns start s → Reachable driver start.pool s.pool
  Turns-Reachable begin = here
  Turns-Reachable (turn turns last) = Turn-Reachable last (Turns-Reachable turns)

  -- No wakeup is lost: from a pool that no thread uses yet, and whatever the threads do in whatever
  -- order, while a thread sleeps in `Acquire` every connection of the pool is held by a handle, or has a
  -- thread of its own that is awake or about to notify. So where no thread is, the handles hold them
  -- all.
  pub Turns-no_lost_wakeup :
      {start s : Threads}
      → Turns start s
      → start.asleep ≡ 0
      → length start.pool.lent ≡ 0
      → 0 < s.asleep
      → length start.pool.connections ≤ length s.pool.lent + s.awake + s.notifying
  Turns-no_lost_wakeup turns none_asleep none_lent sleeping =
      elim (Turns-IsCovered turns (inl none_asleep)) [
        | inl nobody ↦ absurd (omega arith)
        | inr covered ↦ omega (arith, Reachable-size driver (Turns-Reachable turns))
      ]
