-- ===== src/History/Pool/Tests.antt =====
-- A pool of two connections.
use two_services.Base.{ℕ, ◌≡◌, refl, Bool, true, false, some, [], ◌∷◌, length, ◌+◌, ◌≤◌, arith}
use two_services.Base.Exec.{Except, ok, throw}
use two_services.History.Pool.{Driver, acquire, return_connection}
use two_services.History.Pool.Reach.{
  State, Step, acquired, changed, returned, Reachable, here, next, size, Reachable-size,
}
use two_services.History.Pool.Waiting.{
  Threads, Turns, begin, turn, takes, sleeps, pushes, Turns-no_lost_wakeup,
}

pub record Conn : Type 0 where
  pub id : ℕ
  pub open_still : Bool
  pub prepared : Bool

abbrev driver : Driver
driver = record { Connection = Conn; is_open = λ c. c.open_still }

abbrev opened : ℕ → Except Conn
opened n = ok (record { id = n; open_still = true; prepared = false })

abbrev refused : ℕ → Except Conn
refused n = throw "connection refused"

abbrev prepare : Conn → Conn
prepare c = record { id = c.id; open_still = true; prepared = true }

abbrev conn : ℕ → Conn
conn n = record { id = n; open_still = true; prepared = false }

abbrev start : State driver
start = record { connections = conn 0 ∷ conn 1 ∷ []; lent = [] }

abbrev closed : Conn
closed = record { id = 0; open_still = false; prepared = true }

abbrev one_lent : State driver
one_lent = record { connections = conn 1 ∷ []; lent = conn 0 ∷ [] }

abbrev one_closed : State driver
one_closed = record { connections = conn 1 ∷ []; lent = closed ∷ [] }

-- the connection comes back closed, and opening another fails
abbrev closed_returned : State driver
closed_returned = record {
  connections = return_connection driver (refused 0) (some closed) (conn 1 ∷ []);
  lent = [];
}

first_acquired : Step driver start one_lent
unfolding acquire
first_acquired = acquired start (conn 0) (conn 1 ∷ []) refl

closed_reached : Reachable driver start closed_returned
closed_reached =
    next (next (next here first_acquired) (changed one_lent (conn 0) closed [] [] refl))
      (returned one_closed (refused 0) closed [] [] refl)

Reachable-size_example : size driver closed_returned ≡ size driver start
Reachable-size_example = Reachable-size driver closed_reached

abbrev both_lent : State driver
both_lent = record { connections = []; lent = conn 1 ∷ conn 0 ∷ [] }

-- three threads at the pool: two get a connection, the third sleeps, and the second gives its own back
abbrev threads : State driver → ℕ → ℕ → Threads driver
threads pool asleep notifying = record {
  pool = pool;
  asleep = asleep;
  awake = 0;
  notifying = notifying;
}

abbrev second_returned : State driver
second_returned = record {
  connections = return_connection driver (refused 0) (some (conn 1)) [];
  lent = conn 0 ∷ [];
}

third_sleeps : Turns driver (threads start 0 0) (threads both_lent 1 0)
unfolding acquire
third_sleeps =
    turn
      (turn (turn begin (takes (threads start 0 0) (conn 0) (conn 1 ∷ []) refl))
        (takes (threads one_lent 0 0) (conn 1) [] refl))
      (sleeps (threads both_lent 0 0) refl)

Turns-no_lost_wakeup_example : length start.connections ≤ length second_returned.lent + 0 + 1
Turns-no_lost_wakeup_example =
    Turns-no_lost_wakeup driver
      (turn third_sleeps
        (pushes (threads both_lent 1 0) (refused 0) (conn 1) [] (conn 0 ∷ []) refl))
      refl refl (omega arith)
