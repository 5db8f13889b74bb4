-- ===== src/History/Overlap.antt =====
-- Transactions of `SaveEvents` of services/history/infrastructure/db/postgres_events_repo.cc that
-- run on several connections at once. Each sees the committed rows and its own; the sequence of the
-- identifiers is shared, and does not go back. The two statements of one event are one step, since
-- the second reads and writes rows of its own transaction only. COMMIT may be carried out without
-- an answer.
pub mod Rows
pub mod Sequence
pub mod Sound
pub mod Serial
pub mod Alone
pub mod Counted
mod Tests
use two_services.Base.{
  ℕ, ◌≡◌, String, Bool, Option, none, some, List, [], ◌∷◌, ◌++◌, length, drop, nat_eq,
  if◌then◌else◌,
}
use two_services.Base.Exec.{ok, throw}
use two_services.Shared.Dto
use two_services.History.Postgres.{Engine, Tables}
use two_services.History.Repo.{Db, save_one}

module _ (engine : Engine) where
  -- A transaction: the events that are still to be inserted, those that were, and its rows.
  pub record Txn : Type 0 where
    pub events_left : List Dto.Event
    pub events_done : List Dto.Event
    pub own : Tables engine

  -- What came of a call: success was reported, a failure was, or a failure after the COMMIT was
  -- carried out.
  pub data Outcome : Type 0 where
    saved refused in_doubt : List Dto.Event → Outcome

  -- The committed rows with the sequence, the transactions by their connections, and the calls that
  -- have ended.
  pub record Shared : Type 0 where
    pub committed : Tables engine
    pub running : ℕ → Option Txn
    pub outcomes : List Outcome

  -- what a transaction with these rows sees
  abbrev pub visible : Tables engine → Tables engine → Tables engine
  visible t own = record {
    events = t.events ++ own.events;
    payloads = t.payloads ++ own.payloads;
    next_id = t.next_id;
  }

  -- what is in the second tables behind the rows of the first
  abbrev pub own_of : Tables engine → Tables engine → Tables engine
  own_of t u = record {
    events = drop (length t.events) u.events;
    payloads = drop (length t.payloads) u.payloads;
    next_id = u.next_id;
  }

  abbrev pub assign : ℕ → Option Txn → (ℕ → Option Txn) → ℕ → Option Txn
  assign c tx running d = if nat_eq d c then tx else running d

  abbrev pub started : List Dto.Event → Txn
  started events = record {
    events_left = events;
    events_done = [];
    own = record { events = []; payloads = []; next_id = 0 };
  }

  abbrev pub advance : ℕ → Tables engine → Tables engine
  advance n t = record t { next_id = n }

  -- the catch block, after the transaction was rolled back
  abbrev pub give_up : ℕ → Txn → Shared → Shared
  give_up c tx s = record s {
    running = assign c none s.running;
    outcomes = s.outcomes ++ refused (tx.events_done ++ tx.events_left) ∷ [];
  }

  abbrev pub ended : Bool → List Dto.Event → Outcome
  ended answered events = if answered then saved events else in_doubt events

  -- One step of one of the transactions.
  pub data Step : Shared → Shared → Type 0 where
    begins :
        (s : Shared) (c : ℕ) (event : Dto.Event) (events : List Dto.Event)
        → s.running c ≡ none
        → Step s (record s { running = assign c (some (started (event ∷ events))) s.running })
    inserts :
        (s : Shared) (c : ℕ) (tx : Txn) (event : Dto.Event) (rest : List Dto.Event)
        (faults : List (Option String)) (end : Db engine)
        → s.running c ≡ some tx
        → tx.events_left ≡ event ∷ rest
        → save_one engine event (record { tables = visible s.committed tx.own; faults = faults })
          ≡ (ok tt, end)
        → Step s (record s {
          committed = advance end.tables.next_id s.committed;
          running =
              assign c
                (some (record {
                  events_left = rest;
                  events_done = tx.events_done ++ event ∷ [];
                  own = own_of s.committed end.tables;
                }))
                s.running;
        })
    throws :
        (s : Shared) (c : ℕ) (tx : Txn) (event : Dto.Event) (rest : List Dto.Event)
        (faults : List (Option String)) (what : String) (end : Db engine)
        → s.running c ≡ some tx
        → tx.events_left ≡ event ∷ rest
        → save_one engine event (record { tables = visible s.committed tx.own; faults = faults })
          ≡ (throw what, end)
        → Step s (give_up c tx (record s { committed = advance end.tables.next_id s.committed }))
    -- BEGIN or COMMIT fails, or the connection breaks
    breaks : (s : Shared) (c : ℕ) (tx : Txn) → s.running c ≡ some tx → Step s (give_up c tx s)
    commits :
        (s : Shared) (c : ℕ) (tx : Txn) (answered : Bool)
        → s.running c ≡ some tx
        → tx.events_left ≡ []
        → Step s (record {
          committed = visible s.committed tx.own;
          running = assign c none s.running;
          outcomes = s.outcomes ++ ended answered tx.events_done ∷ [];
        })

  pub data Steps (start : Shared) : Shared → Type 0 where
    here : Steps start start
    next : {s t : Shared} → Steps start s → Step s t → Steps start t

  -- Nothing runs yet.
  abbrev pub quiet : Tables engine → Shared
  quiet t = record { committed = t; running = λ c. none; outcomes = [] }
