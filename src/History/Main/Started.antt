-- ===== src/History/Main/Started.antt =====
-- When `main` of services/history/main.cc comes to serve, and when it ends.
use Prim.Native.String.{◌++◌}
use two_services.Base.{
  All, ℕ, zero, suc, ◌<◌, ◌≡◌, refl, ap, ◌⊎◌, inl, inr, String, Bool, true, Option, List, [], ◌∷◌,
  map, length, arith,
}
use two_services.Base.Exec.{Except, ok, throw, Except-cases}
use two_services.Utils.Convert.{TimeUtil}
use two_services.History.Pool.{Driver, open_connections, create_prepared_pool}
use two_services.History.Pool.Prepared.{map-All, create_prepared_pool-prepares}
use two_services.History.Service.{EventService}
use two_services.History.Settings.{pg_settings, make_db_connection_string, server_port}
use two_services.History.UseCases.{EventRepository}
use two_services.History.Main.{exited, run_server, main, connecting_to, error_line}

module _ (driver : Driver) where
  open driver use {Connection, is_open}

  -- The attempts from the `i`th on open these connections.
  abbrev pub Open : (ℕ → Except Connection) → ℕ → List Connection → Type 0
  Open attempts i [] = Unit {0}
  Open attempts i (conn ∷ connections) = (attempts i ≡ ok conn) × Open attempts (suc i) connections

  -- The `k`th attempt from the `i`th on throws, and none before it does.
  abbrev pub FailsAt : (ℕ → Except Connection) → ℕ → ℕ → String → Type 0
  FailsAt attempts i zero what = attempts i ≡ throw what
  FailsAt attempts i (suc k) what =
      ((conn : Connection) × (attempts i ≡ ok conn)) × FailsAt attempts (suc i) k what

  -- The constructor of the pool opens all its connections, or throws what the first failure throws.
  open_connections_cases :
      (attempts : ℕ → Except Connection) (i n : ℕ)
      → ((connections : List Connection) × (length connections ≡ n)
          × Open attempts i connections
          × (open_connections driver attempts i n ≡ ok connections))
        ⊎ ((k : ℕ) × (what : String) × (k < n)
            × FailsAt attempts i k what
            × (open_connections driver attempts i n ≡ throw what))
  unfolding open_connections
  open_connections_cases attempts i zero = inl ([], refl, tt, refl)
  open_connections_cases attempts i (suc n) = elim (Except-cases (attempts i)) [
    | inl (conn, e) ↦ elim (open_connections_cases attempts (suc i) n) [
      | inl (conns, size, opened, h) ↦ inl (conn ∷ conns, ap suc size, (e, opened), rw (e, h))
      | inr (k, what, below, fails, h) ↦
          inr (suc k, what, omega arith, ((conn, e), fails), rw (e, h))
    ]
    | inr (what, e) ↦ inr (0, what, omega arith, e, rw e)
  ]

  create_prepared_pool-throws :
      (prepare : Connection → Connection) (attempts again : ℕ → Except Connection) (n : ℕ)
      (what : String)
      → open_connections driver attempts 0 n ≡ throw what
      → create_prepared_pool driver prepare attempts again n ≡ throw what
  unfolding create_prepared_pool
  create_prepared_pool-throws prepare attempts again n what h = rw h

module _ (driver : Driver) {S : Type 0} (time : TimeUtil)
    (connect reconnect : String → ℕ → Except driver.Connection)
    (prepare : driver.Connection → driver.Connection)
    (postgres_events_repo : List driver.Connection → EventRepository S) (say : String → S → S)
    (build_and_start : String → EventService time.Timestamp S → Except Bool) where
  open driver use {Connection, is_open}

  -- Where the preparer, which `CreatePreparedPool` catches if it throws, never throws but prepares a
  -- connection, and does not close it: `main` does not come to wait for a connection. Either its five
  -- connections are opened, with the text that the settings make, and it hands the service over them, each
  -- after one run of the preparer, all prepared and in that order, to gRPC, under the address with the port
  -- of the environment; or one cannot be opened, and it exits with 1 and the error of the first such.
  pub main_outcome :
      (is_prepared : Connection → Bool) (getenv : String → Option String)
      → ((conn : Connection) → is_open (prepare conn) ≡ true)
      → ((conn : Connection) → is_prepared (prepare conn) ≡ true)
      → let env = pg_settings getenv in
        let attempts = connect (make_db_connection_string env) in
        let outcome =
          main driver time connect reconnect prepare postgres_events_repo say build_and_start
            getenv in
        ((connections : List Connection) × (pool : List Connection) × (length connections ≡ 5)
          × Open driver attempts 0 connections
          × (pool ≡ map prepare connections)
          × All (λ conn. is_prepared conn ≡ true) pool
          × (outcome
              ≡ run_server driver time connect reconnect prepare postgres_events_repo say
                  build_and_start
                  ("0.0.0.0:" ++ server_port getenv)
                  pool
                  (connecting_to env ∷ [])))
        ⊎ ((k : ℕ) × (what : String) × (k < 5)
            × FailsAt driver attempts 0 k what
            × (outcome ≡ exited 1 (connecting_to env ∷ error_line what ∷ [])))
  unfolding main
  main_outcome is_prepared getenv stays_open prepares =
      let env = pg_settings getenv in
      let text = make_db_connection_string env in
      elim (open_connections_cases driver (connect text) 0 5) [
        | inl (connections, size, opened, h) ↦ inl (
          connections,
          map prepare connections,
          size,
          opened,
          refl,
          map-All driver is_prepared prepare prepares connections,
          rw (
              create_prepared_pool-prepares driver prepare (reconnect text) stays_open
                (connect text) 5 connections h),
        )
        | inr (k, what, below, fails, h) ↦ inr (
          k,
          what,
          below,
          fails,
          rw (create_prepared_pool-throws driver prepare (connect text) (reconnect text) 5 what h),
        )
      ]
