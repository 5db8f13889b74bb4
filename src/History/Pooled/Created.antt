-- ===== src/History/Pooled/Created.antt =====
-- The repository over the pool that `CreatePreparedPool` makes.
use two_services.Base.{
  ℕ, suc, ◌≡◌, sym, ap, subst, ◌∙◌, inl, inr, Bool, true, some, List, length, length-map, map, All,
}
use two_services.Base.Exec.{Except, ok, Except-cases}
use two_services.History.Pool.{Driver, open_connections, create_prepared_pool}
use two_services.History.Pool.Prepared.{
  map-All, create_prepared_pool-prepares, open_connections-length,
}
use two_services.History.Postgres.{Engine}
use two_services.History.Repo.{Db}
use two_services.History.Service.Interleaved.{Action}
use two_services.History.Service.Interleaved
use two_services.History.Pooled.{Held, Meanwhile, perform_all}
use two_services.History.Pooled.Calls.{Stays, actions}
use two_services.History.Pooled.Reopened.{perform_all-prepared}

module _ (engine : Engine) (driver : Driver) (is_prepared : driver.Connection → Bool)
    (prepare : driver.Connection → driver.Connection)
    (stays_open : (conn : driver.Connection) → driver.is_open (prepare conn) ≡ true)
    (prepares : (conn : driver.Connection) → is_prepared (prepare conn) ≡ true) where
  open driver use {Connection}

  -- A pool that was created has its size, and all its connections are prepared.
  pub created-prepared :
      (attempts again : ℕ → Except Connection) (pool_size : ℕ) (pool : List Connection)
      → create_prepared_pool driver prepare attempts again pool_size ≡ ok (some pool)
      → (length pool ≡ pool_size) × All (λ conn. is_prepared conn ≡ true) pool
  unfolding create_prepared_pool
  created-prepared attempts again pool_size pool h =
      elim (Except-cases (open_connections driver attempts 0 pool_size)) [
        | inl (conns, e) ↦
            let made : ok (some (map prepare conns)) ≡ ok (some pool) =
              sym (
                create_prepared_pool-prepares driver prepare again stays_open attempts pool_size
                  conns e)
              ∙ h in
            let same : map prepare conns ≡ pool = cc made in
            (
              ap length (sym same)
                  ∙ length-map prepare conns
                  ∙ open_connections-length driver prepare again stays_open attempts 0 pool_size
                      conns e,
              subst (All (λ conn. is_prepared conn ≡ true)) same
                  (map-All driver is_prepared prepare prepares conns),
            )
        | inr (what, e) ↦ absurd (cc (rw e at h))
      ]

  -- Over a pool that `CreatePreparedPool` made, of one connection or more, where the preparer
  -- prepares a connection and does not close it, and while the connections stay as they are: any
  -- calls of the repository return, and do to the database what the repository does without a pool;
  -- the pool keeps its size.
  create_prepared_pool-perform_all :
      (attempts again : ℕ → Except Connection) (n : ℕ) (pool : List Connection)
      (calls : List (Action engine × Meanwhile engine driver is_prepared)) (db : Db engine)
      → create_prepared_pool driver prepare attempts again (suc n) ≡ ok (some pool)
      → All (λ call. Stays engine driver is_prepared (λ conn. is_prepared conn ≡ true) call.1) calls
      → (t : Held engine driver is_prepared) × (perform_all engine driver is_prepared calls
            (record { connections = pool; db = db })
          ≡ some t)
        × (length t.connections ≡ suc n)
        × (t.db ≡ Interleaved.perform_all engine (actions engine driver is_prepared calls) db)
  create_prepared_pool-perform_all attempts again n pool calls db made stays =
      let (size, prepared) = created-prepared attempts again (suc n) pool made in
      let (t, returns, still_size, still_prepared, same) =
        perform_all-prepared engine driver is_prepared calls pool db n size prepared stays in
      (t, returns, still_size, same)
