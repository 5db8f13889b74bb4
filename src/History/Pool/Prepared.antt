-- ===== src/History/Pool/Prepared.antt =====
-- The loop of `CreatePreparedPool` over the connections of the pool.
use mathlib.Core.List.{append_assoc, append-nil}
use two_services.Base.{
  Bool, All, ℕ, suc, zero, ◌≡◌, sym, ap, ◌∙◌, true, inl, inr, some, List, [], ◌∷◌, ◌++◌, map,
  length,
}
use two_services.Base.Exec.{Except, ok, Except-cases}
use two_services.History.Pool.{
  Driver, open_connections, return_connection, destroy, prepare_all, create_prepared_pool,
}

module _ (driver : Driver) where
  open driver use {Connection, is_open}

  pub map-All :
      (is_prepared : Connection → Bool) (prepare : Connection → Connection)
      → ((conn : Connection) → is_prepared (prepare conn) ≡ true)
      → (conns : List Connection) → All (λ conn. is_prepared conn ≡ true) (map prepare conns)
  map-All is_prepared prepare prepares [] = tt
  map-All is_prepared prepare prepares (conn ∷ conns) =
      (prepares conn, map-All is_prepared prepare prepares conns)

  pub return-open :
      (attempt : Except Connection) (conn : Connection) (connections : List Connection)
      → is_open conn ≡ true
      → return_connection driver attempt (some conn) connections ≡ connections ++ conn ∷ []
  unfolding return_connection
  return-open attempt conn connections h = rw h

  module _ (prepare : Connection → Connection) (again : ℕ → Except Connection)
      (stays_open : (conn : Connection) → is_open (prepare conn) ≡ true) where
    -- each round takes the first connection and puts it behind the others
    prepare_all-rotates :
        (front back : List Connection)
        → prepare_all driver prepare again (length front) (front ++ back)
          ≡ some (back ++ map prepare front)
    unfolding prepare_all destroy
    prepare_all-rotates [] back = ap some (sym (append-nil back))
    prepare_all-rotates (conn ∷ front) back =
        ap (prepare_all driver prepare again (length front)) (
          return-open (again (length front)) (prepare conn) (front ++ back) (stays_open conn)
          ∙ append_assoc front back (prepare conn ∷ []))
        ∙ prepare_all-rotates front (back ++ prepare conn ∷ [])
        ∙ ap some (append_assoc back (prepare conn ∷ []) (map prepare front))

    pub open_connections-length :
        (attempts : ℕ → Except Connection) (i n : ℕ) (connections : List Connection)
        → open_connections driver attempts i n ≡ ok connections
        → length connections ≡ n
    unfolding open_connections
    open_connections-length attempts i zero connections h =
        let e : [] ≡ connections = cc h in ap length (sym e)
    open_connections-length attempts i (suc n) connections h = elim (Except-cases (attempts i)) [
      | inl (conn, e) ↦ elim (Except-cases (open_connections driver attempts (suc i) n)) [
        | inl (conns, f) ↦
            let same : conn ∷ conns ≡ connections = cc (rw (e, f) at h) in
            ap length (sym same) ∙ ap suc (open_connections-length attempts (suc i) n conns f)
        | inr (what, f) ↦ absurd (cc (rw (e, f) at h))
      ]
      | inr (what, e) ↦ absurd (cc (rw e at h))
    ]

    -- Where the connections could be opened, and no preparer closes one, `CreatePreparedPool` does not
    -- wait: every connection of the pool was prepared once, and they stand in the order in which they
    -- were opened.
    pub create_prepared_pool-prepares :
        (attempts : ℕ → Except Connection) (pool_size : ℕ) (connections : List Connection)
        → open_connections driver attempts 0 pool_size ≡ ok connections
        → create_prepared_pool driver prepare attempts again pool_size
          ≡ ok (some (map prepare connections))
    unfolding create_prepared_pool
    create_prepared_pool-prepares attempts pool_size connections h =
        let size = open_connections-length attempts 0 pool_size connections h in
        let whole = append-nil connections in
        rw h (
          ap ok (
            rw (← size) (
              ap (prepare_all driver prepare again (length connections)) (sym whole)
              ∙ prepare_all-rotates connections [])))
