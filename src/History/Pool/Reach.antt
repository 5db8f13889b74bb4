-- ===== src/History/Pool/Reach.antt =====
-- What holds of a pool after any sequence of `Acquire` and `ReturnConnection`.
use two_services.Base.{
  ℕ, suc, ◌+◌, ◌≡◌, refl, ap, ◌∙◌, none, some, List, [], ◌∷◌, ◌++◌, length, length-append, arith,
  Bool-cases, inl, inr, String,
}
use two_services.Base.Exec.{Except, ok, throw}
use two_services.History.Pool.{
  Driver, Handle, acquire, acquire_within, return_connection, destroy, move_construct, move_assign,
}

module _ (driver : Driver) where
  open driver use {Connection, is_open}

  -- The connections that wait in the pool, and those that handles hold.
  pub record State : Type 0 where
    pub connections : List Connection
    pub lent : List Connection

  -- A handle takes the first connection, a connection that a handle holds changes, as when the server
  -- closes it, and a handle gives its connection back.
  pub data Step : State → State → Type 0 where
    acquired :
        (s : State) (conn : Connection) (rest : List Connection)
        → acquire driver s.connections ≡ some (conn, rest)
        → Step s (record { connections = rest; lent = conn ∷ s.lent })
    changed :
        (s : State) (conn new_conn : Connection) (before after : List Connection)
        → s.lent ≡ before ++ conn ∷ after
        → Step s (record s { lent = before ++ new_conn ∷ after })
    returned :
        (s : State) (attempt : Except Connection) (conn : Connection)
        (before after : List Connection)
        → s.lent ≡ before ++ conn ∷ after
        → Step s (record {
          connections = return_connection driver attempt (some conn) s.connections;
          lent = before ++ after;
        })

  pub data Reachable (start : State) : State → Type 0 where
    here : Reachable start start
    next : {s t : State} → Reachable start s → Step s t → Reachable start t

  pub return_connection-length :
      (attempt : Except Connection) (conn : Connection) (connections : List Connection)
      → length (return_connection driver attempt (some conn) connections) ≡ suc (length connections)
  unfolding return_connection
  return_connection-length (ok new_conn) conn connections = elim (Bool-cases (is_open conn)) [
    | inl e ↦ rw e (omega (arith, length-append connections (conn ∷ [])))
    | inr e ↦ rw e (omega (arith, length-append connections (new_conn ∷ [])))
  ]
  return_connection-length (throw what) conn connections = elim (Bool-cases (is_open conn)) [
    | inl e ↦ rw e (omega (arith, length-append connections (conn ∷ [])))
    | inr e ↦ rw e (omega (arith, length-append connections (conn ∷ [])))
  ]

  pub acquire-length :
      (connections : List Connection) (conn : Connection) (rest : List Connection)
      → acquire driver connections ≡ some (conn, rest)
      → length connections ≡ suc (length rest)
  unfolding acquire
  acquire-length [] conn rest h = absurd (cc h)
  acquire-length (first ∷ connections) conn rest h =
      let same : connections ≡ rest = cc h in ap (λ l. suc (length l)) same

  -- The connections in the pool and in the handles together.
  abbrev pub size : State → ℕ
  size s = length s.connections + length s.lent

  Step-size : {s t : State} → Step s t → size t ≡ size s
  Step-size (acquired s conn rest h) = omega (arith, acquire-length s.connections conn rest h)
  Step-size (changed s conn new_conn before after h) = omega (
    arith,
    ap length h,
    length-append before (conn ∷ after),
    length-append before (new_conn ∷ after),
  )
  Step-size (returned s attempt conn before after h) = omega (
    arith,
    ap length h,
    length-append before (conn ∷ after),
    length-append before after,
    return_connection-length attempt conn s.connections,
  )

  -- Whatever is acquired and returned, and whatever becomes of the connections, also where opening one
  -- again fails: the pool and the handles hold as many connections together as at the start.
  pub Reachable-size : {start s : State} → Reachable start s → size s ≡ size start
  Reachable-size here = refl
  Reachable-size (next reach step) = Step-size step ∙ Reachable-size reach

  pub acquire-length_none :
      (connections : List Connection) → acquire driver connections ≡ none → length connections ≡ 0
  unfolding acquire
  acquire-length_none [] h = refl
  acquire-length_none (conn ∷ connections) h = absurd (cc h)

  -- `Acquire` with a timeout takes what `Acquire` takes, and throws where that waits.
  pub acquire_within-ok :
      (connections : List Connection) (conn : Connection) (rest : List Connection)
      → acquire_within driver connections ≡ ok (conn, rest)
      → acquire driver connections ≡ some (conn, rest)
  unfolding acquire_within acquire
  acquire_within-ok [] conn rest h = absurd (cc h)
  acquire_within-ok (first ∷ connections) conn rest h = cc h

  pub acquire_within-throw :
      (connections : List Connection) (what : String)
      → acquire_within driver connections ≡ throw what
      → length connections ≡ 0
  unfolding acquire_within
  acquire_within-throw [] what h = refl
  acquire_within-throw (conn ∷ connections) what h = absurd (cc h)

  -- From a pool whose connections no handle holds, `Acquire` comes to wait only where handles hold as
  -- many connections as the pool was created with: none is ever lost.
  acquire-waits :
      (start s : State)
      → length start.lent ≡ 0
      → Reachable start s
      → acquire driver s.connections ≡ none
      → length s.lent ≡ length start.connections
  acquire-waits start s none_lent reach h =
      omega (arith, Reachable-size reach, acquire-length_none s.connections h, none_lent)

  -- A handle that was moved from gives nothing back: after a move construction or a move assignment, the
  -- two destructors together return each connection once.
  pub move-returns_once :
      (attempt once_more : Except Connection) (this other : Handle driver)
      (connections : List Connection)
      → let (made, left) = move_construct driver other in
        let (target, source, pool) = move_assign driver attempt this other connections in
        (destroy driver once_more left (destroy driver attempt made connections)
          ≡ destroy driver attempt other connections)
        × (destroy driver once_more source (destroy driver once_more target pool)
            ≡ destroy driver once_more other (destroy driver attempt this connections))
  unfolding move_construct move_assign destroy
  move-returns_once attempt once_more this other connections = (refl, refl)
