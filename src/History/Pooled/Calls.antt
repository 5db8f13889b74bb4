-- ===== src/History/Pooled/Calls.antt =====
-- What the calls of the repository over the pool do, one by one and one after another.
use two_services.Base.{
  ℕ, suc, ◌≡◌, refl, sym, ap, subst, ◌∙◌, inl, inr, ◌⊎◌, Bool, true, false, Bool-cases, some, List,
  [], ◌∷◌, length, All, All-append_one,
}
use two_services.Base.Exec.{Exec, throw}
use two_services.History.Pool.{Driver, acquire, destroy, return_connection}
use two_services.History.Pool.Prepared.{return-open}
use two_services.History.Pool.Reach.{return_connection-length}
use two_services.History.Postgres.{Engine, undefined_statement}
use two_services.History.Repo
use two_services.History.Repo.{Db, call, control, insert_all, read_events, read_stats}
use two_services.History.Repo.Steps.{
  Unchanged, call-Unchanged, bind-Unchanged, transaction-Unchanged, control-Unchanged, Extends-same,
}
use two_services.History.Repo.Invariant.{IsConsistent, view}
use two_services.History.Service.Durable.{KeepsRows, KeepsRows-also}
use two_services.History.Service.Interleaved.{
  Action, saves, fetches, counts, disturbs, perform-KeepsRows,
}
use two_services.History.Service.Interleaved
use two_services.History.Pooled.{
  Held, Meanwhile, without_statement, on_connection, save_events, get_events, get_stats, perform,
  perform_all, and_then,
}

module _ (engine : Engine) (driver : Driver) (is_prepared : driver.Connection → Bool) where
  open driver use {Connection, is_open}

  pub without_statement-Unchanged :
      (A : Type 0) → Unchanged engine (without_statement engine driver is_prepared {A = A})
  without_statement-Unchanged A = transaction-Unchanged engine _ (
      bind-Unchanged engine (control engine) _ (control-Unchanged engine) λ _ db.
        call-Unchanged engine (λ t. (throw (engine.what undefined_statement), t)) (λ t. refl)
          db.tables db.faults)

  -- What a call does on a connection: what the repository does, or nothing to the tables.
  abbrev pub Worked : Connection → Db engine → Db engine → Db engine → Type 0
  Worked conn db end db' =
      ((is_prepared conn ≡ true) × (db' ≡ end))
      ⊎ ((is_prepared conn ≡ false) × (db'.tables ≡ db.tables))

  on_connection-Worked :
      {A : Type 0} (m : Exec (Db engine) A) (conn : Connection) (db : Db engine)
      → Worked conn db (m db).1 (on_connection engine driver is_prepared m conn db).1
  on_connection-Worked m conn db = elim (Bool-cases (is_prepared conn)) [
    | inl e ↦ inl (e, rw e refl)
    | inr e ↦ inr (e, rw e (without_statement-Unchanged _ db))
  ]

  -- The pool after a call: untouched, or its first connection has come back at the end.
  abbrev pub Rotated :
      Meanwhile engine driver is_prepared → Connection → List Connection → List Connection → Type 0
  Rotated m conn rest connections =
      (connections ≡ conn ∷ rest)
      ⊎ (connections ≡ return_connection driver m.again (some (m.used conn)) rest)

  -- What a call leaves behind that found a connection in the pool.
  abbrev pub Left :
      Action engine
      → Meanwhile engine driver is_prepared
      → Connection
      → List Connection
      → Db engine
      → Held engine driver is_prepared
      → Type 0
  Left action m conn rest db t =
      (perform engine driver is_prepared action m (record { connections = conn ∷ rest; db = db })
        ≡ some t)
      × Rotated m conn rest t.connections
      × Worked conn db (Interleaved.perform engine action db) t.db

  unused-Worked :
      (conn : Connection) (db end : Db engine) → end.tables ≡ db.tables → Worked conn db end end
  unused-Worked conn db end same = elim (Bool-cases (is_prepared conn)) [
    | inl e ↦ inl (e, refl)
    | inr e ↦ inr (e, same)
  ]

  pub perform-Left :
      (action : Action engine) (m : Meanwhile engine driver is_prepared) (conn : Connection)
      (rest : List Connection) (db : Db engine)
      → (t : Held engine driver is_prepared) × Left action m conn rest db t
  unfolding save_events get_events get_stats Repo.save_events Repo.get_events Repo.get_stats acquire
      destroy
  perform-Left (saves []) m conn rest db = (_, (refl, inl refl, unused-Worked conn db db refl))
  perform-Left (saves (event ∷ events)) m conn rest db =
      (_, (refl, inr refl, on_connection-Worked (insert_all engine (event ∷ events)) conn db))
  perform-Left (fetches filter) m conn rest db =
      (_, (refl, inr refl, on_connection-Worked (read_events engine filter) conn db))
  perform-Left counts m conn rest db =
      (_, (refl, inr refl, on_connection-Worked (read_stats engine) conn db))
  perform-Left (disturbs faults) m conn rest db =
      (_, (refl, inl refl, unused-Worked conn db (record db { faults = faults }) refl))

  Rotated-length :
      (m : Meanwhile engine driver is_prepared) (conn : Connection)
      (rest connections : List Connection)
      → Rotated m conn rest connections
      → length connections ≡ suc (length rest)
  Rotated-length m conn rest connections (inl e) = ap length e
  Rotated-length m conn rest connections (inr e) =
      ap length e ∙ return_connection-length driver m.again (m.used conn) rest

  Worked-KeepsRows :
      (action : Action engine) (conn : Connection) (db db' : Db engine)
      → Worked conn db (Interleaved.perform engine action db) db'
      → KeepsRows engine db db'
  Worked-KeepsRows action conn db db' (inl (_, e)) h =
      subst (KeepsRows engine db) (sym e) (perform-KeepsRows engine action db) h
  Worked-KeepsRows action conn db db' (inr (_, e)) h = (
    subst (IsConsistent engine) (sym e) h,
    Extends-same engine db.tables db'.tables (ap (view engine) e),
  )

  pub and_then-some :
      (action : Action engine) (m : Meanwhile engine driver is_prepared)
      (calls : List (Action engine × Meanwhile engine driver is_prepared))
      (r s t : Held engine driver is_prepared)
      → perform engine driver is_prepared action m r ≡ some s
      → perform_all engine driver is_prepared calls s ≡ some t
      → perform_all engine driver is_prepared ((action, m) ∷ calls) r ≡ some t
  and_then-some action m calls r s t returned returns =
      ap (λ o. and_then engine driver is_prepared o (perform_all engine driver is_prepared calls))
        returned
      ∙ returns

  -- Where the pool has a connection, calls of the repository, one after another, never wait for
  -- one, whatever becomes of the connections and of the calls: the pool has as many connections in
  -- the end. Consistent tables stay consistent, and no stored event is lost, changed or moved.
  pub perform_all-returns :
      (calls : List (Action engine × Meanwhile engine driver is_prepared))
      (connections : List Connection) (db : Db engine) (n : ℕ)
      → length connections ≡ suc n
      → (t : Held engine driver is_prepared) × (perform_all engine driver is_prepared calls
            (record { connections = connections; db = db })
          ≡ some t)
        × (length t.connections ≡ suc n)
        × KeepsRows engine db t.db
  perform_all-returns calls [] db n h = absurd (cc h)
  perform_all-returns [] (conn ∷ rest) db n h =
      (_, refl, h, λ k. (k, Extends-same engine db.tables db.tables refl))
  perform_all-returns ((action, m) ∷ calls) (conn ∷ rest) db n h =
      let (s, (returned, rotated, worked)) = perform-Left action m conn rest db in
      let same = Rotated-length m conn rest s.connections rotated ∙ h in
      let (t, returns, size, keeps) = perform_all-returns calls s.connections s.db n same in
      (
        t,
        and_then-some action m calls (record { connections = conn ∷ rest; db = db }) s t returned
            returns,
        size,
        KeepsRows-also engine db s.db t.db (Worked-KeepsRows action conn db s.db worked) keeps,
      )

  -- A connection stays open, and what holds of it goes on to hold.
  abbrev pub Stays : (Connection → Type 0) → Meanwhile engine driver is_prepared → Type 0
  Stays P m = (conn : Connection) → P conn → (is_open (m.used conn) ≡ true) × P (m.used conn)

  pub Rotated-All :
      (P : Connection → Type 0) (m : Meanwhile engine driver is_prepared) (conn : Connection)
      (rest connections : List Connection)
      → Stays P m
      → All P (conn ∷ rest)
      → Rotated m conn rest connections
      → All P connections
  Rotated-All P m conn rest connections stays h (inl e) = subst (All P) (sym e) h
  Rotated-All P m conn rest connections stays h (inr e) =
      let (still_open, holds) = stays conn h.0 in
      subst (All P) (sym (e ∙ return-open driver m.again (m.used conn) rest still_open))
        (All-append_one P rest (m.used conn) h.1 holds)

  -- the calls alone
  abbrev pub actions :
      List (Action engine × Meanwhile engine driver is_prepared) → List (Action engine)
  actions [] = []
  actions ((action, m) ∷ calls) = action ∷ actions calls

  module _ (P : Connection → Type 0) (Q : List (Action engine) → Db engine → Db engine → Type 0)
      (done : (db : Db engine) → Q [] db db)
      (more : (action : Action engine) (rest : List (Action engine)) (conn : Connection)
          (db next end : Db engine)
        → P conn
        → Worked conn db (Interleaved.perform engine action db) next
        → Q rest next end
        → Q (action ∷ rest) db end) where
    -- What holds of all connections, and stays, goes on to hold of all, and the calls do what each
    -- does on such a connection.
    pub perform_all-All :
        (calls : List (Action engine × Meanwhile engine driver is_prepared))
        (connections : List Connection) (db : Db engine) (n : ℕ)
        → length connections ≡ suc n
        → All P connections
        → All (λ call. Stays P call.1) calls
        → (t : Held engine driver is_prepared) × (perform_all engine driver is_prepared calls
              (record { connections = connections; db = db })
            ≡ some t)
          × (length t.connections ≡ suc n)
          × All P t.connections
          × Q (actions calls) db t.db
    perform_all-All calls [] db n h all stays = absurd (cc h)
    perform_all-All [] (conn ∷ rest) db n h all stays = (_, refl, h, all, done db)
    perform_all-All ((action, m) ∷ calls) (conn ∷ rest) db n h all (stays, later) =
        let (s, (returned, rotated, worked)) = perform-Left action m conn rest db in
        let same = Rotated-length m conn rest s.connections rotated ∙ h in
        let still = Rotated-All P m conn rest s.connections stays all rotated in
        let (t, returns, size, holds, does) =
          perform_all-All calls s.connections s.db n same still later in
        (
          t,
          and_then-some action m calls (record { connections = conn ∷ rest; db = db }) s t returned
              returns,
          size,
          holds,
          more action (actions calls) conn db s.db t.db all.0 worked does,
        )
