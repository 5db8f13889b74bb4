-- ===== src/History/Overlap/Serial.antt =====
-- Transactions that overlap leave the rows that they leave one after another.
use mathlib.Core.List.{append_assoc, append-nil}
use two_services.Base.{
  ℕ, ◌+◌, ◌≤◌, ◌≡◌, refl, sym, ap, subst, ◌∙◌, String, Bool, true, false, Option, none, some, List,
  [], ◌∷◌, ◌++◌, arith,
}
use two_services.Base.Exec.{ok, throw}
use two_services.Shared.Dto
use two_services.Shared.Dto.{status_to_str}
use two_services.History.Postgres.{Engine, Tables}
use two_services.History.Postgres.Select.{Joined}
use two_services.History.Repo.{Db, save_one}
use two_services.History.Repo.Invariant.{view, IsConsistent, added}
use two_services.History.Repo.Success.{save_one-eq-ok}
use two_services.History.Overlap.{
  Txn, Shared, Outcome, saved, refused, in_doubt, visible, own_of, assign, started, advance, ended,
  Step, begins, inserts, throws, breaks, commits, Steps, here, next, quiet,
}
use two_services.History.Overlap.Sequence.{save_one-le}
use two_services.History.Overlap.Rows.{
  Own, nothing, Own-append, Absent-nil, own_of-added, view-visible,
}
use two_services.History.Overlap.Sound.{
  TxnSound, IsSound, Other, Apart, IsSound-assign, IsConsistent-advance, TxnSound-advance,
  visible-IsConsistent, TxnSound-visible, grown, grown-TxnSound, grown-Apart,
}

module _ (engine : Engine) where
  -- The events of the calls whose COMMIT was carried out, in the order of the commits.
  abbrev pub kept : List (Outcome engine) → List Dto.Event
  kept [] = []
  kept (saved events ∷ outcomes) = events ++ kept outcomes
  kept (in_doubt events ∷ outcomes) = events ++ kept outcomes
  kept (refused events ∷ outcomes) = kept outcomes

  kept-append :
      (outcomes more : List (Outcome engine)) → kept (outcomes ++ more) ≡ kept outcomes ++ kept more
  kept-append [] more = refl
  kept-append (saved events ∷ outcomes) more =
      ap (◌++◌ events) (kept-append outcomes more)
      ∙ sym (append_assoc events (kept outcomes) (kept more))
  kept-append (in_doubt events ∷ outcomes) more =
      ap (◌++◌ events) (kept-append outcomes more)
      ∙ sym (append_assoc events (kept outcomes) (kept more))
  kept-append (refused events ∷ outcomes) more = kept-append outcomes more

  kept-ended :
      (answered : Bool) (events : List Dto.Event)
      → kept (ended engine answered events ∷ []) ≡ events
  kept-ended true events = append-nil events
  kept-ended false events = append-nil events

  -- The committed rows are those of `t`, and behind them those of the calls that were committed, in
  -- the order of the commits.
  abbrev pub IsSerial : Tables engine → Shared engine → Type 0
  IsSerial t s =
      (rows : List (Joined engine)) × (view engine s.committed ≡ view engine t ++ rows)
      × Own engine (kept s.outcomes) rows

  -- what a step has to keep
  abbrev Good : Tables engine → Shared engine → Type 0
  Good t s = IsSound engine s × IsSerial t s

  started-TxnSound :
      (t : Tables engine) (events : List Dto.Event) → TxnSound engine t (started engine events)
  started-TxnSound t events = record {
    consistent = record { fresh_events = tt; fresh_payloads = tt; good = tt };
    absent = tt;
    rows = nothing;
  }

  begun-IsSound :
      (s : Shared engine) (c : ℕ) (events : List Dto.Event)
      → IsSound engine s
      → IsSound engine
          (record s { running = assign engine c (some (started engine events)) s.running })
  begun-IsSound s c events sound =
      IsSound-assign engine s s.committed c (some (started engine events)) s.outcomes sound
        sound.consistent (λ ty other. sound.each other.0 ty other.2)
        (λ tx h.
          let e : started engine events ≡ tx = cc h in
          subst (TxnSound engine s.committed) e (started-TxnSound s.committed events))
        (λ tx ty h other.
          let e : started engine events ≡ tx = cc h in
          subst (λ tx. Apart engine tx ty) e (tt, Absent-nil engine ty.own.events))

  -- the transaction of a connection goes, and the sequence has moved on
  gone-IsSound :
      (s : Shared engine) (c n : ℕ) (outcomes : List (Outcome engine))
      → s.committed.next_id ≤ n
      → IsSound engine s
      → IsSound engine (record {
        committed = advance engine n s.committed;
        running = assign engine c none s.running;
        outcomes = outcomes;
      })
  gone-IsSound s c n outcomes le sound =
      IsSound-assign engine s (advance engine n s.committed) c none outcomes sound
        (IsConsistent-advance engine s.committed n le sound.consistent)
        (λ ty other. TxnSound-advance engine s.committed n ty le (sound.each other.0 ty other.2))
        (λ tx h. absurd (cc h)) (λ tx ty h other. absurd (cc h))

  refused-IsSerial :
      (t : Tables engine) (s : Shared engine) (n c : ℕ) (events : List Dto.Event)
      → IsSerial t s
      → IsSerial t (record {
        committed = advance engine n s.committed;
        running = assign engine c none s.running;
        outcomes = s.outcomes ++ refused events ∷ [];
      })
  refused-IsSerial t s n c events (rows, same, own) = (
    rows,
    same,
    subst (λ es. Own engine es rows)
        (sym (kept-append s.outcomes (refused events ∷ []) ∙ append-nil (kept s.outcomes))) own,
  )

  module _ (s : Shared engine) (c : ℕ) (tx : Txn engine) (runs : s.running c ≡ some tx)
      (sound : IsSound engine s) where
    inserted-IsSound :
        (event : Dto.Event) (rest : List Dto.Event) (faults : List (Option String))
        (end : Db engine)
        → save_one engine event
            (record { tables = visible engine s.committed tx.own; faults = faults })
          ≡ (ok tt, end)
        → IsSound engine (record s {
          committed = advance engine end.tables.next_id s.committed;
          running =
              assign engine c
                (some (record {
                  events_left = rest;
                  events_done = tx.events_done ++ event ∷ [];
                  own = own_of engine s.committed end.tables;
                }))
                s.running;
        })
    inserted-IsSound event rest faults end h =
        let (columns, admitted, tables) =
          save_one-eq-ok engine event (visible engine s.committed tx.own) faults end h in
        let n : ℕ = s.committed.next_id + 1 in
        let larger =
          grown engine s.committed tx (sound.each c tx runs) event columns admitted rest in
        let other_sound = λ (ty : Txn engine) (other : Other engine s.running c ty).
          sound.each other.0 ty other.2 in
        let both : ◌≡◌ {A = Tables engine × Tables engine}
            (end.tables, own_of engine s.committed end.tables)
            (added engine event columns (visible engine s.committed tx.own), larger.own) =
          λ i.
            (tables i, own_of-added engine event columns s.committed tx.own end.tables tables i) in
        subst
          (λ (u : Tables engine × Tables engine). IsSound engine (record s {
            committed = advance engine u.0.next_id s.committed;
            running =
                assign engine c
                  (some (record {
                    events_left = rest;
                    events_done = tx.events_done ++ event ∷ [];
                    own = u.1;
                  }))
                  s.running;
          }))
          (sym both)
          (IsSound-assign engine s (advance engine n s.committed) c (some larger) s.outcomes sound
            (IsConsistent-advance engine s.committed n (omega arith) sound.consistent)
            (λ ty other.
              TxnSound-advance engine s.committed n ty (omega arith) (other_sound ty other))
            (λ ty k.
              let e : larger ≡ ty = cc k in
              subst (TxnSound engine (advance engine n s.committed)) e (
                grown-TxnSound engine s.committed tx (sound.each c tx runs) event columns admitted
                  rest sound.consistent))
            (λ tz ty k other.
              let e : larger ≡ tz = cc k in
              subst (λ tz. Apart engine tz ty) e
                (grown-Apart engine s.committed tx (sound.each c tx runs) event columns admitted
                  rest ty (other_sound ty other)
                  (sound.apart c other.0 tx ty other.1 runs other.2))))

    committed-Good :
        (t : Tables engine) (answered : Bool)
        → IsSerial t s
        → Good t (record {
          committed = visible engine s.committed tx.own;
          running = assign engine c none s.running;
          outcomes = s.outcomes ++ ended engine answered tx.events_done ∷ [];
        })
    committed-Good t answered (rows, same, own) =
        let done = sound.each c tx runs in
        (
          IsSound-assign engine s (visible engine s.committed tx.own) c none
              (s.outcomes ++ ended engine answered tx.events_done ∷ []) sound
              (visible-IsConsistent engine s.committed tx sound.consistent done)
              (λ ty other.
                TxnSound-visible engine s.committed tx sound.consistent done ty
                  (sound.each other.0 ty other.2)
                  (sound.apart c other.0 tx ty other.1 runs other.2))
              (λ ty k. absurd (cc k)) (λ tz ty k other. absurd (cc k)),
          (
            rows ++ view engine tx.own,
            view-visible engine s.committed tx.own sound.consistent.good done.absent
                ∙ ap (λ l. l ++ view engine tx.own) same
                ∙ append_assoc (view engine t) rows (view engine tx.own),
            subst (λ es. Own engine es (rows ++ view engine tx.own))
                (sym (
                  kept-append s.outcomes (ended engine answered tx.events_done ∷ [])
                  ∙ ap (◌++◌ (kept s.outcomes)) (kept-ended answered tx.events_done)))
                (Own-append engine own done.rows),
          ),
        )

  Step-Good : (t : Tables engine) {s u : Shared engine} → Step engine s u → Good t s → Good t u
  Step-Good t (begins s c event events idle) (sound, serial) =
      (begun-IsSound s c (event ∷ events) sound, serial)
  Step-Good t (inserts s c tx event rest faults end runs left h) (sound, serial) =
      (inserted-IsSound s c tx runs sound event rest faults end h, serial)
  Step-Good t (throws s c tx event rest faults what end runs left h) (sound, serial) = (
    gone-IsSound s c end.tables.next_id _
        (save_one-le engine event (visible engine s.committed tx.own) faults (throw what) end h)
        sound,
    refused-IsSerial t s end.tables.next_id c (tx.events_done ++ tx.events_left) serial,
  )
  Step-Good t (breaks s c tx runs) (sound, serial) = (
    gone-IsSound s c s.committed.next_id _ (omega arith) sound,
    refused-IsSerial t s s.committed.next_id c (tx.events_done ++ tx.events_left) serial,
  )
  Step-Good t (commits s c tx answered runs left) (sound, serial) =
      committed-Good s c tx runs sound t answered serial

  Steps-Good :
      (t : Tables engine) {s : Shared engine}
      → IsConsistent engine t
      → Steps engine (quiet engine t) s
      → Good t s
  Steps-Good t h here = (
    record {
      consistent = h;
      each = λ c tx k. absurd (cc k);
      apart = λ c d tx ty ne k l. absurd (cc k);
    },
    ([], sym (append-nil (view engine t)), nothing),
  )
  Steps-Good t h (next steps step) = Step-Good t step (Steps-Good t h steps)

  -- However the transactions of `SaveEvents` overlap on any number of connections, and whatever
  -- faults there are, from consistent tables: the tables stay consistent, and the committed rows
  -- are at every moment those that were there, and behind them the rows of the calls whose COMMIT
  -- was carried out, each in one piece and with its events in order, in the order of the commits.
  -- Those are the calls that reported success, and those whose commit was not answered; nothing
  -- else is ever visible.
  pub Steps-IsSerial :
      (t : Tables engine) {s : Shared engine}
      → IsConsistent engine t
      → Steps engine (quiet engine t) s
      → IsConsistent engine s.committed × IsSerial t s
  Steps-IsSerial t h steps =
      let (sound, serial) = Steps-Good t h steps in (sound.consistent, serial)
