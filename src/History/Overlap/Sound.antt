-- ===== src/History/Overlap/Sound.antt =====
-- What holds of transactions that overlap, at every moment.
use two_services.Base.{
  ℕ, ◌+◌, ◌<◌, ◌≤◌, ◌≡◌, refl, sym, subst, inl, inr, false, Option, none, some, List, [], ◌∷◌, ◌++◌,
  arith, All-mono, All-append, All-append_one, nat_eq, Bool-cases,
}
use two_services.Shared.Dto
use two_services.History.Postgres.{Engine, Tables, EventRow, PayloadRow, find_payload}
use two_services.History.Repo.Invariant.{
  view, IsGood, IsConsistent, Columns, columns, event_row, payload_row, added, find_payload-fresh,
}
use two_services.History.Repo.Added.{columns-IsGood, view-added, added-IsConsistent}
use two_services.History.Overlap.{Txn, Shared, Outcome, visible, assign, advance}
use two_services.History.Overlap.Rows.{
  Absent, Own, nothing, row, Own-append, Absent-append, Absent-new, view-visible,
}

module _ (engine : Engine) where
  -- A transaction has put in the rows of the events that it is done with, under identifiers that
  -- the sequence has given, and nobody else's.
  pub record TxnSound (t : Tables engine) (tx : Txn engine) : Type 0 where
    pub consistent : IsConsistent engine (advance engine t.next_id tx.own)
    pub absent : Absent engine t.payloads tx.own.events
    pub rows : Own engine tx.events_done (view engine tx.own)

  -- Two transactions have no identifier in common.
  abbrev pub Apart : Txn engine → Txn engine → Type 0
  Apart tx ty =
      Absent engine ty.own.payloads tx.own.events × Absent engine tx.own.payloads ty.own.events

  pub record IsSound (s : Shared engine) : Type 0 where
    pub consistent : IsConsistent engine s.committed
    pub each : (c : ℕ) (tx : Txn engine) → s.running c ≡ some tx → TxnSound s.committed tx
    pub apart :
        (c d : ℕ) (tx ty : Txn engine)
        → nat_eq d c ≡ false
        → s.running c ≡ some tx
        → s.running d ≡ some ty
        → Apart tx ty

  -- a transaction on another connection
  abbrev pub Other : (ℕ → Option (Txn engine)) → ℕ → Txn engine → Type 0
  Other running c ty = (d : ℕ) × (nat_eq d c ≡ false) × (running d ≡ some ty)

  -- `IsSound` with the transaction of one connection replaced.
  pub IsSound-assign :
      (s : Shared engine) (t : Tables engine) (c : ℕ) (x : Option (Txn engine))
      (outcomes : List (Outcome engine))
      → IsSound s
      → IsConsistent engine t
      → ((ty : Txn engine) → Other s.running c ty → TxnSound t ty)
      → ((tx : Txn engine) → x ≡ some tx → TxnSound t tx)
      → ((tx ty : Txn engine) → x ≡ some tx → Other s.running c ty → Apart tx ty)
      → IsSound
          (record { committed = t; running = assign engine c x s.running; outcomes = outcomes })
  IsSound-assign s t c x outcomes sound consistent others own between = record {
    consistent = consistent;
    each = λ d ty h. elim (Bool-cases (nat_eq d c)) [
      | inl e ↦ own ty (rw e at h)
      | inr e ↦ others ty (d, e, rw e at h)
    ];
    apart = λ d f tx ty ne h k. elim (Bool-cases (nat_eq d c)) [
      | inl e ↦ elim (Bool-cases (nat_eq f c)) [
        | inl g ↦ absurd (ground arith)
        | inr g ↦ between tx ty (rw e at h) (f, g, rw g at k)
      ]
      | inr e ↦ elim (Bool-cases (nat_eq f c)) [
        | inl g ↦ let (a, b) = between ty tx (rw g at k) (d, e, rw e at h) in (b, a)
        | inr g ↦ sound.apart d f tx ty ne (rw e at h) (rw g at k)
      ]
    ];
  }

  pub IsConsistent-advance :
      (t : Tables engine) (n : ℕ)
      → t.next_id ≤ n
      → IsConsistent engine t
      → IsConsistent engine (advance engine n t)
  IsConsistent-advance t n le h = record {
    fresh_events =
        All-mono (λ (r : EventRow engine). r.id < t.next_id) _ (λ r f. omega arith) t.events
          h.fresh_events;
    fresh_payloads =
        All-mono (λ (p : PayloadRow engine). p.event_id < t.next_id) _ (λ p f. omega arith)
          t.payloads h.fresh_payloads;
    good = h.good;
  }

  pub TxnSound-advance :
      (t : Tables engine) (n : ℕ) (tx : Txn engine)
      → t.next_id ≤ n
      → TxnSound t tx
      → TxnSound (advance engine n t) tx
  TxnSound-advance t n tx le h = record {
    consistent = IsConsistent-advance (advance engine t.next_id tx.own) n le h.consistent;
    absent = h.absent;
    rows = h.rows;
  }

  -- The committed rows, and those of a transaction that commits.
  module _ (t : Tables engine) (tx : Txn engine) (consistent : IsConsistent engine t)
      (sound : TxnSound t tx) where
    pub visible-IsConsistent : IsConsistent engine (visible engine t tx.own)
    visible-IsConsistent = record {
      fresh_events =
          All-append _ t.events tx.own.events consistent.fresh_events sound.consistent.fresh_events;
      fresh_payloads =
          All-append _ t.payloads tx.own.payloads consistent.fresh_payloads
            sound.consistent.fresh_payloads;
      good = rw (view-visible engine t tx.own consistent.good sound.absent) (
          All-append (IsGood engine) (view engine t) (view engine tx.own) consistent.good
            sound.consistent.good);
    }

    pub TxnSound-visible :
        (ty : Txn engine) → TxnSound t ty → Apart tx ty → TxnSound (visible engine t tx.own) ty
    TxnSound-visible ty other apart = record {
      consistent = other.consistent;
      absent = Absent-append engine t.payloads tx.own.payloads ty.own.events other.absent apart.1;
      rows = other.rows;
    }

  -- An event more in a transaction.
  module _ (t : Tables engine) (tx : Txn engine) (sound : TxnSound t tx) (e : Dto.Event)
      (c : Columns engine) (admitted : columns engine e ≡ some c) (left : List Dto.Event) where
    abbrev pub grown : Txn engine
    grown = record {
      events_left = left;
      events_done = tx.events_done ++ e ∷ [];
      own = added engine e c (advance engine t.next_id tx.own);
    }

    pub grown-TxnSound : IsConsistent engine t → TxnSound (advance engine (t.next_id + 1) t) grown
    grown-TxnSound consistent = record {
      consistent =
          added-IsConsistent engine e c (advance engine t.next_id tx.own) sound.consistent
            (columns-IsGood engine e c admitted t.next_id);
      absent =
          All-append_one (λ (r : EventRow engine). find_payload engine r.id t.payloads ≡ none)
            tx.own.events (event_row engine e c t.next_id) sound.absent
            (find_payload-fresh engine t.next_id t.payloads consistent.fresh_payloads);
      rows =
          subst (Own engine (tx.events_done ++ e ∷ []))
            (sym (view-added engine e c (advance engine t.next_id tx.own) sound.consistent))
            (Own-append engine sound.rows (row e c t.next_id admitted nothing));
    }

    pub grown-Apart : (ty : Txn engine) → TxnSound t ty → Apart tx ty → Apart grown ty
    grown-Apart ty other apart = (
      All-append_one (λ (r : EventRow engine). find_payload engine r.id ty.own.payloads ≡ none)
          tx.own.events (event_row engine e c t.next_id) apart.0
          (find_payload-fresh engine t.next_id ty.own.payloads other.consistent.fresh_payloads),
      Absent-new engine t.next_id tx.own.payloads (payload_row engine e c t.next_id) ty.own.events
          refl other.consistent.fresh_events apart.1,
    )
