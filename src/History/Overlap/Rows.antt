-- ===== src/History/Overlap/Rows.antt =====
-- Rows of several transactions beside one another: what a query sees of them.
use mathlib.Core.List.{map-append, append_assoc}
use two_services.Base.{
  ℕ, ◌+◌, ◌<◌, ◌≡◌, refl, sym, ap, ap₂, ◌∙◌, none, some, List, [], ◌∷◌, ◌++◌, map, arith, All,
  length, drop,
}
use two_services.Shared.Dto
use two_services.History.Postgres.{Engine, Tables, EventRow, PayloadRow, find_payload}
use two_services.History.Postgres.Select.{Joined, join}
use two_services.History.Repo.Invariant.{
  view, IsGood, Columns, columns, event_row, payload_row, added,
}
use two_services.History.Repo.Added.{added_row}
use two_services.History.Overlap.{visible, own_of, advance}

drop-length-append : {A : Type 0} (xs ys : List A) → drop (length xs) (xs ++ ys) ≡ ys
drop-length-append [] ys = refl
drop-length-append (x ∷ xs) ys = drop-length-append xs ys

module _ (engine : Engine) where
  -- No payload of these events stands among these payloads.
  abbrev pub Absent : List (PayloadRow engine) → List (EventRow engine) → Type 0
  Absent payloads = All (λ (row : EventRow engine). find_payload engine row.id payloads ≡ none)

  -- The rows are those of the events, in their order, under any identifiers.
  pub data Own : List Dto.Event → List (Joined engine) → Type 0 where
    nothing : Own [] []
    row :
        {events : List Dto.Event} {rows : List (Joined engine)} (event : Dto.Event)
        (c : Columns engine) (id : ℕ)
        → columns engine event ≡ some c
        → Own events rows
        → Own (event ∷ events) (added_row engine event c id ∷ rows)

  pub Own-append :
      {events more : List Dto.Event} {rows others : List (Joined engine)}
      → Own events rows
      → Own more others
      → Own (events ++ more) (rows ++ others)
  Own-append nothing v = v
  Own-append (row event c id e u) v = row event c id e (Own-append u v)

  find_payload-append_none :
      (id : ℕ) (first second : List (PayloadRow engine))
      → find_payload engine id first ≡ none
      → find_payload engine id (first ++ second) ≡ find_payload engine id second
  find_payload-append_none id [] second h = refl
  find_payload-append_none id (p ∷ first) second h =
      ground (arith, find_payload-append_none id first second)

  find_payload-append_some :
      (id : ℕ) (first second : List (PayloadRow engine)) (p : PayloadRow engine)
      → find_payload engine id first ≡ some p
      → find_payload engine id (first ++ second) ≡ some p
  find_payload-append_some id [] second p h = absurd (cc h)
  find_payload-append_some id (q ∷ first) second p h =
      ground (arith, find_payload-append_some id first second p)

  pub Absent-append :
      (first second : List (PayloadRow engine)) (events : List (EventRow engine))
      → Absent first events
      → Absent second events
      → Absent (first ++ second) events
  Absent-append first second [] h k = tt
  Absent-append first second (e ∷ events) h k = (
    find_payload-append_none e.id first second h.0 ∙ k.0,
    Absent-append first second events h.1 k.1,
  )

  pub Absent-nil : (events : List (EventRow engine)) → Absent [] events
  Absent-nil [] = tt
  Absent-nil (e ∷ events) = (refl, Absent-nil events)

  -- A payload under a new identifier belongs to none of the events.
  pub Absent-new :
      (n : ℕ) (payloads : List (PayloadRow engine)) (p : PayloadRow engine)
      (events : List (EventRow engine))
      → p.event_id ≡ n
      → All (λ (row : EventRow engine). row.id < n) events
      → Absent payloads events
      → Absent (payloads ++ p ∷ []) events
  Absent-new n payloads p [] e h k = tt
  Absent-new n payloads p (r ∷ events) e h k = (
    find_payload-append_none r.id payloads (p ∷ []) k.0 ∙ ground (arith, h.0),
    Absent-new n payloads p events e h.1 k.1,
  )

  module _ (t own : Tables engine) where
    -- rows that have their payloads keep them
    join-first :
        (rows : List (EventRow engine))
        → All (IsGood engine) (map (join engine t) rows)
        → map (join engine (visible engine t own)) rows ≡ map (join engine t) rows
    join-first [] h = refl
    join-first (r ∷ rows) h =
        let (source, status, (p, found, decision)) = h.0 in
        let there : find_payload engine r.id t.payloads ≡ some p = found in
        ap₂ ◌∷◌
          (ap (λ o. record { event = r; payload = o })
            (find_payload-append_some r.id t.payloads own.payloads p there ∙ sym there))
          (join-first rows h.1)

    join-second :
        (rows : List (EventRow engine))
        → Absent t.payloads rows
        → map (join engine (visible engine t own)) rows ≡ map (join engine own) rows
    join-second [] h = refl
    join-second (r ∷ rows) h =
        ap₂ ◌∷◌
          (ap (λ o. record { event = r; payload = o })
            (find_payload-append_none r.id t.payloads own.payloads h.0))
          (join-second rows h.1)

    -- What a transaction sees are the committed rows, and its own behind them.
    pub view-visible :
        All (IsGood engine) (view engine t)
        → Absent t.payloads own.events
        → view engine (visible engine t own) ≡ view engine t ++ view engine own
    view-visible good absent =
        map-append (join engine (visible engine t own)) t.events own.events
        ∙ ap₂ (◌++◌) (join-first t.events good) (join-second own.events absent)

  -- What one more event adds to the rows of a transaction.
  pub own_of-added :
      (e : Dto.Event) (c : Columns engine) (t own u : Tables engine)
      → u ≡ added engine e c (visible engine t own)
      → own_of engine t u ≡ added engine e c (advance engine t.next_id own)
  own_of-added e c t own u h =
      ap (own_of engine t) h
      ∙ ap₂
          (λ events payloads. record {
            events = events;
            payloads = payloads;
            next_id = t.next_id + 1;
          })
          (ap (drop (length t.events)) (append_assoc t.events own.events _)
            ∙ drop-length-append t.events (own.events ++ event_row engine e c t.next_id ∷ []))
          (ap (drop (length t.payloads)) (append_assoc t.payloads own.payloads _)
            ∙ drop-length-append t.payloads (own.payloads ++ payload_row engine e c t.next_id ∷ []))
