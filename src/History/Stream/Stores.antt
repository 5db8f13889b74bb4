-- ===== src/History/Stream/Stores.antt =====
-- What `SaveEventsStream` leaves in the store when every `Execute` succeeds.
use two_services.Base.{
  String, nat_eq, ◌%◌, inl, inr, Bool-cases, ℕ, ◌+◌, ◌*◌, ◌/◌, ◌≡◌, refl, sym, ap, ap₂, ◌∙◌, Bool,
  List, [], ◌∷◌, ◌++◌, arith, length, length-append, concat, All, take,
}
use mathlib.Core.List.{append-nil, append_assoc}
use two_services.Base.Exec.{Except, ok, Exec}
use two_services.Shared.Dto
use two_services.Shared.Result.{void_ok}
use two_services.Proto
use two_services.History.UseCases.{UseCases}
use two_services.History.Stream.{
  Reply, batch_size, validation_failed, cancelled_at, saved_of, catch_fatal, finish, log_progress,
  log_interval, stream_completed, save_events_stream,
}
use two_services.History.Stream.Scan.{
  Stop, at_end, cancelled, invalid, scan, IsCut, save_batches, conclude,
}
use two_services.History.Stream.Batches.{save_events_stream-save_batches}

-- `Execute` succeeds and appends its events to the log that `log` reads off the state.
pub record Appends {S : Type 0} (uc : UseCases S) (say : String → S → S) (log : S → List Dto.Event)
    : Type 0 where
  pub after : List Dto.Event → S → S
  pub saves :
      (events : List Dto.Event) (s : S)
      → uc.save_event.execute events s ≡ (ok void_ok, after events s)
  pub log-after : (events : List Dto.Event) (s : S) → log (after events s) ≡ log s ++ events
  pub log-say : (text : String) (s : S) → log (say text s) ≡ log s

-- The events that stay: all of them at the end of the stream, otherwise whole thousands.
abbrev pub stored : Stop → List Dto.Event → List Dto.Event
stored at_end events = events
stored cancelled events = take (length events / batch_size * batch_size) events
stored (invalid message) events = take (length events / batch_size * batch_size) events

-- the part of a rest that fills no batch that stays
abbrev stored_rest : Stop → List Dto.Event → List Dto.Event
stored_rest at_end rest = rest
stored_rest cancelled rest = []
stored_rest (invalid message) rest = []

abbrev pub reply_to : Stop → ℕ → Reply
reply_to at_end total = saved_of total total
reply_to cancelled total = cancelled_at total
reply_to (invalid message) total = validation_failed total message

take-length-append : {A : Type 0} (xs ys : List A) → take (length xs) (xs ++ ys) ≡ xs
take-length-append [] ys = refl
take-length-append (x ∷ xs) ys = ap (◌∷◌ x) (take-length-append xs ys)

length-concat :
    (batches : List (List Dto.Event))
    → All (λ batch. length batch ≡ batch_size) batches
    → length (concat batches) ≡ length batches * batch_size
length-concat [] h = refl
length-concat (b ∷ bs) h = omega (arith, length-append b (concat bs), h.0, length-concat bs h.1)

module _ {events : List Dto.Event} {batches : List (List Dto.Event)} {rest : List Dto.Event} where
  IsCut-length : IsCut events batches rest → length (concat batches) + length rest ≡ length events
  IsCut-length cut = sym (length-append (concat batches) rest) ∙ ap length cut.whole

  -- the full batches are the whole thousands
  IsCut-take :
      IsCut events batches rest
      → concat batches ≡ take (length events / batch_size * batch_size) events
  IsCut-take cut =
      let whole_thousands : length events / batch_size * batch_size ≡ length (concat batches) =
        omega (arith, length-concat batches cut.full, IsCut-length cut) in
      sym (take-length-append (concat batches) rest) ∙ ap₂ take (sym whole_thousands) cut.whole

  IsCut-stored :
      (stop : Stop)
      → IsCut events batches rest
      → concat batches ++ stored_rest stop rest ≡ stored stop events
  IsCut-stored at_end cut = cut.whole
  IsCut-stored cancelled cut = append-nil _ ∙ IsCut-take cut
  IsCut-stored (invalid message) cut = append-nil _ ∙ IsCut-take cut

module _ {S : Type 0} (uc : UseCases S) (say : String → S → S) (log : S → List Dto.Event)
    (store : Appends uc say log) where
  log-log_progress : (total saved : ℕ) (s : S) → log (log_progress uc say total saved s) ≡ log s
  log-log_progress total saved s = elim (Bool-cases (nat_eq (total % log_interval) 0)) [
    | inl e ↦ rw e (store.log-say _ s)
    | inr e ↦ rw e
  ]

  save_batches-stores :
      (batches : List (List Dto.Event)) (saved : ℕ) (next : ℕ → Exec S Reply) (s : S)
      → (s' : S) × (log s' ≡ log s ++ concat batches)
        × (save_batches uc say batches saved next s ≡ next (saved + length (concat batches)) s')
  unfolding save_batches
  save_batches-stores [] saved next s =
      (s, sym (append-nil _), ap (λ (n : ℕ). next n s) (omega arith))
  save_batches-stores (b ∷ bs) saved next s =
      let count = saved + length b in
      let (s', e, f) =
        save_batches-stores bs count next (log_progress uc say count count (store.after b s)) in
      (
        s',
        rw (e, log-log_progress count count (store.after b s), store.log-after b s)
            (append_assoc (log s) b (concat bs)),
        rw (store.saves b s)
            (f ∙ ap (λ (n : ℕ). next n s') (omega (arith, length-append b (concat bs)))),
      )

  conclude-stores :
      (stop : Stop) (rest : List Dto.Event) (saved : ℕ) (s : S)
      → (s' : S) × (log s' ≡ log s ++ stored_rest stop rest)
        × (conclude uc say stop rest saved s ≡ (ok (reply_to stop (saved + length rest)), s'))
  unfolding finish
  conclude-stores at_end [] saved s = (
    say (stream_completed saved (saved + 0)) s,
    store.log-say _ s ∙ sym (append-nil _),
    ap (λ (n : ℕ). (ok (saved_of n (saved + 0)), say (stream_completed saved (saved + 0)) s))
        (omega arith),
  )
  conclude-stores at_end (e ∷ rest) saved s = (
    say (stream_completed (saved + length (e ∷ rest)) (saved + length (e ∷ rest)))
        (store.after (e ∷ rest) s),
    store.log-say _ (store.after (e ∷ rest) s) ∙ store.log-after (e ∷ rest) s,
    rw (store.saves (e ∷ rest) s),
  )
  conclude-stores cancelled rest saved s = (s, sym (append-nil _), refl)
  conclude-stores (invalid message) rest saved s = (s, sym (append-nil _), refl)

  -- With a service whose `Execute` always succeeds and appends its events to a log: the log grows
  -- by all the events of a stream that ends, and the reply counts them all as saved. Where a
  -- message is not valid or the client cancels after `n` valid events, the log grows by the first
  -- `n / 1000 * 1000` of them and no more, and the reply reports the failure at event `n`.
  pub save_events_stream-stored :
      (stream : List (Proto.SaveEventsRequest × Bool)) (s : S)
      → let (events, stop) = scan stream in
        (s' : S) × (log s' ≡ log s ++ stored stop events)
        × (save_events_stream uc say stream s ≡ (reply_to stop (length events), s'))
  save_events_stream-stored stream s =
      let (batches, rest, cut, runs) = save_events_stream-save_batches uc say stream in
      let (events, stop) = scan stream in
      let (middle, log_middle, run_middle) =
        save_batches-stores batches 0 (conclude uc say stop rest) s in
      let (end, log_end, run_end) =
        conclude-stores stop rest (0 + length (concat batches)) middle in
      (
        end,
        log_end
            ∙ ap (λ l. l ++ stored_rest stop rest) log_middle
            ∙ append_assoc (log s) (concat batches) (stored_rest stop rest)
            ∙ ap (◌++◌ (log s)) (IsCut-stored stop cut),
        runs s
            ∙ ap (λ (q : Except Reply × S). (catch_fatal q.0, q.1)) (run_middle ∙ run_end)
            ∙ ap (λ (n : ℕ). (reply_to stop n, end)) (omega (arith, IsCut-length cut)),
      )
