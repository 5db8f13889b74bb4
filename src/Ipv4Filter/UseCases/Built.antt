-- ===== src/Ipv4Filter/UseCases/Built.antt =====
-- What `SaveEventUseCase::Execute` sends, described without its batches.
use mathlib.Core.List.{append_assoc, append-nil}
use two_services.Base.{
  ℕ, suc, ◌+◌, ◌≡◌, sym, ap, ap₂, ◌∙◌, inl, inr, String, List, [], ◌∷◌, ◌++◌, concat, length,
  length-append, arith, ◌==◌, if◌then◌else◌, Bool-cases,
}
use two_services.Shared.Dto
use two_services.NetLogger.{NetLogger}
use two_services.Utils.Builder.{Clock}
use two_services.Ipv4Filter.EventBuilder.{build, event_at, event_builder}
use two_services.Ipv4Filter.UseCases.{on_batch, on_batches}

module _ (net : NetLogger) (clock : Clock) (now : ℕ → clock.TimePoint) (src : String) where
  -- The events of the entries, when the clock was read `k` times before.
  unfoldable pub built : List net.LogEntry → ℕ → List Dto.Event
  built [] k = []
  built (entry ∷ entries) k =
      let without = built entries k in
      let others = built entries (suc k) in
      if net.raw_line entry == ""
      then without
      else event_at net clock now src entry (now k) ∷ others

  plus_zero : (k : ℕ) → k ≡ k + 0
  plus_zero k = omega arith

  one_more : (k n : ℕ) → suc k + n ≡ k + suc n
  one_more k n = omega arith

  built-append :
      (xs ys : List net.LogEntry) (k : ℕ)
      → built (xs ++ ys) k ≡ built xs k ++ built ys (k + length (built xs k))
  unfolding built
  built-append [] ys k = ap (built ys) (plus_zero k)
  built-append (entry ∷ xs) ys k = elim (Bool-cases (net.raw_line entry == "")) [
    | inl e ↦ rw e (built-append xs ys k)
    | inr e ↦ rw e (
        ap (◌∷◌ (event_at net clock now src entry (now k))) (
          built-append xs ys (suc k)
          ∙ ap (λ n. built xs (suc k) ++ built ys n) (one_more k (length (built xs (suc k))))))
  ]

  on_batch-built :
      (entries : List net.LogEntry) (events : List Dto.Event) (k : ℕ)
      → on_batch net (event_builder net clock now src) entries (events, k)
        ≡ (events ++ built entries k, k + length (built entries k))
  unfolding on_batch built build
  on_batch-built [] events k = ap₂ (λ l n. (l, n)) (sym (append-nil events)) (plus_zero k)
  on_batch-built (entry ∷ entries) events k = elim (Bool-cases (net.raw_line entry == "")) [
    | inl e ↦ rw (e, build) (on_batch-built entries events k)
    | inr e ↦
        rw (e, build)
          (on_batch-built entries (events ++ event_at net clock now src entry (now k) ∷ []) (suc k)
            ∙ ap₂ (λ l n. (l, n))
                (append_assoc events (event_at net clock now src entry (now k) ∷ [])
                  (built entries (suc k)))
                (one_more k (length (built entries (suc k)))))
  ]

  on_batches-onto :
      (batches : List (List net.LogEntry)) (events : List Dto.Event) (k : ℕ)
      → on_batches net (event_builder net clock now src) batches (events, k)
        ≡ (events ++ built (concat batches) k, k + length (built (concat batches) k))
  unfolding on_batches built
  on_batches-onto [] events k = ap₂ (λ l n. (l, n)) (sym (append-nil events)) (plus_zero k)
  on_batches-onto (batch ∷ batches) events k =
      let both : k
            + length (built batch k)
            + length (built (concat batches) (k + length (built batch k)))
          ≡ k + length (built batch k ++ built (concat batches) (k + length (built batch k))) =
        omega (
          arith,
          length-append (built batch k) (built (concat batches) (k + length (built batch k))),
        ) in
      ap (on_batches net (event_builder net clock now src) batches) (on_batch-built batch events k)
      ∙ on_batches-onto batches (events ++ built batch k) (k + length (built batch k))
      ∙ ap₂ (λ l n. (l, n))
          (append_assoc events (built batch k)
            (built (concat batches) (k + length (built batch k))))
          both
      ∙ ap (λ l. (events ++ l, k + length l)) (sym (built-append batch (concat batches) k))

  -- The batches of a stream make one event of each entry that has a line, in the order of the entries,
  -- each with its own reading of the clock; where one batch ends and the next begins makes no difference.
  pub on_batches-built :
      (batches : List (List net.LogEntry)) (k : ℕ)
      → on_batches net (event_builder net clock now src) batches ([], k)
        ≡ (built (concat batches) k, k + length (built (concat batches) k))
  on_batches-built batches k = on_batches-onto batches [] k
