-- ===== src/Ipv4Filter/GrpcService/Progress.antt =====
-- What `SaveBatchStream` of services/ipv4_filter/network/grpc_service.cc prints while it writes.
use mathlib.Core.List.{append_assoc}
use Prim.Native.String.{◌++◌ as append}
use two_services.Base.Decimal.{to_string}
use two_services.Base.{
  zero, suc, ap₂, ℕ, map, ◌-◌, ◌<◌, ◌≢◌, ◌+◌, ◌*◌, ◌/◌, ◌%◌, ◌≡◌, refl, ap, ◌∙◌, inl, inr, String,
  true, false, Option, some, List, [], ◌∷◌, ◌++◌, length, arith, nat_eq, Bool-cases,
}
use two_services.Shared.Dto
use two_services.Utils.Convert.{TimeUtil, to_proto_event}
use two_services.Shared.Console.{Console, say, in_world}
use two_services.Ipv4Filter.GrpcService.{
  Stub, write_all, say_progress, progress_line, progress_interval,
}

-- The whole ten thousands behind the `k`th, so many of them.
abbrev pub ten_thousands : ℕ → ℕ → List ℕ
ten_thousands k zero = []
ten_thousands k (suc m) = suc k * 10000 ∷ ten_thousands (suc k) m

-- The line for so many events of a total, with a percentage.
abbrev pub report : ℕ → ℕ → ℕ → String
report sent total percent = append "Progress: " (
    append (to_string sent)
      (append "/" (append (to_string total) (append " (" (append (to_string percent) "%)\n")))))

-- The lines for the counts that are reported on the way, with the part of the total that each is, and the
-- line for the total.
abbrev pub reports : ℕ → List ℕ → List String
reports total counts =
    map (λ n. report n total (n * 100 / total)) counts ++ report total total 100 ∷ []

-- The counts on the way from `n` to `total`: the whole ten thousands between them.
record IsProgress (n total : ℕ) (counts : List ℕ) : Type 0 where
  number : ℕ
  ends : n / 10000 + number ≡ (total - 1) / 10000
  whole : counts ≡ ten_thousands (n / 10000) number

nat_eq-true : (a b : ℕ) → nat_eq a b ≡ true → a ≡ b
nat_eq-true a b h = ground arith

nat_eq-false : (a b : ℕ) → a < b → nat_eq a b ≡ false
nat_eq-false a b h = ground arith

module _ (n total : ℕ) (counts : List ℕ) (p : IsProgress (n + 1) total counts) where
  IsProgress-cons : (n + 1) % 10000 ≡ 0 → IsProgress n total ((n + 1) ∷ counts)
  IsProgress-cons h =
      let next : (n + 1) / 10000 ≡ suc (n / 10000) = omega arith in
      let whole : n + 1 ≡ suc (n / 10000) * 10000 = omega arith in
      let ends = p.ends in
      record {
        number = suc p.number;
        ends = omega arith;
        whole = ap₂ (◌∷◌) whole (p.whole ∙ ap (λ (k : ℕ). ten_thousands k p.number) next);
      }

  IsProgress-skip : nat_eq ((n + 1) % 10000) 0 ≡ false → IsProgress n total counts
  IsProgress-skip h =
      let other : (n + 1) % 10000 ≢ 0 = ground arith in
      let next : (n + 1) / 10000 ≡ n / 10000 = omega arith in
      let ends = p.ends in
      record {
        number = p.number;
        ends = omega arith;
        whole = p.whole ∙ ap (λ (k : ℕ). ten_thousands k p.number) next;
      }

IsProgress-nil : (total n : ℕ) → n + 1 ≡ total → IsProgress n total []
IsProgress-nil total n h = record { number = 0; ends = omega arith; whole = refl }

hundred-percent : (total : ℕ) → 0 < total → total * 100 / total ≡ 100
hundred-percent total h = grind arith

-- the line for the total
progress_line_last : (total : ℕ) → 0 < total → progress_line total total ≡ report total total 100
progress_line_last total h = ap (report total total) (hundred-percent total h)

module _ {W : Type 0} (total n : ℕ) (c : Console W) where
  say_progress_last : n ≡ total → say_progress n total c ≡ say (progress_line total total) c
  say_progress_last h =
      let same : nat_eq n total ≡ true = ground arith in
      elim (Bool-cases (nat_eq (n % progress_interval) 0)) [
        | inl e ↦ rw e (ap (λ (k : ℕ). say (progress_line k total) c) h)
        | inr e ↦ rw (e, same) (ap (λ (k : ℕ). say (progress_line k total) c) h)
      ]

  say_progress_whole :
      nat_eq (n % progress_interval) 0 ≡ true
      → say_progress n total c ≡ say (progress_line n total) c
  say_progress_whole h = rw h

  say_progress_skip :
      nat_eq (n % progress_interval) 0 ≡ false → n < total → say_progress n total c ≡ c
  say_progress_skip h more = rw (h, nat_eq-false n total more)

module _ {W : Type 0} (time : TimeUtil) (stub : Stub time.Timestamp W) where
  -- What a loop from the `n`th event on has printed, once it has come to its end.
  abbrev Reports : ℕ → ℕ → List String → Option ℕ × Console W → Type 0
  Reports total n printed outcome =
      (counts : List ℕ) × IsProgress n total counts
      × (outcome.0 ≡ some total)
      × (outcome.1.printed ≡ printed ++ reports total counts)

  write_all-Reports :
      (total n : ℕ) (event : Dto.Event) (events : List Dto.Event) (c : Console W) (count : ℕ)
      → n + length (event ∷ events) ≡ total
      → (write_all time stub total n (event ∷ events) c).0 ≡ some count
      → Reports total n c.printed (write_all time stub total n (event ∷ events) c)
  unfolding write_all
  write_all-Reports total n event [] c count size h =
      let writing = in_world (stub.write (record { event = some (to_proto_event event) })) c in
      elim (Bool-cases writing.0) [
        | inl written ↦
            rw (written, say_progress_last total (n + 1) writing.1 (omega arith))
              (
                [],
                IsProgress-nil total n size,
                ap some size,
                ap (λ text. c.printed ++ text ∷ []) (progress_line_last total (omega arith)),
              )
        | inr failed ↦ absurd (cc (rw failed at h))
      ]
  write_all-Reports total n event (next ∷ events) c count size h =
      let writing = in_world (stub.write (record { event = some (to_proto_event event) })) c in
      let more : n + 1 < total = omega arith in
      elim (Bool-cases writing.0) [
        | inl written ↦ elim (Bool-cases (nat_eq ((n + 1) % progress_interval) 0)) [
          | inl e ↦
              let whole = say_progress_whole total (n + 1) writing.1 e in
              let spoken = say (progress_line (n + 1) total) writing.1 in
              let (counts, progress, ends, printed) =
                write_all-Reports total (n + 1) next events spoken count (omega arith)
                  (rw (written, whole) at h) in
              rw (written, whole)
                (
                  (n + 1) ∷ counts,
                  IsProgress-cons n total counts progress (nat_eq-true _ _ e),
                  ends,
                  printed
                      ∙ append_assoc c.printed (progress_line (n + 1) total ∷ [])
                          (reports total counts),
                )
          | inr e ↦
              let skip = say_progress_skip total (n + 1) writing.1 e more in
              let (counts, progress, ends, printed) =
                write_all-Reports total (n + 1) next events writing.1 count (omega arith)
                  (rw (written, skip) at h) in
              rw (written, skip) (counts, IsProgress-skip n total counts progress e, ends, printed)
        ]
        | inr failed ↦ absurd (cc (rw failed at h))
      ]

  -- Where `SaveBatchStream` has written all its events, it counts them all as sent, and has printed a
  -- line for each whole ten thousand of them short of the total, in order, with its part of the total in
  -- per cent, rounded down, and at the end the line for the total, with a hundred per cent.
  pub write_all_progress :
      (event : Dto.Event) (events : List Dto.Event) (c : Console W) (count : ℕ)
      → (write_all time stub (length (event ∷ events)) 0 (event ∷ events) c).0 ≡ some count
      → let total = length (event ∷ events) in
        let outcome = write_all time stub total 0 (event ∷ events) c in
        (outcome.0 ≡ some total)
        × (outcome.1.printed ≡ c.printed ++ reports total (ten_thousands 0 ((total - 1) / 10000)))
  write_all_progress event events c count h =
      let total = length (event ∷ events) in
      let (counts, progress, ends, printed) =
        write_all-Reports total 0 event events c count (omega arith) h in
      let number_ends = progress.ends in
      let number : progress.number ≡ (total - 1) / 10000 = omega arith in
      (
        ends,
        printed
            ∙ ap (λ l. c.printed ++ reports total l)
                (progress.whole ∙ ap (λ (m : ℕ). ten_thousands 0 m) number),
      )
