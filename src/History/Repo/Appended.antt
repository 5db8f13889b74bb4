-- ===== src/History/Repo/Appended.antt =====
-- Events stored after others, as one list of stored events.
use mathlib.Core.List.{append_assoc}
use two_services.Base.{
  ℕ, suc, ◌+◌, ◌≡◌, sym, ap, ap₂, ◌∙◌, List, [], ◌∷◌, ◌++◌, length, arith, some, length-append,
}
use two_services.Shared.Dto
use two_services.History.Postgres.{Engine, Tables}
use two_services.History.Repo.Invariant.{Columns, columns, view}
use two_services.History.Repo.Added.{added_row}
use two_services.History.Repo.Save.{
  IsStored, all_columns, added_rows, both_columns, both_columns-parts,
}

module _ (engine : Engine) where
  pub all_columns-cons :
      (x : Dto.Event) (xs : List Dto.Event) (cs : List (Columns engine))
      → all_columns engine (x ∷ xs) ≡ some cs
      → (c : Columns engine) × (rest : List (Columns engine)) × (columns engine x ≡ some c)
        × (all_columns engine xs ≡ some rest)
        × (cs ≡ c ∷ rest)
  unfolding all_columns
  all_columns-cons x xs cs h =
      let ((c, p), (rest, q)) = both_columns-parts engine _ _ cs h in
      (c, rest, p, q, cc (sym h ∙ ap₂ (both_columns engine) p q))

  all_columns-append :
      (xs ys : List Dto.Event) (cs ds : List (Columns engine))
      → all_columns engine xs ≡ some cs
      → all_columns engine ys ≡ some ds
      → all_columns engine (xs ++ ys) ≡ some (cs ++ ds)
  unfolding all_columns
  all_columns-append [] ys [] ds h k = k
  all_columns-append [] ys (c ∷ cs) ds h k = absurd (cc h)
  all_columns-append (x ∷ xs) ys cs ds h k =
      let (c, rest, p, q, e) = all_columns-cons x xs cs h in
      rw (e, p, all_columns-append xs ys rest ds q k)

  added_rows-append :
      (xs ys : List Dto.Event) (cs ds : List (Columns engine)) (id : ℕ)
      → all_columns engine xs ≡ some cs
      → added_rows engine (xs ++ ys) (cs ++ ds) id
        ≡ added_rows engine xs cs id ++ added_rows engine ys ds (id + length xs)
  unfolding all_columns added_rows
  added_rows-append [] ys [] ds id h = ap (added_rows engine ys ds) (omega arith)
  added_rows-append [] ys (c ∷ cs) ds id h = absurd (cc h)
  added_rows-append (x ∷ xs) ys cs ds id h =
      let (c, rest, p, q, e) = all_columns-cons x xs cs h in
      let same : id + 1 + length xs ≡ id + suc (length xs) = omega arith in
      rw e (
        ap (◌∷◌ (added_row engine x c id)) (
          added_rows-append xs ys rest ds (id + 1) q
          ∙ ap (λ n. added_rows engine xs rest (id + 1) ++ added_rows engine ys ds n) same))

  -- Events stored after others.
  pub IsStored-append :
      (xs ys : List Dto.Event) (t u v : Tables engine)
      → IsStored engine xs t u
      → IsStored engine ys u v
      → IsStored engine (xs ++ ys) t v
  IsStored-append xs ys t u v first second = record {
    columns = first.columns ++ second.columns;
    admitted = all_columns-append xs ys first.columns second.columns first.admitted second.admitted;
    rows =
        second.rows
        ∙ ap (λ l. l ++ added_rows engine ys second.columns u.next_id) first.rows
        ∙ append_assoc (view engine t) (added_rows engine xs first.columns t.next_id)
            (added_rows engine ys second.columns u.next_id)
        ∙ ap (◌++◌ (view engine t)) (
            ap
              (λ n.
                added_rows engine xs first.columns t.next_id
                ++ added_rows engine ys second.columns n)
              first.next
            ∙ sym (added_rows-append xs ys first.columns second.columns t.next_id first.admitted));
    consistent = second.consistent;
    next = omega (arith, first.next, second.next, length-append xs ys);
  }
