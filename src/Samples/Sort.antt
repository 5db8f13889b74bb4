-- ===== src/Samples/Sort.antt =====
-- A stable sort by a numeric key, for the ORDER BY of the sample database.
use mathlib.Core.List.{Perm, Pairwise, Mem, not-mem-nil, eq-or-mem_of_mem-cons}
use mathlib.Core.List.Perm
use mathlib.Core.Bool.{Bool-set}
use mathlib.Core.Logic.{∥∥₁_elim}
use two_services.Base.{
  ℕ, ◌≡◌, sym, subst, inl, inr, true, false, List, [], ◌∷◌, leb, if◌then◌else◌, Bool-cases, arith,
}

leb_trans : (a b c : ℕ) → leb a b ≡ true → leb b c ≡ true → leb a c ≡ true
leb_trans a b c h k = ground arith

leb_total : (a b : ℕ) → leb a b ≡ false → leb b a ≡ true
leb_total a b h = ground arith

module _ {A : Type 0} (key : A → ℕ) where
  abbrev pub insert : A → List A → List A
  insert a [] = a ∷ []
  insert a (b ∷ l) = let rest = insert a l in if leb (key a) (key b) then a ∷ b ∷ l else b ∷ rest

  abbrev pub sort : List A → List A
  sort [] = []
  sort (a ∷ l) = insert a (sort l)

  abbrev InOrder : A → A → Type 0
  InOrder a b = leb (key a) (key b) ≡ true

  insert-Perm : (a : A) (l : List A) → Perm (insert a l) (a ∷ l)
  insert-Perm a [] = Perm.refl (a ∷ [])
  insert-Perm a (b ∷ l) = elim (Bool-cases (leb (key a) (key b))) [
    | inl e ↦ rw e (Perm.refl (a ∷ b ∷ l))
    | inr e ↦ rw e (Perm.trans (Perm.cons b (insert-Perm a l)) (Perm.swap a b l))
  ]

  pub sort-Perm : (l : List A) → Perm (sort l) l
  sort-Perm [] = Perm.nil
  sort-Perm (a ∷ l) = Perm.trans (insert-Perm a (sort l)) (Perm.cons a (sort-Perm l))

  InOrder-all :
      (a b : A) (l : List A)
      → InOrder a b
      → ((x : A) → Mem x l → InOrder a x)
      → (c : A) → Mem c (b ∷ l)
      → InOrder a c
  InOrder-all a b l h k c m =
      ∥∥₁_elim (eq-or-mem_of_mem-cons m) (Bool-set _ _)
        (λ d. elim d [ inl e ↦ subst (InOrder a) (sym e) h | inr q ↦ k c q ])

  insert-sorted : (a : A) (l : List A) → Pairwise InOrder l → Pairwise InOrder (insert a l)
  insert-sorted a [] p = Pairwise.cons (λ c m. absurd (not-mem-nil m)) Pairwise.nil
  insert-sorted a (b ∷ l) (Pairwise.cons h p) = elim (Bool-cases (leb (key a) (key b))) [
    | inl e ↦ rw e (
        Pairwise.cons (InOrder-all a b l e (λ c m. leb_trans (key a) (key b) (key c) e (h c m)))
          (Pairwise.cons h p))
    | inr e ↦ rw e (
        Pairwise.cons
          (λ c m.
            InOrder-all b a l (leb_total (key a) (key b) e) h c
              ((Perm.mem_iff (insert-Perm a l)).0 m))
          (insert-sorted a l p))
  ]

  pub sort-sorted : (l : List A) → Pairwise InOrder (sort l)
  sort-sorted [] = Pairwise.nil
  sort-sorted (a ∷ l) = insert-sorted a (sort l) (sort-sorted l)
