-- ===== src/Base/Order.antt =====
-- What a permutation leaves alone: the length, a test on every element, and a count.
use Prim.Native.Nat.{ℕ, suc}
use mathlib.Core.Path.{◌≡◌, refl, ap, ap₂, ◌∙◌}
use mathlib.Core.Bool.{Bool, true, ◌&&◌, Bool-set}
use mathlib.Core.Logic.{∥∥₁_elim}
use mathlib.Core.List.{List, [], ◌∷◌, Perm, Permᴰ}
use native.Mathlib.Nat.{ℕ_set}
use native.Mathlib.Omega.{arith}
use two_services.Base.Lists.{length, take, drop}
use two_services.Base.Tests.{if◌then◌else◌}

module _ {ℓ} {A : Type ℓ} where
  length-Permᴰ : {xs ys : List A} → Permᴰ xs ys → length xs ≡ length ys
  length-Permᴰ Permᴰ.nil = refl
  length-Permᴰ (Permᴰ.cons x p) = ap suc (length-Permᴰ p)
  length-Permᴰ (Permᴰ.swap e f) = refl
  length-Permᴰ (Permᴰ.trans p q) = length-Permᴰ p ∙ length-Permᴰ q

  pub length-Perm : {xs ys : List A} → Perm xs ys → length xs ≡ length ys
  length-Perm p = ∥∥₁_elim p (ℕ_set _ _) length-Permᴰ

  abbrev pub all : (A → Bool) → List A → Bool
  all test [] = true
  all test (x ∷ xs) = test x && all test xs

  abbrev pub count_if : (A → Bool) → List A → ℕ
  count_if test [] = 0
  count_if test (x ∷ xs) = let rest = count_if test xs in if test x then suc rest else rest

  module _ (test : A → Bool) where
    count_if-Permᴰ : {xs ys : List A} → Permᴰ xs ys → count_if test xs ≡ count_if test ys
    count_if-Permᴰ Permᴰ.nil = refl
    count_if-Permᴰ (Permᴰ.cons e p) = ground (arith, ap test e, count_if-Permᴰ p)
    count_if-Permᴰ (Permᴰ.swap e f) = ground (arith, ap test e, ap test f)
    count_if-Permᴰ (Permᴰ.trans p q) = count_if-Permᴰ p ∙ count_if-Permᴰ q

    pub count_if-Perm : {xs ys : List A} → Perm xs ys → count_if test xs ≡ count_if test ys
    count_if-Perm p = ∥∥₁_elim p (ℕ_set _ _) count_if-Permᴰ

    all-Permᴰ : {xs ys : List A} → Permᴰ xs ys → all test xs ≡ all test ys
    all-Permᴰ Permᴰ.nil = refl
    all-Permᴰ (Permᴰ.cons e p) = ap₂ (◌&&◌) (ap test e) (all-Permᴰ p)
    all-Permᴰ (Permᴰ.swap e f) = ground (arith, ap test e, ap test f)
    all-Permᴰ (Permᴰ.trans p q) = all-Permᴰ p ∙ all-Permᴰ q

    pub all-Perm : {xs ys : List A} → Perm xs ys → all test xs ≡ all test ys
    all-Perm p = ∥∥₁_elim p (Bool-set _ _) all-Permᴰ

    pub all-take : (n : ℕ) (xs : List A) → all test xs ≡ true → all test (take n xs) ≡ true
    all-take ℕ.zero xs h = refl
    all-take (suc n) [] h = refl
    all-take (suc n) (x ∷ xs) h = ground (arith, all-take n xs)

    pub all-drop : (n : ℕ) (xs : List A) → all test xs ≡ true → all test (drop n xs) ≡ true
    all-drop ℕ.zero xs h = h
    all-drop (suc n) [] h = refl
    all-drop (suc n) (x ∷ xs) h = all-drop n xs (ground arith)
