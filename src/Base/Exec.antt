-- ===== src/Base/Exec.antt =====
-- Calls that may throw a `std::exception`, pure (`Except`) and with state (`Exec`). What was
-- written before a throw stays written, so the state comes back beside the exception too.
use Prim.Native.String.{String}
use mathlib.Core.Path.{◌≡◌, refl, ap}
use mathlib.Core.Logic.{◌⊎◌, inl, inr}

-- `throw what` carries the text of `what()`.
pub data Except {ℓ} (A : Type ℓ) : Type ℓ where
  ok : A → Except A
  throw : String → Except A

abbrev pub Exec {ℓ} : Type ℓ → Type ℓ → Type ℓ
Exec S A = S → Except A × S

module _ {ℓ} {A B : Type ℓ} where
  abbrev pub bind : Except A → (A → Except B) → Except B
  bind (ok a) f = f a
  bind (throw e) f = throw e

  -- The rest of a stateful block, after a call that returned or threw.
  abbrev pub continue {κ} : {S : Type κ} → Except A → (A → S → Except B × S) → S → Except B × S
  continue (ok a) f s = f a s
  continue (throw e) f s = (throw e, s)

  infixl 5 ◌>>=◌ ◌>>◌
  abbrev pub ◌>>=◌ {κ} :
      {S : Type κ} → (S → Except A × S) → (A → S → Except B × S) → S → Except B × S
  ◌>>=◌ m f s = continue (m s).0 f (m s).1

  abbrev pub ◌>>◌ {κ} : {S : Type κ} → (S → Except A × S) → (S → Except B × S) → S → Except B × S
  m >> k = m >>= λ _. k

module _ {ℓ κ} {A : Type ℓ} {S : Type κ} where
  abbrev pub pure : A → S → Except A × S
  pure a s = (ok a, s)

  -- a computation without state, in a stateful block
  abbrev pub lift : Except A → S → Except A × S
  lift r s = (r, s)

module _ {ℓ κ} {A B : Type ℓ} {S : Type κ} where
  -- Inversion of a block that returned.
  pub >>=-eq-ok :
      (m : S → Except A × S) (f : A → S → Except B × S) (s : S) {b : B} {end : S}
      → (m >>= f) s ≡ (ok b, end)
      → (a : A) × (s' : S) × (m s ≡ (ok a, s')) × (f a s' ≡ (ok b, end))
  >>=-eq-ok m f s {b} {end} h = go (m s).0 (m s).1 refl h
    where
      go :
          (r : Except A) (s' : S)
          → m s ≡ (r, s')
          → continue r f s' ≡ (ok b, end)
          → (a : A) × (s' : S) × (m s ≡ (ok a, s')) × (f a s' ≡ (ok b, end))
      go (ok a) s' e k = (a, s', e, k)
      go (throw w) s' e k = absurd (cc (ap (λ q. q.0) k))

pub Except-cases {ℓ} :
    {A : Type ℓ} (r : Except A) → ((a : A) × (r ≡ ok a)) ⊎ ((what : String) × (r ≡ throw what))
Except-cases (ok a) = inl (a, refl)
Except-cases (throw what) = inr (what, refl)
