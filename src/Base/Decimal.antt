-- ===== src/Base/Decimal.antt =====
-- `std::to_string` of an unsigned number, and a reader of digits that takes it back.
use Prim.Native.Nat.{ℕ, zero, suc, ◌+◌, ◌-◌, ◌*◌, ◌/◌, ◌%◌, ◌<◌}
use Prim.Native.Char.{Char, code}
use Prim.Native.String.{String}
use Prim.Native.String
use mathlib.Core.Path.{◌≡◌, refl}
use mathlib.Core.Bool.{Bool, true, false, ◌&&◌}
use native.Mathlib.Omega.{arith}
use two_services.Base.Tests.{ltb, leb, if◌then◌else◌, Bool-cases}
use mathlib.Core.Logic.{inl, inr}

digit : ℕ → Char
digit zero = "0"
digit (suc zero) = "1"
digit (suc (suc zero)) = "2"
digit (suc (suc (suc zero))) = "3"
digit (suc (suc (suc (suc zero)))) = "4"
digit (suc (suc (suc (suc (suc zero))))) = "5"
digit (suc (suc (suc (suc (suc (suc zero)))))) = "6"
digit (suc (suc (suc (suc (suc (suc (suc zero))))))) = "7"
digit (suc (suc (suc (suc (suc (suc (suc (suc zero)))))))) = "8"
digit n = "9"

-- The digits of `n` in front of `rest`; a number has no more digits than the fuel `n + 1`.
emit : ℕ → ℕ → String → String
emit zero n rest = rest
emit (suc fuel) n rest =
    let more = emit fuel (n / 10) (String.◌∷◌ (digit (n % 10)) rest) in
    if ltb n 10 then String.◌∷◌ (digit n) rest else more

unfoldable pub to_string_onto : ℕ → String → String
unfolding emit digit
to_string_onto n rest = emit (suc n) n rest

unfoldable pub to_string : ℕ → String
unfolding to_string_onto
to_string n = to_string_onto n ""

abbrev pub is_digit : Char → Bool
is_digit c = leb 48 (code c) && leb (code c) 57

abbrev pub starts_with_digit : String → Bool
starts_with_digit String.[] = false
starts_with_digit (String.◌∷◌ c s) = is_digit c

-- Reads digits as long as there are any, from the value `n` of those before.
unfoldable pub read_digits : ℕ → String → ℕ × String
read_digits n String.[] = (n, String.[])
read_digits n (String.◌∷◌ c s) =
    let rest = read_digits (n * 10 + (code c - 48)) s in
    if is_digit c then rest else (n, String.◌∷◌ c s)

code-digit : (n : ℕ) → n < 10 → code (digit n) ≡ 48 + n
unfolding digit
code-digit zero h = refl
code-digit (suc zero) h = refl
code-digit (suc (suc zero)) h = refl
code-digit (suc (suc (suc zero))) h = refl
code-digit (suc (suc (suc (suc zero)))) h = refl
code-digit (suc (suc (suc (suc (suc zero))))) h = refl
code-digit (suc (suc (suc (suc (suc (suc zero)))))) h = refl
code-digit (suc (suc (suc (suc (suc (suc (suc zero))))))) h = refl
code-digit (suc (suc (suc (suc (suc (suc (suc (suc zero)))))))) h = refl
code-digit (suc (suc (suc (suc (suc (suc (suc (suc (suc n))))))))) h = omega arith

read_digits-digit :
    (k n : ℕ) (rest : String)
    → n < 10
    → read_digits k (String.◌∷◌ (digit n) rest) ≡ read_digits (k * 10 + n) rest
unfolding read_digits
read_digits-digit k n rest h = ground (arith, code-digit n h)

read_digits-emit :
    (fuel n : ℕ) (rest : String) → n < fuel → read_digits 0 (emit fuel n rest) ≡ read_digits n rest
unfolding emit
read_digits-emit zero n rest h = elim h [ ]
read_digits-emit (suc fuel) n rest h = elim (Bool-cases (ltb n 10)) [
  | inl small ↦ rw small (ground (arith, read_digits-digit 0 n rest))
  | inr large ↦ rw large (
      ground (
        arith,
        read_digits-emit fuel (n / 10) (String.◌∷◌ (digit (n % 10)) rest),
        read_digits-digit (n / 10) (n % 10) rest,
      ))
]

-- Reading back what `to_string` wrote, whatever follows it.
pub read_digits-to_string_onto :
    (n : ℕ) (rest : String) → read_digits 0 (to_string_onto n rest) ≡ read_digits n rest
unfolding to_string_onto
read_digits-to_string_onto n rest = read_digits-emit (suc n) n rest (omega arith)

emit-append :
    (fuel n : ℕ) (rest more : String)
    → String.◌++◌ (emit fuel n rest) more ≡ emit fuel n (String.◌++◌ rest more)
unfolding emit
emit-append zero n rest more = refl
emit-append (suc fuel) n rest more = ground (
  arith,
  String.append.cons (digit n) rest more,
  String.append.cons (digit (n % 10)) rest more,
  emit-append fuel (n / 10) (String.◌∷◌ (digit (n % 10)) rest) more,
)

-- A number followed by a text.
pub to_string-append : (n : ℕ) (s : String) → String.◌++◌ (to_string n) s ≡ to_string_onto n s
unfolding to_string
to_string-append n s = rw (emit-append (suc n) n "" s) (rw String.append.nil)

digit-is_digit : (n : ℕ) → n < 10 → is_digit (digit n) ≡ true
digit-is_digit n h = ground (arith, code-digit n h)

emit-starts_with_digit :
    (fuel n : ℕ) (rest : String)
    → starts_with_digit rest ≡ true
    → starts_with_digit (emit fuel n rest) ≡ true
unfolding emit
emit-starts_with_digit zero n rest h = h
emit-starts_with_digit (suc fuel) n rest h = elim (Bool-cases (ltb n 10)) [
  | inl e ↦ rw e (digit-is_digit n (ground arith))
  | inr e ↦ rw e (emit-starts_with_digit fuel (n / 10) _ (digit-is_digit (n % 10) (omega arith)))
]

pub to_string-starts_with_digit : (n : ℕ) → starts_with_digit (to_string n) ≡ true
unfolding to_string to_string_onto emit
to_string-starts_with_digit n = elim (Bool-cases (ltb n 10)) [
  | inl e ↦ rw e (digit-is_digit n (ground arith))
  | inr e ↦ rw e (emit-starts_with_digit n (n / 10) _ (digit-is_digit (n % 10) (omega arith)))
]

to_string_max_u32 : to_string 4294967295 ≡ "4294967295"
unfolding to_string
to_string_max_u32 = refl
