-- ===== src/Utils/Address.antt =====
-- The dotted form of an address (`IPv4AddressToString` of shared/utils/utils.cc) read back.
use Prim.Native.Char.{code}
use Prim.Native.String.{◌++◌}
use Prim.Native.String
use two_services.Base.{
  ℕ, suc, zero, ◌+◌, ◌*◌, ◌^◌, ◌<◌, String, Option, none, some, ◌≡◌, ap, arith, ltb, nat_eq,
  if◌then◌else◌,
}
use two_services.Base.Decimal.{to_string, read_digits, read_digits-to_string_onto, to_string-append}
use two_services.Utils.Builder.{octet, ipv4_address_to_string}

-- What stands behind a number that was read: a dot and more, or the end.
unfoldable pub after_dot : (String → Option ℕ) → String → Option ℕ
after_dot next String.[] = none
after_dot next (String.◌∷◌ c s) = if nat_eq (code c) b'.' then next s else none

unfoldable pub at_end : ℕ → String → Option ℕ
at_end value String.[] = some value
at_end value (String.◌∷◌ c s) = none

-- A reader that does not go by the printer: one octet, and `k` more with a dot before each;
-- `value` is the number that the octets before make.
unfoldable pub read_octets : ℕ → ℕ → String → Option ℕ
unfolding after_dot at_end
read_octets zero value s =
    let (n, rest) = read_digits 0 s in if ltb n 256 then at_end (value * 256 + n) rest else none
read_octets (suc k) value s =
    let (n, rest) = read_digits 0 s in
    if ltb n 256 then after_dot (read_octets k (value * 256 + n)) rest else none

unfoldable pub read_ipv4 : String → Option ℕ
read_ipv4 s = read_octets 3 0 s

read_octets-more :
    (k value n : ℕ) (rest : String)
    → n < 256
    → read_octets (suc k) value (to_string n ++ ("." ++ rest))
      ≡ read_octets k (value * 256 + n) rest
unfolding read_octets read_digits
read_octets-more k value n rest h = rw (to_string-append n ("." ++ rest)) (
    rw (read_digits-to_string_onto n ("." ++ rest))
      (rw (String.append.cons "." "" rest) (rw (String.append.nil rest) (ground arith))))

read_octets-last :
    (value n : ℕ) → n < 256 → read_octets zero value (to_string n) ≡ some (value * 256 + n)
unfolding read_octets read_digits to_string
read_octets-last value n h = rw (read_digits-to_string_onto n "") (ground arith)

-- The dotted form of a 32-bit address reads back as that address.
pub read_ipv4-ipv4_address_to_string :
    (addr : ℕ) → addr < 2 ^ 32 → read_ipv4 (ipv4_address_to_string addr) ≡ some addr
unfolding read_ipv4 ipv4_address_to_string
read_ipv4-ipv4_address_to_string addr h =
    rw (read_octets-more 2 0 (octet addr 24) _ (omega arith)) (
      rw (read_octets-more 1 _ (octet addr 16) _ (omega arith)) (
        rw (read_octets-more 0 _ (octet addr 8) _ (omega arith))
          (rw (read_octets-last _ (octet addr 0) (omega arith)) (ap some (omega arith)))))

-- Two 32-bit addresses with one dotted form are the same address.
pub ipv4_address_to_string_injective :
    (a b : ℕ)
    → a < 2 ^ 32
    → b < 2 ^ 32
    → ipv4_address_to_string a ≡ ipv4_address_to_string b
    → a ≡ b
ipv4_address_to_string_injective a b ha hb e =
    cc (read_ipv4-ipv4_address_to_string a ha, read_ipv4-ipv4_address_to_string b hb)
