-- ===== src/Ipv4Filter/Cli/Filter.antt =====
-- `ParseEventFilter` of services/ipv4_filter/main.cc, with what it uses of the standard library.
use Prim.Native.Char.{Char, code}
use Prim.Native.String.{◌++◌ as append}
use two_services.Base.{
  ℕ, ◌-◌, ◌^◌, ◌%◌, String, Bool, true, false, ◌||◌, ◌&&◌, Option, none, some, List, [], ◌∷◌, ◌++◌,
  nat_eq, leb, ltb, if◌then◌else◌,
}
use two_services.Base.Exec.{Except, ok, throw, bind, Exec, continue, ◌>>=◌}
use two_services.Base.Decimal.{starts_with_digit, read_digits}
use two_services.Shared.Dto
use two_services.Shared.Dto.{find_type, str_to_status}

-- `substr(2)`, which throws std::out_of_range on a shorter text
unfoldable pub skip_dashes : String → Except String
skip_dashes String.[] = throw "basic_string::substr"
skip_dashes (String.◌∷◌ c String.[]) = throw "basic_string::substr"
skip_dashes (String.◌∷◌ c (String.◌∷◌ d name)) = ok name

abbrev pub is_white : Char → Bool
is_white c = nat_eq (code c) 32 || (leb 9 (code c) && leb (code c) 13)

unfoldable pub skip_white : String → String
skip_white String.[] = ""
skip_white (String.◌∷◌ c s) = let rest = skip_white s in if is_white c then rest else String.◌∷◌ c s

-- a sign: whether it is a minus, and what follows
abbrev pub read_sign : String → Bool × String
read_sign String.[] = (false, "")
read_sign (String.◌∷◌ c s) =
    if nat_eq (code c) b'-'
    then (true, s)
    else if nat_eq (code c) b'+'
    then (false, s)
    else (false, String.◌∷◌ c s)

-- an int as it is converted to std::size_t
abbrev pub int_to_size : Bool → ℕ → ℕ
int_to_size false n = n
int_to_size true n = (2 ^ 64 - n) % 2 ^ 64

-- `std::stoi`, with its result as std::size_t; what follows the digits is ignored
unfoldable pub stoi : String → Except ℕ
unfolding skip_white
stoi text =
    let (minus, digits) = read_sign (skip_white text) in
    let n = (read_digits 0 digits).0 in
    if starts_with_digit digits
    then (if ltb (if minus then 2 ^ 31 else 2 ^ 31 - 1) n
        then throw "stoi"
        else ok (int_to_size minus n))
    else throw "stoi"

-- what is printed, after what was printed before
abbrev pub warn : String → List String → List String
warn text printed = printed ++ text ∷ []

-- the switch over the type of a parameter; none is its `return std::nullopt`
unfoldable pub set_parameter :
    Dto.FilterType → String → Dto.EventFilter → Exec (List String) (Option Dto.EventFilter)
unfolding stoi
set_parameter Dto.FilterType.from value f printed =
    (ok none, warn "Unsupported filter param\n" printed)
set_parameter Dto.FilterType.to value f printed =
    (ok none, warn "Unsupported filter param\n" printed)
set_parameter Dto.FilterType.limit value f printed =
    (bind (stoi value) (λ n. ok (some (record f { limit = some n }))), printed)
set_parameter Dto.FilterType.offset value f printed =
    (bind (stoi value) (λ n. ok (some (record f { offset = some n }))), printed)
set_parameter Dto.FilterType.status value f printed =
    (bind (str_to_status value) (λ status. ok (some (record f { status = some status }))), printed)
set_parameter Dto.FilterType.src_srv value f printed =
    (ok (some (record f { source_service = some value })), printed)

abbrev pub then_parse :
    (Dto.EventFilter → Exec (List String) (Option Dto.EventFilter))
    → Option Dto.EventFilter
    → Exec (List String) (Option Dto.EventFilter)
then_parse parse none printed = (ok none, printed)
then_parse parse (some f) printed = parse f printed

abbrev pub unknown_parameter : String → String
unknown_parameter name = append "Unknown parameter: " (append name "\n")

-- a parameter that is the last argument: nothing is set
abbrev pub last_parameter :
    String → Dto.EventFilter → Option Dto.FilterType → Exec (List String) (Option Dto.EventFilter)
last_parameter name f none printed = (ok none, warn (unknown_parameter name) printed)
last_parameter name f (some type) printed =
    (ok (some f), warn (append "Missing value for parameter: " (append name "\n")) printed)

abbrev pub with_value :
    String
    → String
    → Dto.EventFilter
    → Option Dto.FilterType
    → Exec (List String) (Option Dto.EventFilter)
with_value name value f none printed = (ok none, warn (unknown_parameter name) printed)
with_value name value f (some type) printed = set_parameter type value f printed

-- the loop over the arguments
unfoldable pub parse_arguments :
    List String → Dto.EventFilter → Exec (List String) (Option Dto.EventFilter)
unfolding skip_dashes set_parameter
parse_arguments [] f printed = (ok (some f), printed)
parse_arguments (arg ∷ []) f printed =
    continue (skip_dashes arg) (λ name. last_parameter name f (find_type name)) printed
parse_arguments (arg ∷ value ∷ rest) f printed =
    continue (skip_dashes arg)
      (λ name. with_value name value f (find_type name) >>= then_parse (parse_arguments rest))
      printed

-- ParseEventFilter, after what was printed before; the first argument is the command
unfoldable pub parse_event_filter : List String → Exec (List String) (Option Dto.EventFilter)
unfolding parse_arguments
parse_event_filter [] printed = (ok (some Dto.no_filter), printed)
parse_event_filter (command ∷ args) printed = parse_arguments args Dto.no_filter printed
