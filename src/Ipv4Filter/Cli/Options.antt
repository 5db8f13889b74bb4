-- ===== src/Ipv4Filter/Cli/Options.antt =====
-- The options of a filter, written out and parsed.
use two_services.Base.{
  ℕ, ◌^◌, ◌<◌, ◌≡◌, refl, sym, ap, ap₂, ◌∙◌, String, true, false, Option, none, some, List, [], ◌∷◌,
  ◌++◌, arith,
}
use two_services.Base.Exec.{ok}
use two_services.Base.Decimal.{
  to_string, read_digits, starts_with_digit, to_string-starts_with_digit,
  read_digits-to_string_onto,
}
use two_services.Shared.Dto
use two_services.Shared.Dto.{find_type, status_to_str, str_to_status}
use two_services.Utils.Convert.{on_value}
use two_services.Ipv4Filter.Cli.Filter.{
  skip_dashes, skip_white, read_sign, stoi, set_parameter, parse_arguments, parse_event_filter,
}

pub skip_white-starts_with_digit : (s : String) → starts_with_digit s ≡ true → skip_white s ≡ s
unfolding skip_white
skip_white-starts_with_digit String.[] h = absurd (cc h)
skip_white-starts_with_digit (String.◌∷◌ c s) h = ground arith

pub read_sign-starts_with_digit :
    (s : String) → starts_with_digit s ≡ true → read_sign s ≡ (false, s)
read_sign-starts_with_digit String.[] h = absurd (cc h)
read_sign-starts_with_digit (String.◌∷◌ c s) h = ground arith

pub read_digits-to_string : (n : ℕ) → read_digits 0 (to_string n) ≡ (n, "")
unfolding read_digits to_string
read_digits-to_string n = read_digits-to_string_onto n ""

-- `std::stoi` reads a number below 2 ^ 31 that `std::to_string` has written.
stoi-to_string : (n : ℕ) → n < 2 ^ 31 → stoi (to_string n) ≡ ok n
unfolding stoi
stoi-to_string n h =
    let d = to_string-starts_with_digit n in
    rw
      (
        skip_white-starts_with_digit (to_string n) d,
        read_sign-starts_with_digit (to_string n) d,
        d,
        read_digits-to_string n,
      )
      (ground arith)

-- A parameter with its value, if there is one.
abbrev pub option : String → Option String → List String
option name none = []
option name (some value) = name ∷ value ∷ []

-- The arguments that ask for a filter; it is without times, which the command does not take.
unfoldable pub options : Dto.EventFilter → List String
options f =
    option "--source_service" f.source_service
    ++ (option "--status" (on_value status_to_str f.status)
        ++ (option "--limit" (on_value to_string f.limit)
            ++ option "--offset" (on_value to_string f.offset)))

parse-source_service :
    (o : Option String) (rest : List String) (f : Dto.EventFilter) (printed : List String)
    → f.source_service ≡ none
    → parse_arguments (option "--source_service" o ++ rest) f printed
      ≡ parse_arguments rest (record f { source_service = o }) printed
unfolding parse_arguments skip_dashes find_type set_parameter
parse-source_service none rest f printed h =
    ap (λ o. parse_arguments rest (record f { source_service = o }) printed) h
parse-source_service (some s) rest f printed h = refl

parse-status :
    (o : Option Dto.Status) (rest : List String) (f : Dto.EventFilter) (printed : List String)
    → f.status ≡ none
    → parse_arguments (option "--status" (on_value status_to_str o) ++ rest) f printed
      ≡ parse_arguments rest (record f { status = o }) printed
unfolding parse_arguments skip_dashes find_type set_parameter status_to_str str_to_status
parse-status none rest f printed h =
    ap (λ o. parse_arguments rest (record f { status = o }) printed) h
parse-status (some Dto.Status.unspecified) rest f printed h = refl
parse-status (some Dto.Status.success) rest f printed h = refl
parse-status (some Dto.Status.error) rest f printed h = refl

-- A number, if one is given, fits an int.
abbrev pub FitsInt : Option ℕ → Type 0
FitsInt none = Unit {0}
FitsInt (some n) = n < 2 ^ 31

parse-limit :
    (o : Option ℕ) (rest : List String) (f : Dto.EventFilter) (printed : List String)
    → FitsInt o
    → f.limit ≡ none
    → parse_arguments (option "--limit" (on_value to_string o) ++ rest) f printed
      ≡ parse_arguments rest (record f { limit = o }) printed
unfolding parse_arguments skip_dashes find_type set_parameter
parse-limit none rest f printed fits h =
    ap (λ o. parse_arguments rest (record f { limit = o }) printed) h
parse-limit (some n) rest f printed fits h = rw (stoi-to_string n fits)

parse-offset :
    (o : Option ℕ) (f : Dto.EventFilter) (printed : List String)
    → FitsInt o
    → f.offset ≡ none
    → parse_arguments (option "--offset" (on_value to_string o)) f printed
      ≡ (ok (some (record f { offset = o })), printed)
unfolding parse_arguments skip_dashes find_type set_parameter
parse-offset none f printed fits h = ap (λ o. (ok (some (record f { offset = o })), printed)) h
parse-offset (some n) f printed fits h = rw (stoi-to_string n fits)

-- The arguments that ask for a filter without times, whose limit and offset fit an int, are parsed to
-- that filter, and no warning is printed.
pub parse_event_filter-options :
    (command : String) (f : Dto.EventFilter) (printed : List String)
    → f.from ≡ none
    → f.to ≡ none
    → FitsInt f.limit
    → FitsInt f.offset
    → parse_event_filter (command ∷ options f) printed ≡ (ok (some f), printed)
unfolding parse_event_filter options
parse_event_filter-options command f printed from to limit offset =
    let offsets = option "--offset" (on_value to_string f.offset) in
    let limits = option "--limit" (on_value to_string f.limit) ++ offsets in
    let statuses = option "--status" (on_value status_to_str f.status) ++ limits in
    let with_source = record Dto.no_filter { source_service = f.source_service } in
    let with_status = record with_source { status = f.status } in
    let with_limit = record with_status { limit = f.limit } in
    parse-source_service f.source_service statuses Dto.no_filter printed refl
    ∙ parse-status f.status limits with_source printed refl
    ∙ parse-limit f.limit offsets with_status printed limit refl
    ∙ parse-offset f.offset with_limit printed offset refl
    ∙ ap₂ (λ a b. (ok (some (record f { from = a; to = b })), printed)) (sym from) (sym to)
