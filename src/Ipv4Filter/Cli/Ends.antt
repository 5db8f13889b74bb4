-- ===== src/Ipv4Filter/Cli/Ends.antt =====
-- What ends the loop over the input before its end: an exception that no handler catches.
use two_services.Base.{
  ap₂, none, some, ℕ, ◌^◌, ◌≤◌, ◌≡◌, ap, ◌∙◌, ◌⊎◌, inl, inr, String, Bool, false, Option, List, [],
  ◌∷◌, ◌++◌, arith,
}
use two_services.Base.Exec.{throw, ok, Exec, Except-cases}
use two_services.Base.Decimal.{to_string, starts_with_digit, to_string-starts_with_digit}
use two_services.Shared.Dto
use two_services.Shared.Dto.{find_type}
use two_services.Ipv4Filter.Cli.{split_line, to_lower, command_of}
use two_services.Ipv4Filter.Cli.Filter.{
  skip_dashes, skip_white, read_sign, stoi, set_parameter, with_value, parse_arguments,
  parse_event_filter,
}
use two_services.Ipv4Filter.Cli.Options.{
  skip_white-starts_with_digit, read_sign-starts_with_digit, read_digits-to_string,
}
use two_services.Shared.Console.{Console}
use two_services.Ipv4Filter.Cli.Handlers.{prompt, handle_get_events, run_line, run_loop}

-- The value is no number, or one that does not fit an int.
abbrev pub IsNoInt : String → Type 0
IsNoInt value =
    (starts_with_digit (read_sign (skip_white value)).1 ≡ false)
    ⊎ ((n : ℕ) × (2 ^ 31 ≤ n) × (value ≡ to_string n))

stoi-to_string_throws : (n : ℕ) → 2 ^ 31 ≤ n → stoi (to_string n) ≡ throw "stoi"
unfolding stoi
stoi-to_string_throws n h =
    let d = to_string-starts_with_digit n in
    rw
      (
        skip_white-starts_with_digit (to_string n) d,
        read_sign-starts_with_digit (to_string n) d,
        d,
        read_digits-to_string n,
      )
      (ground arith)

stoi-throws : (value : String) → IsNoInt value → stoi value ≡ throw "stoi"
unfolding stoi
stoi-throws value (inl no_digit) = rw no_digit
stoi-throws value (inr (n, large, e)) = ap stoi e ∙ stoi-to_string_throws n large

-- Names and values, one after another.
abbrev pub pairs : List (String × String) → List String
pairs [] = []
pairs ((name, value) ∷ more) = name ∷ value ∷ pairs more

-- the parse goes on behind pairs that were parsed
parse_arguments-pairs :
    (earlier : List (String × String)) (later : List String) (f g : Dto.EventFilter)
    (printed end : List String)
    → parse_arguments (pairs earlier) f printed ≡ (ok (some g), end)
    → parse_arguments (pairs earlier ++ later) f printed ≡ parse_arguments later g end
unfolding parse_arguments
parse_arguments-pairs [] later f g printed end h =
    let same : f ≡ g = cc h in
    let all : printed ≡ end = cc h in ap₂ (parse_arguments later) same all
parse_arguments-pairs ((name, value) ∷ more) later f g printed end h =
    elim (Except-cases (skip_dashes name)) [
      | inr (what, e) ↦ absurd (cc (rw e at h))
      | inl (option, e) ↦
          let set = with_value option value f (find_type option) printed in
          elim (Except-cases set.0) [
            | inr (what, r) ↦ absurd (cc (rw (e, r) at h))
            | inl (none, r) ↦ absurd (cc (rw (e, r) at h))
            | inl (some next, r) ↦
                rw (e, r) (parse_arguments-pairs more later next g set.1 end (rw (e, r) at h))
          ]
    ]

-- The options whose value is a number.
abbrev pub IsNumeric : String → Type 0
IsNumeric option = (option ≡ "--limit") ⊎ (option ≡ "--offset")

parse_arguments-throws :
    (option value : String) (rest : List String) (f : Dto.EventFilter) (printed : List String)
    → IsNumeric option
    → IsNoInt value
    → parse_arguments (option ∷ value ∷ rest) f printed ≡ (throw "stoi", printed)
unfolding parse_arguments skip_dashes find_type set_parameter
parse_arguments-throws option value rest f printed (inl e) h = rw (e, stoi-throws value h)
parse_arguments-throws option value rest f printed (inr e) h = rw (e, stoi-throws value h)

module _ {W : Type 0} (help_text : String) (open_file : String → Option String)
    (save : String → Exec (Console W) Bool)
    (get : Dto.EventFilter → Exec (Console W) (Option (List Dto.Event)))
    (stats : Exec (Console W) (Option Dto.Stats)) where
  -- A line whose first word is `get`, in any case, and whose further words are options that
  -- `ParseEventFilter` takes without a word, then `--limit` or `--offset`, then a value, and anything behind
  -- it, ends the loop with the exception of `std::stoi`, where the value has no digit at the place where a
  -- number should begin, or is the decimal notation of 2 ^ 31 or more: nothing is printed but the prompt,
  -- no use case is called, and no further line is read, whatever stands in it.
  pub run_loop-throws :
      (line command : String) (earlier : List (String × String)) (option value : String)
      (rest lines : List String) (f : Dto.EventFilter) (c : Console W)
      → split_line line ≡ command ∷ pairs earlier ++ option ∷ value ∷ rest
      → to_lower command ≡ "get"
      → ((printed : List String)
          → parse_arguments (pairs earlier) Dto.no_filter printed ≡ (ok (some f), printed))
      → IsNumeric option
      → IsNoInt value
      → run_loop help_text open_file save get stats (line ∷ lines) c
        ≡ (throw "stoi", record c { printed = c.printed ++ prompt ∷ [] })
  unfolding run_loop run_line handle_get_events parse_event_filter command_of
  run_loop-throws line command earlier option value rest lines f c words is_get parsed numeric h =
      let printed = c.printed ++ prompt ∷ [] in
      rw (
        words,
        is_get,
        parse_arguments-pairs earlier (option ∷ value ∷ rest) Dto.no_filter f printed printed
            (parsed printed),
        parse_arguments-throws option value rest f printed numeric h,
      )
