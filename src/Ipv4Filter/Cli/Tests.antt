-- ===== src/Ipv4Filter/Cli/Tests.antt =====
-- The command line on concrete lines.
use two_services.Samples.Facts.{text_ne}
use two_services.Base.{List, String, inr, ◌≡◌, refl, false, none, some, inl, [], ◌∷◌, arith}
use two_services.Base.Exec.{ok, throw}
use two_services.Base.Decimal.{read_digits}
use two_services.Shared.Dto
use two_services.Shared.Dto.{no_filter, find_type, str_to_status}
use two_services.Ipv4Filter.Cli.{split_line, read_chars, Command, command_of, to_lower}
use two_services.Ipv4Filter.Cli.Quoted.{quoted, split_line-quoted}
use two_services.Ipv4Filter.Cli.Filter.{
  parse_event_filter, parse_arguments, skip_dashes, set_parameter, stoi, skip_white,
}
use two_services.Ipv4Filter.Cli.Handlers.{run_loop, prompt}
use two_services.Ipv4Filter.Cli.Ends.{IsNoInt, run_loop-throws}
use two_services.Ipv4Filter.Cli.Options.{options, parse_event_filter-options}

a_line_is_split : split_line "Save  \"my log.txt\" x" ≡ "Save" ∷ "my log.txt" ∷ "x" ∷ []
unfolding split_line read_chars
a_line_is_split = refl

commands_in_any_case : command_of ("STATS" ∷ []) ≡ Command.stats
unfolding command_of to_lower
commands_in_any_case = refl

exit_is_unknown : command_of ("Exit" ∷ []) ≡ Command.unknown "exit"
unfolding command_of to_lower
exit_is_unknown = refl

missing_value_is_dropped :
    parse_event_filter ("get" ∷ "--limit" ∷ []) []
    ≡ (ok (some no_filter), "Missing value for parameter: limit\n" ∷ [])
unfolding parse_event_filter parse_arguments skip_dashes find_type
missing_value_is_dropped = refl

negative_limit_wraps :
    parse_event_filter ("get" ∷ "--limit" ∷ "-1" ∷ []) []
    ≡ (ok (some (record no_filter { limit = some 18_446_744_073_709_551_615 })), [])
unfolding parse_event_filter parse_arguments skip_dashes find_type set_parameter stoi skip_white
    read_digits
negative_limit_wraps = refl

short_argument_throws :
    parse_event_filter ("get" ∷ "x" ∷ []) [] ≡ (throw "basic_string::substr", [])
unfolding parse_event_filter parse_arguments skip_dashes
short_argument_throws = refl

split_line-quoted_example : split_line (quoted ("get" ∷ "a b" ∷ [])) ≡ "get" ∷ "a b" ∷ []
split_line-quoted_example =
    split_line-quoted ("get" ∷ "a b" ∷ [])
      ((text_ne _ _ refl, refl), ((text_ne _ _ refl, refl), tt))

abbrev filter : Dto.EventFilter
filter = record no_filter { status = some Dto.Status.error; limit = some 10; offset = some 20 }

parse_event_filter-options_example :
    parse_event_filter ("get" ∷ options filter) [] ≡ (ok (some filter), [])
parse_event_filter-options_example =
    parse_event_filter-options "get" filter [] refl refl (omega arith) (omega arith)

typed_line :
    split_line "GET --status error --offset ten"
    ≡ "GET" ∷ "--status" ∷ "error" ∷ "--offset" ∷ "ten" ∷ []
unfolding split_line
typed_line = refl

typed_get : to_lower "GET" ≡ "get"
unfolding to_lower
typed_get = refl

status_is_parsed :
    (printed : List String)
    → parse_arguments ("--status" ∷ "error" ∷ []) no_filter printed
      ≡ (ok (some (record no_filter { status = some Dto.Status.error })), printed)
unfolding parse_arguments skip_dashes find_type set_parameter str_to_status
status_is_parsed printed = refl

no_digit : IsNoInt "ten"
unfolding skip_white
no_digit = inl refl

run_loop-throws_example :
    run_loop {W = Unit {0}} ""
      (λ path. none)
      (λ input w. (ok false, w))
      (λ filter w. (ok none, w))
      (λ w. (ok none, w))
      ("GET --status error --offset ten" ∷ "stats" ∷ [])
      (record { printed = []; world = tt })
    ≡ (throw "stoi", record { printed = prompt ∷ []; world = tt })
run_loop-throws_example =
    run_loop-throws "" (λ path. none) (λ input w. (ok false, w)) (λ filter w. (ok none, w))
      (λ w. (ok none, w)) "GET --status error --offset ten" "GET" (("--status", "error") ∷ [])
      "--offset" "ten" [] ("stats" ∷ []) (record no_filter { status = some Dto.Status.error })
      (record { printed = []; world = tt }) typed_line typed_get status_is_parsed (inr refl)
      no_digit
