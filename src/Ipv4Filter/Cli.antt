-- ===== src/Ipv4Filter/Cli.antt =====
-- The command line of services/ipv4_filter/main.cc: a line split into arguments, and the command that
-- its first one names.
pub mod Filter
pub mod Quoted
pub mod Options
pub mod Handlers
pub mod Lines
pub mod Ends
mod Tests
use Prim.Native.Char.{Char, code}
use Prim.Native.String
use Prim.Native.String.{◌++◌ as append}
use two_services.Base.{
  ℕ, zero, suc, ◌+◌, ◌-◌, String, Bool, true, false, not, ◌&&◌, Option, none, some, List, [], ◌∷◌,
  ◌++◌, nat_eq, leb, ◌==◌, if◌then◌else◌,
}

-- the variables of the loop over the characters
pub record Splitting : Type 0 where
  pub args : List String
  pub curr_arg : String
  pub in_quotes : Bool

abbrev pub is_quote : Char → Bool
is_quote c = nat_eq (code c) b'"'

abbrev pub is_space : Char → Bool
is_space c = nat_eq (code c) b' '

-- `if (!curr_arg.empty()) { … }`, which also stands behind the loop
abbrev pub end_arg : Splitting → Splitting
end_arg s =
    if s.curr_arg == "" then s else record s { args = s.args ++ s.curr_arg ∷ []; curr_arg = "" }

-- the body of the loop
abbrev pub read_char : Char → Splitting → Splitting
read_char c s =
    if is_quote c
    then record s { in_quotes = not s.in_quotes }
    else if is_space c && not s.in_quotes
    then end_arg s
    else record s { curr_arg = append s.curr_arg (String.◌∷◌ c "") }

unfoldable pub read_chars : String → Splitting → Splitting
read_chars String.[] s = s
read_chars (String.◌∷◌ c line) s = read_chars line (read_char c s)

abbrev pub nothing_read : Splitting
nothing_read = record { args = []; curr_arg = ""; in_quotes = false }

-- the arguments of a line
unfoldable pub split_line : String → List String
unfolding read_chars
split_line line = (end_arg (read_chars line nothing_read)).args

-- a character of a text, counted from 0
abbrev pub char_at : ℕ → String → Char → Char
char_at n String.[] default = default
char_at zero (String.◌∷◌ c text) default = c
char_at (suc n) (String.◌∷◌ c text) default = char_at n text default

-- `::tolower` on a byte, in the C locale
abbrev pub tolower : Char → Char
tolower c =
    if leb b'A' (code c) && leb (code c) b'Z'
    then char_at (code c - b'A') "abcdefghijklmnopqrstuvwxyz" c
    else c

-- `std::transform` over a text
unfoldable pub to_lower : String → String
to_lower String.[] = ""
to_lower (String.◌∷◌ c text) = String.◌∷◌ (tolower c) (to_lower text)

-- what a line makes the loop of `main` do
pub data Command : Type 0 where
  nothing help stats : Command
  save get : List String → Command
  unknown : String → Command

-- the command by its name in lower case
abbrev pub named : String → List String → Command
named command args =
    if command == "help"
    then Command.help
    else if command == "save"
    then Command.save args
    else if command == "get"
    then Command.get args
    else if command == "stats"
    then Command.stats
    else Command.unknown command

unfoldable pub command_of : List String → Command
unfolding to_lower
command_of [] = Command.nothing
command_of (first ∷ rest) = named (to_lower first) (first ∷ rest)
