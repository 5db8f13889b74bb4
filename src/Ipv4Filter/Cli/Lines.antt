-- ===== src/Ipv4Filter/Cli/Lines.antt =====
-- Lines of quoted arguments that begin with a command.
use two_services.Base.{◌≡◌, ◌≢◌, refl, ap, ◌∙◌, String, true, List, ◌∷◌, All}
use two_services.Ipv4Filter.Cli.{split_line, command_of, to_lower, Command}
use two_services.Ipv4Filter.Cli.Quoted.{quoted, has_no_quote, split_line-quoted}

-- Arguments that can be put in quotes.
abbrev pub IsPlain : List String → Type 0
IsPlain args = All (λ arg. (arg ≢ "") × (has_no_quote arg ≡ true)) args

module _ (args : List String) where
  command_of-get : command_of ("get" ∷ args) ≡ Command.get ("get" ∷ args)
  unfolding command_of to_lower
  command_of-get = refl

  command_of-save : command_of ("save" ∷ args) ≡ Command.save ("save" ∷ args)
  unfolding command_of to_lower
  command_of-save = refl

  pub get_line :
      IsPlain ("get" ∷ args)
      → command_of (split_line (quoted ("get" ∷ args))) ≡ Command.get ("get" ∷ args)
  get_line plain = ap command_of (split_line-quoted ("get" ∷ args) plain) ∙ command_of-get

  pub save_line :
      IsPlain ("save" ∷ args)
      → command_of (split_line (quoted ("save" ∷ args))) ≡ Command.save ("save" ∷ args)
  save_line plain = ap command_of (split_line-quoted ("save" ∷ args) plain) ∙ command_of-save
