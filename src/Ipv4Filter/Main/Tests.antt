-- ===== src/Ipv4Filter/Main/Tests.antt =====
-- The client without a server, and a session of two lines.
use two_services.Base.{◌≡◌, refl, String, true, false, Option, none, [], ◌∷◌}
use two_services.Base.Exec.{ok}
use two_services.Base.Decimal.{to_string, to_string_onto}
use two_services.Ipv4Filter.Cli.{split_line, read_chars, command_of, to_lower}
use two_services.Ipv4Filter.Cli.Handlers.{run_line, run_loop}
use two_services.Shared.Console.{Console}
use two_services.Ipv4Filter.Config.{app_config}
use two_services.Ipv4Filter.Main.{World, help_text, main}
use two_services.Samples.{net, clock, now, time_util, stub, empty_db, Peer}

abbrev start : Console (World Peer)
start = record { printed = []; world = (0, record { db = empty_db; sent = []; start = empty_db }) }

abbrev no_file : String → Option String
no_file path = none

abbrev no_variables : String → Option String
no_variables name = none

no_connection :
    main net clock now time_util stub no_file no_variables false ("stats" ∷ []) start ≡ (
      ok 1,
      record start { printed = "Failed to connect to history-server:50051 (timeout)\n" ∷ [] },
    )
unfolding main app_config to_string to_string_onto
no_connection = refl

two_lines :
    main net clock now time_util stub no_file no_variables true ("exit" ∷ "Save nowhere" ∷ []) start
    ≡ (
      ok 0,
      record start {
        printed =
            "Connected to history-server:50051\n" ∷ help_text ∷ "\n> " ∷ "Unknown command: exit\n"
            ∷ "Type 'Help' for available commands.\n" ∷ "\n> " ∷ "Can't open file: nowhere\n"
            ∷ "\n> " ∷ [];
      },
    )
unfolding main app_config to_string to_string_onto run_loop run_line split_line read_chars
    command_of to_lower
two_lines = refl
