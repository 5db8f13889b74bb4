-- ===== src/Ipv4Filter/Cli/Handlers.antt =====
-- The handlers of services/ipv4_filter/main.cc and the loop over the input. What a handler prints,
-- to either stream, is a list of texts. A width in a format counts characters. An exception that no
-- handler catches ends the program.
use Prim.Native.String.{◌++◌ as append}
use two_services.Base.{
  ℕ, zero, suc, ◌-◌, String, Bool, true, false, Option, none, some, List, [], ◌∷◌, ◌++◌, map,
  length,
}
use two_services.Base.Exec.{ok, Exec, ◌>>=◌, ◌>>◌}
use two_services.Base.Decimal.{to_string}
use two_services.Shared.Dto
use two_services.Shared.Dto.{status_to_str}
use two_services.Shared.Console.{Console, on_printed}
use two_services.Ipv4Filter.Cli.{Command, split_line, command_of}
use two_services.Ipv4Filter.Cli.Filter.{parse_event_filter}

abbrev pub text_length : String → ℕ
text_length String.[] = 0
text_length (String.◌∷◌ c s) = suc (text_length s)

abbrev pub spaces : ℕ → String
spaces zero = ""
spaces (suc n) = String.◌∷◌ " " (spaces n)

-- `{:<n}`, with the separator that follows it
abbrev pub column : ℕ → String → String → String
column n s rest = append s (append (spaces (n - text_length s)) (append " | " rest))

abbrev pub or_none : Option String → String
or_none none = "None"
or_none (some s) = s

unfoldable pub event_line : Dto.Event → String
event_line e = append "  - " (
    column 25 e.timestamp_utc (
      column 15 e.source_service (
        column 10 (status_to_str e.status) (
          column 15 e.payload.filter_decision (
            column 15 (or_none e.payload.parsed_ip)
              (column 20 (or_none e.payload.reject_reason) (append e.payload.raw_line "\n")))))))

abbrev pub title_line : String
title_line = append "    " (
    column 25 "TIMESTAMP_UTC" (
      column 15 "SOURCE_SERVICE" (
        column 10 "STATUS" (
          column 15 "FILTER_DECISION"
            (column 15 "PARSED_IP" (column 20 "REJECT_REASON" "RAW_LINE\n"))))))

-- the output for the events of the result
unfoldable pub print_events : Option (List Dto.Event) → List String
unfolding event_line
print_events none = "Failed to get events.\n" ∷ []
print_events (some events) =
    append "Got " (append (to_string (length events)) " events:\n")
    ∷ title_line
    ∷ map event_line events

unfoldable pub print_stats : Option Dto.Stats → List String
print_stats none = "Failed to get stats.\n" ∷ []
print_stats (some stats) =
    append "Stats:\n  Total events: " (
      append (to_string stats.events_total) (
        append "\n  Success: " (
          append (to_string stats.events_success)
            (append "\n  Error: " (append (to_string stats.events_error) "\n")))))
    ∷ []

abbrev pub print_saved : Bool → List String
print_saved true = "Events saved successfully.\n" ∷ []
print_saved false = "Failed to save events.\n" ∷ []

abbrev pub print : {W : Type 0} → List String → Exec (Console W) (Unit {0})
print texts c = (ok tt, record c { printed = c.printed ++ texts })

abbrev pub prompt : String
prompt = "\n> "

-- `open_file` gives the text of a file that can be opened; the last three are what the use cases do
module _ {W : Type 0} (help_text : String) (open_file : String → Option String)
    (save : String → Exec (Console W) Bool)
    (get : Dto.EventFilter → Exec (Console W) (Option (List Dto.Event)))
    (stats : Exec (Console W) (Option Dto.Stats)) where
  abbrev pub save_opened : String → Option String → Exec (Console W) (Unit {0})
  save_opened path none = print (append "Can't open file: " (append path "\n") ∷ [])
  save_opened path (some input) = do saved ← save input; print (print_saved saved)

  -- HandleSaveEvent
  unfoldable pub handle_save_event : List String → Exec (Console W) (Unit {0})
  handle_save_event (command ∷ path ∷ rest) = save_opened path (open_file path)
  handle_save_event _ = print ("Error: Missing file path. Usage: SaveEvent <file_path>\n" ∷ [])

  abbrev pub get_filtered : Option Dto.EventFilter → Exec (Console W) (Unit {0})
  get_filtered none = print ("Invalid filter params.\n" ∷ [])
  get_filtered (some filter) = do events ← get filter; print (print_events events)

  -- HandleGetEvents
  unfoldable pub handle_get_events : List String → Exec (Console W) (Unit {0})
  unfolding print_events parse_event_filter
  handle_get_events args = do filter ← on_printed (parse_event_filter args); get_filtered filter

  -- HandleGetStats
  unfoldable pub handle_get_stats : Exec (Console W) (Unit {0})
  unfolding print_stats
  handle_get_stats = do found ← stats; print (print_stats found)

  abbrev pub run_command : Command → Exec (Console W) (Unit {0})
  run_command Command.nothing = print []
  run_command Command.help = print (help_text ∷ [])
  run_command (Command.save args) = handle_save_event args
  run_command (Command.get args) = handle_get_events args
  run_command Command.stats = handle_get_stats
  run_command (Command.unknown command) = print (
      append "Unknown command: " (append command "\n")
      ∷ "Type 'Help' for available commands.\n"
      ∷ [])

  -- one round of the loop, for a line that was read
  unfoldable pub run_line : String → Exec (Console W) (Unit {0})
  unfolding handle_save_event handle_get_events handle_get_stats split_line command_of
  run_line line = run_command (command_of (split_line line))

  -- the loop over the lines of the input
  unfoldable pub run_loop : List String → Exec (Console W) (Unit {0})
  unfolding run_line
  run_loop [] = print (prompt ∷ [])
  run_loop (line ∷ lines) = do print (prompt ∷ []); run_line line; run_loop lines
