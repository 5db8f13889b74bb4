-- ===== src/Ipv4Filter/Main.antt =====
-- `main` of services/ipv4_filter/main.cc: the use cases over the stub, and the loop over the input. What
-- `WaitForConnected` answers is an argument; the channel, whose service configuration only tells gRPC to
-- repeat calls, stands behind the stub.
mod Tests
use Prim.Native.String.{◌++◌ as append}
use two_services.Base.{ℕ, String, Bool, true, false, Option, none, some, List, [], ◌∷◌}
use two_services.Base.Exec.{ok, Exec, ◌>>=◌, ◌>>◌, pure}
use two_services.Base.Decimal.{to_string}
use two_services.Shared.Dto
use two_services.NetLogger.{NetLogger}
use two_services.Utils.Builder.{Clock}
use two_services.Utils.Convert.{TimeUtil}
use two_services.Ipv4Filter.Config.{AppConfig, app_config}
use two_services.Ipv4Filter.GrpcService
use two_services.Ipv4Filter.GrpcService.{
  Stub, save_batch, event_saver, event_provider, stats_provider,
}
use two_services.Ipv4Filter.EventBuilder.{event_builder}
use two_services.Ipv4Filter.UseCases.{execute_save, execute_get, execute_stats}
use two_services.Ipv4Filter.Cli.Handlers.{print, run_loop}
use two_services.Shared.Console.{Console}

abbrev pub get_target_server_string : String → ℕ → String
get_target_server_string host port = append host (append ":" (to_string port))

abbrev concat_texts : List String → String
concat_texts [] = ""
concat_texts (text ∷ texts) = append text (concat_texts texts)

-- what `PrintHelp` prints
abbrev pub help_text : String
help_text = concat_texts (
    "Available commands:\n" ∷ "  Save <file_path>               - Save events from file to server\n"
    ∷ "  Get [options]                  - Get events with optional filters\n"
    ∷ "  Stats                          - Get statistics\n"
    ∷ "  Help                           - Show this help message\n"
    ∷ "  Exit                           - Exit program\n" ∷ "\n" ∷ "GetEvents options:\n"
    ∷ "  --limit <number>               - Limit number of events\n"
    ∷ "  --offset <number>              - Offset for pagination\n"
    ∷ "  --status <status>              - Filter by status (success/error)\n"
    ∷ "  --source_service <service>     - Filter by source service\n" ∷ "\n" ∷ "Examples:\n"
    ∷ "  Save path/to/log.txt\n" ∷ "  Get --limit 10 --offset 1\n" ∷ "  Get --status <success>\n"
    ∷ "  Get --source_service ipv4_filter\n" ∷ [])

-- what `main` assigns to `cfg.filters`
abbrev pub filters : List (List String)
filters =
    ("type" ∷ "subnet" ∷ "value" ∷ "192.168.1.0/24" ∷ [])
    ∷ ("type" ∷ "range" ∷ "value" ∷ "10.0.0.1-10.0.0.100" ∷ [])
    ∷ []

-- The world of the loop: how often the clock was read, and the peer.
abbrev pub World : Type 0 → Type 0
World W = ℕ × W

-- a call that does not read the clock
abbrev pub on_peer :
    {W A : Type 0} → (Console W → A × Console W) → Console (World W) → A × Console (World W)
on_peer m c =
    let (a, d) = m (record { printed = c.printed; world = c.world.1 }) in
    (a, record { printed = d.printed; world = (c.world.0, d.world) })

module _ (net : NetLogger) (clock : Clock) (now : ℕ → clock.TimePoint) {W : Type 0}
    (time : TimeUtil) (stub : Stub time.Timestamp W) where
  -- the three use cases, over the builder for the name of the service
  unfoldable pub save_file : AppConfig → String → Exec (Console (World W)) Bool
  unfolding execute_save save_batch
  save_file cfg input c =
      let (saved, (readings, d)) =
        execute_save net (event_builder net clock now cfg.service_name) (event_saver time stub)
          (record { filter = net.create_filter filters; source_service_name = cfg.service_name })
          input (c.world.0, record { printed = c.printed; world = c.world.1 }) in
      (ok saved, record { printed = d.printed; world = (readings, d.world) })

  unfoldable pub get_page : Dto.EventFilter → Exec (Console (World W)) (Option (List Dto.Event))
  unfolding execute_get GrpcService.get_events
  get_page filter = do
    result ← on_peer (execute_get (event_provider time stub) (record { filter = filter }))
    pure result.events

  unfoldable pub get_counts : Exec (Console (World W)) (Option Dto.Stats)
  unfolding execute_stats GrpcService.get_stats
  get_counts c =
      let (result, d) = on_peer (execute_stats (stats_provider time stub)) c in (ok result.stats, d)

  module _ (open_file : String → Option String) where
    -- what `main` does once it has waited for the connection
    abbrev pub run : AppConfig → String → Bool → List String → Exec (Console (World W)) ℕ
    run cfg target false lines = do
      print (append "Failed to connect to " (append target " (timeout)\n") ∷ [])
      pure 1
    run cfg target true lines = do
      print (append "Connected to " (append target "\n") ∷ help_text ∷ [])
      run_loop help_text open_file (save_file cfg) get_page get_counts lines
      pure 0

    -- `main`, with its exit code
    unfoldable pub main : (String → Option String) → Bool → List String → Exec (Console (World W)) ℕ
    unfolding app_config run_loop save_file get_page get_counts
    main getenv connected lines =
        let cfg = app_config getenv in
        run cfg (get_target_server_string cfg.server_address cfg.server_port) connected lines
