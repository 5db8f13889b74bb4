-- ===== src/System/TypedSave.antt =====
-- A line that is typed at the client, and what the server stores.
use two_services.History.Stream.{silent}
use two_services.Base.{
  ℕ, ◌≡◌, refl, inl, inr, ◌⊎◌, String, Option, some, List, [], ◌∷◌, ◌++◌, concat, Bool-cases,
}
use two_services.Base.Exec.{Except, ok}
use two_services.NetLogger.{NetLogger}
use two_services.Utils.Builder.{Clock}
use two_services.Utils.Convert.{TimeUtil}
use two_services.History.Postgres.{Engine}
use two_services.History.Repo.{postgres_events_repo}
use two_services.History.Repo.Invariant.{IsConsistent}
use two_services.History.Repo.Save.{IsStored}
use two_services.History.UseCases.{use_cases}
use two_services.Ipv4Filter.GrpcService.{Stub, event_saver}
use two_services.Ipv4Filter.UseCases
use two_services.Ipv4Filter.UseCases.Built.{built}
use two_services.Ipv4Filter.Config.{AppConfig}
use two_services.Ipv4Filter.Cli.Quoted.{quoted}
use two_services.Ipv4Filter.Cli.Lines.{IsPlain, save_line}
use two_services.Shared.Console.{Console}
use two_services.Ipv4Filter.Cli.Handlers.{run_line, handle_save_event, save_opened}
use two_services.Ipv4Filter.Main.{World, filters, save_file, get_page, get_counts}
use two_services.System.Delivery.{Delivers}
use two_services.Ipv4Filter.EventBuilder.{event_builder}
use two_services.System.Stored.{execute_save-IsStored}

module _ (engine : Engine) (net : NetLogger) (clock : Clock) (now : ℕ → clock.TimePoint)
    {W : Type 0} (time : TimeUtil) (stub : Stub time.Timestamp W)
    (delivers : Delivers (use_cases (postgres_events_repo engine)) silent stub) (help_text : String)
    (open_file : String → Option String) (cfg : AppConfig) where
  -- The last text that a console shows.
  abbrev EndsWith : String → Console (World W) → Type 0
  EndsWith text c = (earlier : List String) × (c.printed ≡ earlier ++ text ∷ [])

  -- What a round ends in: a message, and what the message says of the tables.
  abbrev pub Saved : String → Console (World W) → Except (Unit {0}) × Console (World W) → Type 0
  Saved input c outcome =
      (outcome.0 ≡ ok tt)
      × ((EndsWith "Events saved successfully.\n" outcome.1
            × IsStored engine
                (built net clock now cfg.service_name
                  (concat (net.process_stream input (net.create_filter filters))) c.world.0)
                (delivers.server c.world.1).tables (delivers.server outcome.1.world.1).tables)
          ⊎ EndsWith "Failed to save events.\n" outcome.1)

  save_opened-Saved :
      (path input : String) (c : Console (World W))
      → IsConsistent engine (delivers.server c.world.1).tables
      → Saved input c (
          save_opened help_text open_file
            (save_file net clock now time stub cfg)
            (get_page net clock now time stub)
            (get_counts net clock now time stub)
            path
            (some input)
            c)
  unfolding save_file
  save_opened-Saved path input c h =
      let on_client : Console W = record { printed = c.printed; world = c.world.1 } in
      let request : UseCases.SaveRequest net.CompositeFilter = record {
        filter = net.create_filter filters;
        source_service_name = cfg.service_name;
      } in
      let saving =
        UseCases.execute_save net (event_builder net clock now cfg.service_name)
          (event_saver time stub) request input (c.world.0, on_client) in
      elim (Bool-cases saving.0) [
        | inl good ↦ (
          refl,
          inl (
            (saving.1.1.printed, rw good),
            execute_save-IsStored engine net clock now cfg.service_name time stub delivers request
                input c.world.0 on_client h good,
          ),
        )
        | inr bad ↦ (refl, inr (saving.1.1.printed, rw bad))
      ]

  -- Over a stub that delivers to the service with its repository, and from consistent tables: a
  -- line `save`, in quoted arguments, with the path of a file that can be opened, prints in the end
  -- that the events were saved, and then the events of the file, one for each entry with a line,
  -- stand in the tables behind the rows that were there, in order, and nothing else was added; or
  -- it prints in the end that saving failed.
  pub run_line-Saved :
      (path input : String) (rest : List String) (c : Console (World W))
      → IsPlain ("save" ∷ path ∷ rest)
      → open_file path ≡ some input
      → IsConsistent engine (delivers.server c.world.1).tables
      → Saved input c (
          run_line help_text open_file
            (save_file net clock now time stub cfg)
            (get_page net clock now time stub)
            (get_counts net clock now time stub)
            (quoted ("save" ∷ path ∷ rest))
            c)
  unfolding run_line handle_save_event
  run_line-Saved path input rest c plain opened h =
      rw (save_line (path ∷ rest) plain, opened) (save_opened-Saved path input c h)
