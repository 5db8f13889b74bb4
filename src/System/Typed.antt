-- ===== src/System/Typed.antt =====
-- A line that is typed at the client, and the page that it prints.
use mathlib.Core.List.{append_assoc}
use two_services.Base.{
  ap, ◌∙◌, ◌≡◌, refl, subst, sym, String, Bool, true, Option, none, some, List, [], ◌∷◌, ◌++◌,
}
use two_services.Base.Exec.{Except, ok, Exec}
use two_services.Grpc.{is_ok}
use two_services.Shared.Dto
use two_services.Proto
use two_services.Utils.Convert.{TimeUtil, to_proto_event_filter}
use two_services.Utils.RoundTrip.{IsCanonical, cut_to_uint32}
use two_services.History.Postgres.{Engine, Tables}
use two_services.History.Repo.{postgres_events_repo}
use two_services.History.Repo.Invariant.{IsConsistent}
use two_services.History.Repo.Reading.{page, IsTaken}
use two_services.History.UseCases.{use_cases}
use two_services.Ipv4Filter.GrpcService
use two_services.Ipv4Filter.GrpcService.{Stub}
use two_services.Ipv4Filter.Cli.Lines.{IsPlain, get_line}
use two_services.Ipv4Filter.Cli.Quoted.{quoted}
use two_services.Ipv4Filter.Cli.Options.{options, FitsInt, parse_event_filter-options}
use two_services.Shared.Console.{Console}
use two_services.Ipv4Filter.Cli.Handlers.{run_line, handle_get_events, print_events, get_filtered}
use two_services.Base.{ℕ}
use two_services.NetLogger.{NetLogger}
use two_services.Utils.Builder.{Clock}
use two_services.Ipv4Filter.Config.{AppConfig}
use two_services.Ipv4Filter.Interfaces.{provide_events}
use two_services.Ipv4Filter.UseCases.{execute_get}
use two_services.Ipv4Filter.Main.{World, help_text, save_file, get_page, get_counts}
use two_services.System.Fetched.{Answers, found_line, get_events-page_fetched}

-- A round returned, and printed these texts after what was printed before.
abbrev pub Prints : {W : Type 0} → Console W → List String → Except (Unit {0}) × Console W → Type 0
Prints c texts outcome = (outcome.0 ≡ ok tt) × (outcome.1.printed ≡ c.printed ++ texts)

module _ {W : Type 0} (help_text : String) (open_file : String → Option String)
    (save : String → Exec (Console W) Bool)
    (get : Dto.EventFilter → Exec (Console W) (Option (List Dto.Event)))
    (stats : Exec (Console W) (Option Dto.Stats)) where
  get_filtered-Prints :
      (f : Dto.EventFilter) (c : Console W) (said : List String) (events : Option (List Dto.Event))
      → (get f c).0 ≡ ok events
      → (get f c).1.printed ≡ c.printed ++ said
      → Prints c
          (said ++ print_events events)
          (get_filtered help_text open_file save get stats (some f) c)
  get_filtered-Prints f c said events h prints = rw h (
    refl,
    ap (λ l. l ++ print_events events) prints ∙ append_assoc c.printed said (print_events events),
  )

  -- A line that asks for a filter in quoted arguments makes the client ask for that filter.
  pub run_line-quoted :
      (f : Dto.EventFilter) (c : Console W) (said : List String) (events : Option (List Dto.Event))
      → f.from ≡ none
      → f.to ≡ none
      → FitsInt f.limit
      → FitsInt f.offset
      → IsPlain ("get" ∷ options f)
      → (get f c).0 ≡ ok events
      → (get f c).1.printed ≡ c.printed ++ said
      → Prints c
          (said ++ print_events events)
          (run_line help_text open_file save get stats (quoted ("get" ∷ options f)) c)
  unfolding run_line handle_get_events
  run_line-quoted f c said events from to limit offset plain h prints =
      rw
        (
          get_line (options f) plain,
          parse_event_filter-options "get" f c.printed from to limit offset,
        )
        (get_filtered-Prints f c said events h prints)

-- the client's reading of the console of the peer
abbrev on_client : {W : Type 0} → Console (World W) → Console W
on_client c = record { printed = c.printed; world = c.world.1 }

module _ (engine : Engine) (net : NetLogger) (clock : Clock) (now : ℕ → clock.TimePoint)
    {W : Type 0} (time : TimeUtil) (stub : Stub time.Timestamp W)
    (answers : Answers (use_cases (postgres_events_repo engine)) time stub) (cfg : AppConfig)
    (open_file : String → Option String) where
  get_page-eq :
      (f : Dto.EventFilter) (c : Console (World W)) (said : List String)
      (events : Option (List Dto.Event))
      → (GrpcService.get_events time stub f (on_client c)).0 ≡ ok events
      → (GrpcService.get_events time stub f (on_client c)).1.printed ≡ c.printed ++ said
      → ((get_page net clock now time stub f c).0 ≡ ok events)
        × ((get_page net clock now time stub f c).1.printed ≡ c.printed ++ said)
  unfolding get_page execute_get provide_events
  get_page-eq f c said events h prints = rw h (refl, prints)

  -- Over a stub that answers for the service with its repository, on consistent tables and without
  -- faults: a line `get`, with the options of a filter without times in quotes, prints the message
  -- of the reply, then the page of the filter as it arrives, and nothing else, where the database
  -- takes it and the call ends with OK. The options have no quotes in them and are not empty, and
  -- limit and offset fit an int.
  pub run_line-page :
      (f : Dto.EventFilter) (c : Console (World W)) (t : Tables engine)
      (p : Proto.EventFilter time.Timestamp) (taken : IsTaken engine (cut_to_uint32 f))
      → f.from ≡ none
      → f.to ≡ none
      → FitsInt f.limit
      → FitsInt f.offset
      → IsPlain ("get" ∷ options f)
      → answers.server c.world.1 ≡ record { tables = t; faults = [] }
      → IsConsistent engine t
      → to_proto_event_filter time (some f) ≡ ok (some p)
      → is_ok (stub.get_events (record { event_filter = some p }) c.world.1).0.0 ≡ true
      → let found = page engine (cut_to_uint32 f) taken.from taken.to t in
        Prints c (found_line found ∷ print_events (some found)) (
          run_line help_text open_file
            (save_file net clock now time stub cfg)
            (get_page net clock now time stub)
            (get_counts net clock now time stub)
            (quoted ("get" ∷ options f))
            c)
  run_line-page f c t p taken from to limit offset plain same h sent status =
      let found = page engine (cut_to_uint32 f) taken.from taken.to t in
      let (returned, printed) =
        get_events-page_fetched engine time stub answers f (on_client c) t p taken
          (subst (IsCanonical time) (sym from) tt) (subst (IsCanonical time) (sym to) tt) same h
          sent status in
      let (page_returned, page_printed) =
        get_page-eq f c (found_line found ∷ []) (some found) returned printed in
      run_line-quoted help_text open_file (save_file net clock now time stub cfg)
        (get_page net clock now time stub) (get_counts net clock now time stub) f c
        (found_line found ∷ []) (some found) from to limit offset plain page_returned page_printed
