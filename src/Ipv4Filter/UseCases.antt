-- ===== src/Ipv4Filter/UseCases.antt =====
-- services/ipv4_filter/core/use_cases: `SaveEventUseCase` over a builder and a saver, and the use cases that
-- read over their providers.
pub mod Built
use two_services.Base.{String, Bool, Option, none, some, List, [], ◌∷◌, ◌++◌}
use two_services.Base.Exec.{Exec, ◌>>=◌, pure}
use two_services.Ipv4Filter.Interfaces.{
  EventBuilder, EventSaver, EventProvider, provide_events, StatsProvider,
}
use two_services.Shared.Dto
use two_services.NetLogger.{NetLogger}

-- `if (event.has_value()) events.push_back(*event)`
abbrev pub push_some : List Dto.Event → Option Dto.Event → List Dto.Event
push_some events none = events
push_some events (some event) = events ++ event ∷ []

-- SaveEventUseCase::Request
pub record SaveRequest (CompositeFilter : Type 0) : Type 0 where
  pub filter : CompositeFilter
  pub source_service_name : String

-- `S` is what the builder changes
module _ (net : NetLogger) {S : Type 0} (builder : EventBuilder net.LogEntry S) where
  -- the callback, for one batch of entries
  unfoldable pub on_batch : List net.LogEntry → List Dto.Event × S → List Dto.Event × S
  on_batch [] s = s
  on_batch (entry ∷ entries) (events, b) =
      let (event, b') = builder.build entry b in on_batch entries (push_some events event, b')

  -- the calls that `ProcessStream` makes of it
  unfoldable pub on_batches : List (List net.LogEntry) → List Dto.Event × S → List Dto.Event × S
  unfolding on_batch
  on_batches [] s = s
  on_batches (batch ∷ batches) s = on_batches batches (on_batch batch s)

  -- SaveEventUseCase::Execute
  unfoldable pub execute_save :
      {W : Type 0}
      → EventSaver W
      → SaveRequest net.CompositeFilter
      → String
      → S × W
      → Bool × (S × W)
  unfolding on_batches
  execute_save saver request input (b, w) =
      let (events, b') = on_batches (net.process_stream input request.filter) ([], b) in
      let (saved, w') = saver.save_batch events w in (saved, (b', w'))

-- GetEventsUseCase::Request
pub record GetRequest : Type 0 where
  pub filter : Dto.EventFilter

-- GetEventsUseCase::Result
pub record GetResult : Type 0 where
  pub events : Option (List Dto.Event)

-- GetStatsUseCase::Result
pub record StatsResult : Type 0 where
  pub stats : Option Dto.Stats

module _ {W : Type 0} where
  -- GetEventsUseCase::Execute
  unfoldable pub execute_get : EventProvider W → GetRequest → Exec W GetResult
  unfolding provide_events
  execute_get provider request = do
    events ← provide_events provider request.filter
    pure (record { events = events })

  -- GetStatsUseCase::Execute
  unfoldable pub execute_stats : StatsProvider W → W → StatsResult × W
  execute_stats provider w =
      let (stats, w') = provider.get_stats w in (record { stats = stats }, w')
