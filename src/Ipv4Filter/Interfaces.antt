-- ===== src/Ipv4Filter/Interfaces.antt =====
-- services/ipv4_filter/adapters/interfaces: what the use cases take, and `GrpcService` gives. `W` is the
-- state that a call changes.
use two_services.Base.{Bool, Option, List}
use two_services.Base.Exec.{Exec}
use two_services.Shared.Dto

-- i_event_builder.h, over the entries of the log and what a builder changes
pub record EventBuilder (LogEntry S : Type 0) : Type 0 where
  pub build : LogEntry → S → Option Dto.Event × S

-- i_event_saver.h
pub record EventSaver (W : Type 0) : Type 0 where
  pub save : Dto.Event → W → Bool × W
  pub save_batch : List Dto.Event → W → Bool × W

-- i_event_provider.h
pub record EventProvider (W : Type 0) : Type 0 where
  pub get_events_impl : Dto.EventFilter → Exec W (Option (List Dto.Event))

-- IEventProvider::GetEvents
unfoldable pub provide_events :
    {W : Type 0} → EventProvider W → Dto.EventFilter → Exec W (Option (List Dto.Event))
provide_events provider filter = provider.get_events_impl filter

-- i_stats_provider.h
pub record StatsProvider (W : Type 0) : Type 0 where
  pub get_stats : W → Option Dto.Stats × W
