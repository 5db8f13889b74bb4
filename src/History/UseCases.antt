-- ===== src/History/UseCases.antt =====
-- services/history: the interfaces of adapters/repositories and core/use_cases, and the use cases
-- of application/use_cases. `S` is the state that the repository changes.
use two_services.Base.{Option, List}
use two_services.Base.Exec.{Exec}
use two_services.Shared.Dto
use two_services.Shared.Result.{Result, VoidResult}

-- i_event_repository.h
pub record EventRepository (S : Type 0) : Type 0 where
  pub save_events : List Dto.Event → Exec S VoidResult
  pub get_events : Option Dto.EventFilter → Exec S (Result (List Dto.Event))
  pub get_stats : Exec S (Result Dto.Stats)

-- i_save_event_use_case.h
pub record SaveEventUseCase (S : Type 0) : Type 0 where
  pub execute : List Dto.Event → Exec S VoidResult

-- i_get_events_use_case.h
pub record GetEventsUseCase (S : Type 0) : Type 0 where
  pub execute : Option Dto.EventFilter → Exec S (Result (List Dto.Event))

-- i_get_stats_use_case.h
pub record GetStatsUseCase (S : Type 0) : Type 0 where
  pub execute : Exec S (Result Dto.Stats)

-- the three handlers that GrpcEventServiceImpl holds
pub record UseCases (S : Type 0) : Type 0 where
  pub save_event : SaveEventUseCase S
  pub get_events : GetEventsUseCase S
  pub get_stats : GetStatsUseCase S

module _ {S : Type 0} (repository : EventRepository S) where
  -- SaveEventUseCase::Execute
  unfoldable pub execute_save : List Dto.Event → Exec S VoidResult
  execute_save events = repository.save_events events

  -- GetEventsUseCase::Execute
  unfoldable pub execute_get : Option Dto.EventFilter → Exec S (Result (List Dto.Event))
  execute_get filter = repository.get_events filter

  -- GetStatsUseCase::Execute
  unfoldable pub execute_stats : Exec S (Result Dto.Stats)
  execute_stats = repository.get_stats

  -- the constructors of the three classes
  abbrev pub save_event_use_case : SaveEventUseCase S
  save_event_use_case = record { execute = execute_save }

  abbrev pub get_events_use_case : GetEventsUseCase S
  get_events_use_case = record { execute = execute_get }

  abbrev pub get_stats_use_case : GetStatsUseCase S
  get_stats_use_case = record { execute = execute_stats }

  -- the three handlers that main.cc gives to the service
  unfoldable pub use_cases : UseCases S
  unfolding execute_save execute_get execute_stats
  use_cases = record {
    save_event = save_event_use_case;
    get_events = get_events_use_case;
    get_stats = get_stats_use_case;
  }
