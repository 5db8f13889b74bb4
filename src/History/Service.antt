-- ===== src/History/Service.antt =====
-- The object that services/history/main.cc registers with the server: `GrpcEventServiceImpl` of
-- network/grpc_event_service_impl.h, with the four calls of the service of the contract.
pub mod Kept
pub mod Alike
pub mod Durable
pub mod Interleaved
mod Tests
use two_services.Base.{[], ◌∷◌, String, Bool, List}
use two_services.Base.Exec.{Exec, Except}
use two_services.Grpc.{Status}
use two_services.Proto
use two_services.Utils.Convert.{TimeUtil}
use two_services.History.UseCases.{UseCases}
use two_services.History.Server
use two_services.History.Stream
use two_services.History.Stream.{Reply}

-- EventService::Service
pub record EventService (Timestamp S : Type 0) : Type 0 where
  pub save_event : Proto.SaveEventRequest → Exec S (Status × Proto.SaveEventsResponse)
  pub save_events_stream : List (Proto.SaveEventsRequest × Bool) → S → Reply × S
  pub get_events : Proto.GetEventsRequest Timestamp → Exec S (Status × Proto.GetEventsResponse)
  pub get_stats : Exec S (Status × Proto.GetStatsResponse)

-- the constructor of GrpcEventServiceImpl; `say` writes to the standard output
unfoldable pub grpc_event_service_impl :
    {S : Type 0} (time : TimeUtil) → UseCases S → (String → S → S) → EventService time.Timestamp S
grpc_event_service_impl time uc say = record {
  save_event = Server.save_event uc;
  save_events_stream = Stream.save_events_stream uc say;
  get_events = Server.get_events uc time;
  get_stats = Server.get_stats uc;
}

-- A call that a client makes.
pub data Rpc (Timestamp : Type 0) : Type 0 where
  save_event : Proto.SaveEventRequest → Rpc Timestamp
  save_events_stream : List (Proto.SaveEventsRequest × Bool) → Rpc Timestamp
  get_events : Proto.GetEventsRequest Timestamp → Rpc Timestamp
  get_stats : Rpc Timestamp

-- What is left behind when its handler has run.
unfoldable pub serve : {T S : Type 0} → EventService T S → Rpc T → S → S
serve service (Rpc.save_event request) s = (service.save_event request s).1
serve service (Rpc.save_events_stream stream) s = (service.save_events_stream stream s).1
serve service (Rpc.get_events request) s = (service.get_events request s).1
serve service Rpc.get_stats s = (service.get_stats s).1

-- What the client gets: the reply, or what the handler of a unary call throws.
pub data Answer : Type 0 where
  saved : Except (Status × Proto.SaveEventsResponse) → Answer
  streamed : Reply → Answer
  found : Except (Status × Proto.GetEventsResponse) → Answer
  counted : Except (Status × Proto.GetStatsResponse) → Answer

-- A call, with its answer.
unfoldable pub answer : {T S : Type 0} → EventService T S → Rpc T → S → Answer × S
answer service (Rpc.save_event request) s =
    let (r, s') = service.save_event request s in (saved r, s')
answer service (Rpc.save_events_stream stream) s =
    let (r, s') = service.save_events_stream stream s in (streamed r, s')
answer service (Rpc.get_events request) s =
    let (r, s') = service.get_events request s in (found r, s')
answer service Rpc.get_stats s = let (r, s') = service.get_stats s in (counted r, s')

-- Calls one after another, with their answers.
unfoldable pub answer_all : {T S : Type 0} → EventService T S → List (Rpc T) → S → List Answer × S
answer_all service [] s = ([], s)
answer_all service (rpc ∷ rpcs) s =
    let (a, s') = answer service rpc s in
    let (answers, end) = answer_all service rpcs s' in (a ∷ answers, end)
