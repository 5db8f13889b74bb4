-- ===== src/Lib.antt =====
-- two-services: a log filter that sends events, and a history service that keeps them.
--
-- The client (services/ipv4_filter) reads a log, builds an event from each entry and sends the events
-- over gRPC, in one message or as a stream. The service (services/history) validates what arrives,
-- converts it to its own entities and keeps it in PostgreSQL; it also answers queries and counts. Both
-- share the entities and the conversions under shared/.
--
-- Which file models which part:
--   Shared/Dto, Shared/Result: shared/core/entities/event.h, stats.h and result.h. Shared/Console: what a
--     process prints, to either stream.
--   Proto: the messages of proto/event_service.proto, with proto3's presence of fields and open
--     enumerations. Grpc: the statuses. NetLogger: what is used of the net_logger library.
--   Utils/Builder, Utils/Convert: every function of shared/utils/utils.cc. Utils/Address and
--     Utils/RoundTrip take values there and back.
--   History/UseCases: services/history/application/use_cases with core/use_cases, over the interface of
--     adapters/repositories.
--   History/Validate, History/Server, History/Stream: the validation, the unary handlers and
--     `SaveEventsStream` of services/history/network/grpc_event_service_impl.cc. Stream/Scan
--     describes the stream without its loop, Stream/Rounds is about one round of the loop,
--     Stream/Batches compares the loop with the description, and Stream/Stores and Stream/Success
--     are about what is saved, Stream/Log about what is written to the standard output, and
--     Stream/Alike about two stores that answer alike.
--   History/Postgres, History/Postgres/Select: the tables of sql/schema.sql with their constraints,
--     and the statements of `PrepareStatements`.
--   History/Repo: `PostgresEventsRepo` of services/history/infrastructure/db. Its child modules are
--     about what is kept (Invariant, Added, Keeps, Steps), how much is read (Limit), what is stored
--     (Save, Success, Appended, Unnamed, Doubt), and what the queries give back (Query, Reading, Returned).
--   Ipv4Filter/Interfaces: the interfaces of services/ipv4_filter/adapters, which the use cases take.
--   Ipv4Filter/EventBuilder, Ipv4Filter/UseCases, Ipv4Filter/GrpcService: `EventBuilder`, the three use
--     cases and `GrpcService` of services/ipv4_filter, whose GrpcService/Progress is
--     about what is printed on the way.
--   Ipv4Filter/Cli, Ipv4Filter/Config: the splitting of a line, the choice of the command,
--     `ParseEventFilter`, the handlers and the loop over the input of services/ipv4_filter/main.cc,
--     and `AppConfig` of config/config.h. Cli/Quoted, Cli/Options and Cli/Lines are about lines that
--     are put together from arguments, Cli/Ends about what ends the loop. Ipv4Filter/Main: `main`.
--     Ipv4Filter/Retry: the retry policy that it gives the channel.
--   History/Pool: `ConnectionPool` and `CreatePreparedPool` of pg_conn_pool.h beside the repository.
--     Pool/Reach is about the connections, Pool/Waiting about the threads that wait for one.
--   History/Service: the object `GrpcEventServiceImpl` over the use cases. Service/Kept and
--     Service/Durable are about any sequence of calls of it, Service/Alike about
--     two stores that answer alike, Service/Interleaved about a stream among other handlers.
--   History/Pooled: the methods of `PostgresEventsRepo` with the connection that each takes from the pool
--     and gives back. Pooled/Calls is about any sequence of them, Pooled/Created about the pool that
--     `CreatePreparedPool` makes, Pooled/Reopened about connections that are lost, and Pooled/Ready makes
--     them the repository of the use cases, over a pool that has a connection to give.
--   History/Overlap: transactions of `SaveEvents` that run at the same time. Overlap/Rows,
--     Overlap/Sequence and Overlap/Sound are about what holds of them at every moment, Overlap/Serial
--     about what they leave, Overlap/Alone about one that runs by itself, as in History/Repo, and
--     Overlap/Counted about `GetStats` over an abstract store.
--   History/Settings, History/Main: what services/history/main.cc takes from the environment, and
--     its `main` up to the call of `Wait`. Main/Started is about how it ends or comes to serve,
--     Main/Serving about what the service that it starts does.
--   System/Messages, System/Delivery, System/Sent, System/Stored, System/Fetched, System/Counted,
--     System/Typed, System/TypedSave: the client against the service, over gRPC, from the tables up to
--     a line that is typed. System/Crowded: the client against a service that others use too;
--     System/Started: against the service that `main` of services/history starts;
--     System/Repeated: attempts that are made again under the retry policy.
--   Samples, and the modules called Tests: concrete instances, and runs on them.
--
-- How the code is read:
--   A handler or a repository call that may throw is an `Exec S A`, a function from the state to a
--   result or an exception together with the state after it: what was done before a throw stays done.
--   `Db` is the state of the database and a list that says which of the coming calls to it fail, and how;
--   a call that fails, COMMIT too, has not been carried out. A transaction that throws puts the rows back,
--   and leaves the sequence of identifiers where it was. A commit that is carried
--   out and whose answer is lost is modelled in Overlap and in Repo/Doubt only.
--   The stream of `SaveEventsStream` is the list of its messages, each with what `IsCancelled` answers
--   after it, so every loop is structural recursion and no fuel is needed.
--   A std::string is a text whose characters stand for its bytes; what reaches the database is valid
--   in its encoding and has no zero character. Numbers are natural
--   numbers; what the messages cut to 32 bits is cut with `% 2 ^ 32`, and identifiers stay below 2 ^ 31.
--   The handler counts messages in an int, so streams of 2 ^ 31 messages and more are outside the model.
--   What the client prints, to either stream, is a list of texts in its `Console`, beside the peer. What
--   `SaveEventsStream` writes to the standard output of the service goes through the argument `say` of the
--   handler; where the output is not looked at, that is `silent`.
--   The mutex of the pool makes `Acquire` and the push of `ReturnConnection` atomic; Pool/Reach takes
--   any order of them, with connections that break in between, as a step relation. Pool/Waiting adds
--   the threads that sleep, wake up, with and without a notification, and run out of time; the push
--   and the notification after it are two steps. In Pooled, a connection is prepared or not, and a
--   transaction on one that is not ends at its first prepared statement; the model of Repo is that of
--   a prepared connection.
--
-- Parameters, and what is assumed of them:
--   `Driver`: pqxx::connection with `is_open`, and whether it is prepared; what opening a connection
--     and preparing it do, where a preparer may throw and is caught, are arguments of the calls, and so is what `BuildAndStart` gives.
--   `Engine`: the types TIMESTAMPTZ and INET with their texts, the texts of errors, and an ORDER BY that
--     permutes the rows and sorts them; rows with equal keys come in any order, but in the same one each
--     time that the rows are the same, which PostgreSQL does not promise: where the service over the pool is
--     compared with the one without, both order alike.
--   `TimeUtil`, `Clock`, `NetLogger`: google::protobuf's TimeUtil, the system clock with its time zone,
--     and the log library; nothing is assumed beyond their types.
--   `Stub` with `Delivers` and `Answers`: the generated stub. A call that ends with OK ran its handler
--     on what was sent, and its answer is the handler's; a call that ends otherwise says nothing. No
--     other client changes the store during a call, but in System/Crowded, where the others' calls
--     come before the single calls that a handler makes of its use cases.
--
-- Not modelled: what the connection pool prints, deadlines, when gRPC makes a
-- call again, and what the server does in `Wait`. Handlers that run at the same time share only the
-- connection pool and the database; outside Overlap, a call of the repository is one transaction, and
-- transactions are taken one after another.
pub mod Base
pub mod Shared
pub mod Proto
pub mod NetLogger
pub mod Utils
pub mod Grpc
pub mod History
pub mod Ipv4Filter
pub mod System
pub mod Samples
