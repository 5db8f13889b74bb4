-- ===== src/Samples.antt =====
-- Concrete instances of what the development leaves open, for the tests: a database server, a clock,
-- the log library, TimeUtil, and a stub that hands each call to the handlers.
pub mod Sort
pub mod Delivered
pub mod Data
pub mod Facts
use Prim.Native.Char.{code}
use Prim.Native.String
use two_services.Base.{
  ℕ, ◌+◌, ◌-◌, ◌*◌, String, Bool, true, false, ◌&&◌, Option, none, some, List, [], ◌∷◌, ◌++◌, map,
  leb, ltb, ◌==◌, if◌then◌else◌,
}
use two_services.Base.Exec.{Except, ok, throw, Exec}
use two_services.Grpc.{Status, StatusCode}
use two_services.Proto
use two_services.NetLogger.{NetLogger, RejectReason}
use two_services.Utils.Builder.{Clock, Tm, ipv4_address_to_string}
use two_services.Utils.Address.{read_ipv4}
use two_services.Utils.Convert.{TimeUtil}
use two_services.History.Postgres.{Engine, Tables, SqlError}
use two_services.History.Repo.{Db, postgres_events_repo}
use two_services.History.UseCases.{UseCases, use_cases}
use two_services.History.Server
use two_services.History.Stream.{silent, save_events_stream}
use two_services.Ipv4Filter.GrpcService.{Stub}
use two_services.Samples.Sort.{sort, sort-Perm, sort-sorted}

-- the number that the digits of a timestamp make, which grows with the time
abbrev pub rank_onto : ℕ → String → ℕ
rank_onto n String.[] = n
rank_onto n (String.◌∷◌ c s) =
    let digit = rank_onto (n * 10 + (code c - 48)) s in
    let other = rank_onto n s in if leb 48 (code c) && ltb (code c) 58 then digit else other

abbrev pub rank : String → ℕ
rank s = rank_onto 0 s

-- a type whose texts are read as they are, but for the empty one
abbrev pub not_empty : String → Option String
not_empty s = if s == "" then none else some s

-- timestamps are kept as texts, addresses as numbers
abbrev pub engine : Engine
engine = record {
  Timestamptz = String;
  read_timestamp = not_empty;
  show_timestamp = λ s. s;
  timestamp_leb = λ s t. leb (rank s) (rank t);
  Inet = ℕ;
  read_inet = read_ipv4;
  show_inet = ipv4_address_to_string;
  order_by = λ A key rows. sort (λ row. rank (key row)) rows;
  order_by-perm = λ A key rows. sort-Perm (λ row. rank (key row)) rows;
  order_by-sorted = λ A key rows. sort-sorted (λ row. rank (key row)) rows;
  what = λ e. "SQL error";
}

abbrev pub no_tables : Tables engine
no_tables = record { events = []; payloads = []; next_id = 1 }

abbrev pub empty_db : Db engine
empty_db = record { tables = no_tables; faults = [] }

abbrev pub service : UseCases (Db engine)
service = use_cases (postgres_events_repo engine)

abbrev pub time_util : TimeUtil
time_util = record { Timestamp = String; from_string = not_empty; to_string = λ s. s }

abbrev pub clock : Clock
clock = record { TimePoint = Tm; localtime = λ t. t }

-- a clock that is read once in a second
abbrev pub now : ℕ → Tm
now k = record { tm_year = 125; tm_mon = 0; tm_mday = 31; tm_hour = 9; tm_min = 5; tm_sec = k }

pub record Entry : Type 0 where
  pub raw_line : String
  pub parsed_ip : Option ℕ
  pub reason : RejectReason

-- two batches, with an empty line in the first
abbrev pub net : NetLogger
net = record {
  LogEntry = Entry;
  IpAddress = ℕ;
  CompositeFilter = Unit {0};
  raw_line = λ entry. entry.raw_line;
  parsed_ip = λ entry. entry.parsed_ip;
  reason = λ entry. entry.reason;
  to_uint32 = λ ip. ip;
  create_filter = λ filters. tt;
  process_stream = λ input filter.
      (record { raw_line = input; parsed_ip = some 3_232_235_777; reason = RejectReason.none }
        ∷ record { raw_line = ""; parsed_ip = none; reason = RejectReason.invalid_format }
        ∷ [])
      ∷ (record { raw_line = "x"; parsed_ip = none; reason = RejectReason.invalid_format } ∷ [])
      ∷ [];
}

-- the peer of the stub: the server, and what was written to the stream that is open
pub record PeerOf (S : Type 0) : Type 0 where
  pub db : S
  pub sent : List Proto.SaveEventsRequest
  pub start : S

abbrev pub Peer : Type 0
Peer = PeerOf (Db engine)

-- gRPC's status UNKNOWN, for a handler that throws
abbrev pub unknown_status : Status
unknown_status = record { error_code = StatusCode.other 2; error_message = "" }

abbrev pub answer : {R : Type 0} → R → Except (Status × R) → Status × R
answer default (ok reply) = reply
answer default (throw what) = (unknown_status, default)

abbrev pub no_reply : Proto.SaveEventsResponse
no_reply = record { success = false; message = "" }

-- a stub that loses nothing
abbrev pub stub_logging : {S : Type 0} → UseCases S → (String → S → S) → Stub String (PeerOf S)
stub_logging service log = record {
  save_event = λ request w.
      let (r, db) = Server.save_event service request w.db in
      (answer no_reply r, record w { db = db });
  get_events = λ request w.
      let (r, db) = Server.get_events service time_util request w.db in
      (answer (record { events = []; success = false; message = "" }) r, record w { db = db });
  get_stats = λ w.
      let (r, db) = Server.get_stats service w.db in
      (answer (record { stats = none; success = false; message = "" }) r, record w { db = db });
  save_events_stream = λ w. (true, record w { sent = []; start = w.db });
  write = λ message w. (true, record w { sent = w.sent ++ message ∷ [] });
  finish = λ w.
      let (reply, db) = save_events_stream service log (map (λ m. (m, false)) w.sent) w.start in
      (reply, record w { db = db });
}

abbrev pub stub_of : {S : Type 0} → UseCases S → Stub String (PeerOf S)
stub_of service = stub_logging service silent

abbrev pub stub : Stub String Peer
stub = stub_of service
