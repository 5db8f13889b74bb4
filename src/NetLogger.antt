-- ===== src/NetLogger.antt =====
-- The net_logger library, which is outside the repository, by what the services read of it.
use two_services.Base.{ℕ, String, Option, List}

-- The enumerators that the code names; `other` is any value that its `default` labels take.
pub data RejectReason : Type 0 where
  none invalid_format invalid_ip_address filter_rejected other : RejectReason

pub record NetLogger : Type 1 where
  pub LogEntry : Type 0
  pub IpAddress : Type 0
  pub CompositeFilter : Type 0
  pub raw_line : LogEntry → String
  pub parsed_ip : LogEntry → Option IpAddress
  pub reason : LogEntry → RejectReason
  pub to_uint32 : IpAddress → ℕ
  -- `CreateFilter`, of configurations that are lists of texts
  pub create_filter : List (List String) → CompositeFilter
  -- the batches that `ProcessStream` hands to its callback, for the text of the stream
  pub process_stream : String → CompositeFilter → List (List LogEntry)
