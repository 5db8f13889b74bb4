-- ===== src/Ipv4Filter/Retry.antt =====
-- `kRetryPolicy` of services/ipv4_filter/main.cc, which `main` hands to the channel: the methods whose
-- calls gRPC may make again, and how often.
use two_services.Base.{ℕ, String, Bool, true, false, List, [], ◌∷◌, ◌==◌, ◌||◌}
use two_services.History.Service.{Rpc}

pub record RetryPolicy : Type 0 where
  pub max_attempts : ℕ
  pub initial_backoff : String
  pub max_backoff : String
  pub backoff_multiplier : String
  pub retryable_status_codes : List String

pub record MethodConfig : Type 0 where
  pub service : String
  pub method : String
  pub wait_for_ready : Bool
  pub retry_policy : RetryPolicy

-- the same for both methods
abbrev pub read_policy : RetryPolicy
read_policy = record {
  max_attempts = 4;
  initial_backoff = "0.1s";
  max_backoff = "1s";
  backoff_multiplier = "2.0";
  retryable_status_codes = "UNAVAILABLE" ∷ [];
}

abbrev pub retried_method : String → MethodConfig
retried_method method = record {
  service = "event_service.EventService";
  method = method;
  wait_for_ready = true;
  retry_policy = read_policy;
}

-- kRetryPolicy, as the JSON says it
unfoldable pub method_configs : List MethodConfig
method_configs = retried_method "GetEvents" ∷ retried_method "GetStats" ∷ []

-- the method that a call is of, under the name in the contract
abbrev pub method_of : {T : Type 0} → Rpc T → String
method_of (Rpc.save_event request) = "SaveEvent"
method_of (Rpc.save_events_stream stream) = "SaveEventsStream"
method_of (Rpc.get_events request) = "GetEvents"
method_of Rpc.get_stats = "GetStats"

abbrev pub names_method : String → List MethodConfig → Bool
names_method method [] = false
names_method method (c ∷ configs) = (c.method == method) || names_method method configs

-- Whether the call may be made again.
unfoldable pub is_retried : {T : Type 0} → Rpc T → Bool
unfolding method_configs
is_retried rpc = names_method (method_of rpc) method_configs
