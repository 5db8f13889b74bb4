-- ===== src/Grpc.antt =====
-- grpc::Status, by what the services read and make of it. `other` is any further status code.
use two_services.Base.{ℕ, String, Bool, true, false}

pub data StatusCode : Type 0 where
  ok cancelled invalid_argument : StatusCode
  other : ℕ → StatusCode

pub record Status : Type 0 where
  pub error_code : StatusCode
  pub error_message : String

abbrev pub status_ok : Status
status_ok = record { error_code = StatusCode.ok; error_message = "" }

-- grpc::Status::CANCELLED
abbrev pub status_cancelled : Status
status_cancelled = record { error_code = StatusCode.cancelled; error_message = "" }

abbrev pub invalid_argument_status : String → Status
invalid_argument_status message = record {
  error_code = StatusCode.invalid_argument;
  error_message = message;
}

abbrev pub is_ok_code : StatusCode → Bool
is_ok_code StatusCode.ok = true
is_ok_code StatusCode.cancelled = false
is_ok_code StatusCode.invalid_argument = false
is_ok_code (StatusCode.other n) = false

-- `status.ok()`
abbrev pub is_ok : Status → Bool
is_ok s = is_ok_code s.error_code

-- the number of `error_code()`, as gRPC defines them
abbrev pub code_number : StatusCode → ℕ
code_number StatusCode.ok = 0
code_number StatusCode.cancelled = 1
code_number StatusCode.invalid_argument = 3
code_number (StatusCode.other n) = n
