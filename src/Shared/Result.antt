-- ===== src/Shared/Result.antt =====
-- shared/core/entities/result.h: `Result<T>`, and its specialisation for no data.
use two_services.Base.{String, Bool, true, false, Option, none, some}

pub record Result {ℓ} (T : Type ℓ) : Type ℓ where
  pub success : Bool
  pub error_message : String
  pub value : Option T

module _ {ℓ} {T : Type ℓ} where
  -- `Ok(value)`
  abbrev pub ok_value : T → Result T
  ok_value v = record { success = true; error_message = ""; value = some v }

  -- `Result<T>::Ok()`, with success and no data
  abbrev pub ok_empty : Result T
  ok_empty = record { success = true; error_message = ""; value = none }

  abbrev pub not_ok : String → Result T
  not_ok message = record { success = false; error_message = message; value = none }

-- `Result<void>`
pub record VoidResult : Type 0 where
  pub success : Bool
  pub error_message : String

abbrev pub void_ok : VoidResult
void_ok = record { success = true; error_message = "" }

abbrev pub void_not_ok : String → VoidResult
void_not_ok message = record { success = false; error_message = message }
