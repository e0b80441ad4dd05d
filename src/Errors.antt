-- ===== src/Errors.antt =====
-- include/launch_cpp/error_code.hpp: error codes, errors and results.
use launch_cpp.Prelude.{ℕ, Bool, true, false, not, [], Str, codes}

pub data ErrorCode : Type 0 where
  success invalid_argument invalid_configuration process_spawn_failed : ErrorCode
  process_not_found event_handler_error substitution_error cyclic_dependency : ErrorCode
  timeout shutdown_requested not_implemented internal_error : ErrorCode
  resource_exhausted max_retries_exceeded unknown_error : ErrorCode

-- The numbers of the enumeration.
unfoldable pub error_number : ErrorCode → ℕ
error_number success = 0
error_number invalid_argument = 1
error_number invalid_configuration = 2
error_number process_spawn_failed = 3
error_number process_not_found = 4
error_number event_handler_error = 5
error_number substitution_error = 6
error_number cyclic_dependency = 7
error_number timeout = 8
error_number shutdown_requested = 9
error_number not_implemented = 10
error_number internal_error = 11
error_number resource_exhausted = 12
error_number max_retries_exceeded = 13
error_number unknown_error = 99

pub record Error : Type 0 where
  pub code : ErrorCode
  pub message : Str

-- `Error()`.
abbrev pub no_error : Error
no_error = record { code = success; message = [] }

abbrev pub error : ErrorCode → Str → Error
error code message = record { code = code; message = message }

abbrev pub code_is_success : ErrorCode → Bool
code_is_success success = true
code_is_success _ = false

abbrev pub is_success : Error → Bool
is_success e = code_is_success e.code

abbrev pub is_error : Error → Bool
is_error e = not (is_success e)

-- The last clause is the source's `default:`.
unfoldable pub get_default_message : ErrorCode → Str
get_default_message success = codes "Success"
get_default_message invalid_argument = codes "Invalid argument"
get_default_message invalid_configuration = codes "Invalid configuration"
get_default_message process_spawn_failed = codes "Failed to spawn process"
get_default_message process_not_found = codes "Process not found"
get_default_message event_handler_error = codes "Event handler error"
get_default_message substitution_error = codes "Substitution evaluation error"
get_default_message cyclic_dependency = codes "Cyclic dependency detected"
get_default_message timeout = codes "Operation timed out"
get_default_message shutdown_requested = codes "Shutdown requested"
get_default_message not_implemented = codes "Feature not implemented"
get_default_message internal_error = codes "Internal error"
get_default_message _ = codes "Unknown error"

-- `Result<T>`: the value is read only where there is no error, so one of the two is kept. `err` is
-- for errors whose code is not success: a result made of `Error()`, which the source would take for
-- a value that was never set, is made by no code under src/ and is taken as an error where actions
-- and handlers are run.
pub data Result {ℓ} (A : Type ℓ) : Type ℓ where
  ok : A → Result A
  err : Error → Result A

abbrev pub has_value {ℓ} : {A : Type ℓ} → Result A → Bool
has_value (ok a) = true
has_value (err e) = is_success e

abbrev pub has_error {ℓ} : {A : Type ℓ} → Result A → Bool
has_error r = not (has_value r)
