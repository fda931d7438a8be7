-- ===== src/Errors/Values.antt =====
-- What src/lib/failure.ts, src/lib/errors/app_errors.ts and src/lib/handlers/errors.ts throw and wrap: failures,
-- errors and their classes.
use volatility_services.Prelude.{ℕ, ◌≡◌, String, Bool, true, false, Option, List, nat_beq}
use volatility_services.Prelude.Keys.{symbol_key}

pub data VgError : Type 0 where
  fleek_upload_failure_type : VgError
  instrument_info_failure_type : VgError
  create_stream_failure_type : VgError
  configuration_failure_type : VgError
  fetch_instruments_failure_type : VgError
  insufficient_data_failure_type : VgError
  rate_service_failure_type : VgError

abbrev pub type_text : VgError → String
type_text fleek_upload_failure_type = "FleekUploadFailure"
type_text instrument_info_failure_type = "InstrumentInfoFailure"
type_text create_stream_failure_type = "CreateStreamFailure"
type_text configuration_failure_type = "ConfigurationFailure"
type_text fetch_instruments_failure_type = "FetchInstrumentsFailure"
type_text insufficient_data_failure_type = "InsufficientDataFailure"
type_text rate_service_failure_type = "RateServiceFailure"

-- The classes that the handlers name, `Error`, and the others that extend it.
pub data Class : Type 0 where
  error_class : Class
  type_orm_error : Class
  query_failed_error : Class
  moleculer_error : Class
  moleculer_retryable_error : Class
  moleculer_server_error : Class
  moleculer_client_error : Class
  other_class : ℕ → Class

abbrev pub class_beq : Class → Class → Bool
class_beq error_class error_class = true
class_beq type_orm_error type_orm_error = true
class_beq query_failed_error query_failed_error = true
class_beq moleculer_error moleculer_error = true
class_beq moleculer_retryable_error moleculer_retryable_error = true
class_beq moleculer_server_error moleculer_server_error = true
class_beq moleculer_client_error moleculer_client_error = true
class_beq (other_class m) (other_class n) = nat_beq m n
class_beq _ _ = false

-- An error object that other code made: `id` is its identity, and `fields` has its texts.
pub record ErrorObject : Type 0 where
  pub id : ℕ
  pub class : Class
  pub fields : List (String × String)

-- An error object of moleculer's that this code makes, with the data that it gets.
pub record MoleculerObject : Type 0 where
  pub id : ℕ
  pub class : Class
  pub message : Option String
  pub code : ℕ
  pub type : String
  pub payload : List (String × Option String)

-- A failure, without the error that it wraps.
pub record FailureInfo : Type 0 where
  pub type : VgError
  pub reason : String
  pub details : Option (List String)
  pub env_vars : Option (List String)
  pub config_vars : Option (List String)
  pub issues : Option (List String)
  pub urls : Option (List String)
  pub retryable : Option Bool

mutual
  pub data Failure : Type 0 where
    fails : FailureInfo → Wrapped → Failure

  pub data Wrapped : Type 0 where
    nothing : Wrapped
    wraps_error : ErrorObject → Wrapped
    wraps_failure : Failure → Wrapped

-- What can be thrown: a class itself, an error, a failure as a plain object with its identity, or another
-- value.
pub data Value : Type 0 where
  class_object : Class → Value
  error : ErrorObject → Value
  moleculer : MoleculerObject → Value
  failure : ℕ → Failure → Value
  primitive : ℕ → Value
  not_a_number : Value

-- How a handler ends.
pub data Handled : Type 0 where
  returned : Value → Handled
  threw : Value → Handled

-- The value of `throw handler(err)`.
abbrev pub thrown : Handled → Value
thrown (returned w) = w
thrown (threw w) = w

-- The inheritance of the classes.
pub record Classes : Type 0 where
  pub extends : Class → Class → Bool
  pub name_of : Class → String
  pub extends_refl : (c : Class) → extends c c ≡ true
  pub extends_trans : (a b c : Class) → extends a b ≡ true → extends b c ≡ true → extends a c ≡ true
  pub server_extends : extends moleculer_server_error moleculer_retryable_error ≡ true
  pub retryable_extends : extends moleculer_retryable_error moleculer_error ≡ true
  pub client_extends : extends moleculer_client_error moleculer_error ≡ true
  pub moleculer_extends : extends moleculer_error error_class ≡ true
