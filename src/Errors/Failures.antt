-- ===== src/Errors/Failures.antt =====
-- The failures of src/lib/errors/app_errors.ts.
use volatility_services.Prelude.{String, Bool, Option, none, some, List, [], ◌∷◌, if◌then◌else◌}
use volatility_services.Prelude.Strings.{is_empty, append}
use volatility_services.Prelude.Dict.{get}
use volatility_services.Prelude.Keys.{symbol_key}
use volatility_services.Errors.Values.{
  VgError, fleek_upload_failure_type, instrument_info_failure_type, create_stream_failure_type,
  configuration_failure_type, fetch_instruments_failure_type, insufficient_data_failure_type,
  rate_service_failure_type, ErrorObject, FailureInfo, Failure, fails, Wrapped, nothing,
  wraps_error,
}

abbrev blank_failure : VgError → String → FailureInfo
blank_failure type reason = record {
  type = type;
  reason = reason;
  details = none;
  env_vars = none;
  config_vars = none;
  issues = none;
  urls = none;
  retryable = none;
}

abbrev pub message_text : Option String → String
message_text none = "undefined"
message_text (some m) = m

abbrev pub message_of : ErrorObject → Option String
message_of e = get "message" e.fields

unfoldable pub fleek_upload_failure : ErrorObject → Failure
fleek_upload_failure e =
    fails
      (record (blank_failure fleek_upload_failure_type "Error uploading data to fleek") {
        details =
            some ("Recoverable errors are not being handled. Check wrappedError for details" ∷ []);
        config_vars = some ("FLEEK_ID" ∷ "FLEEK_SECRET" ∷ []);
        issues = some (
            "Issue: http://github.com/volatilitygroup/automated-failures/issues#tag?FleekUploadFailure"
            ∷ []);
      })
      (wraps_error e)

unfoldable pub instrument_info_failure : ErrorObject → Failure
instrument_info_failure e =
    fails
      (record (blank_failure instrument_info_failure_type "Error getting InstrumentInfo[]") {
        details = some ("Check if the error is recoverable" ∷ []);
        env_vars = some ("TARDIS_API" ∷ "TARDIS_SECRET" ∷ []);
        issues = some (append "Issue: " (message_text (message_of e)) ∷ []);
      })
      (wraps_error e)

-- An error is never false as a condition.
unfoldable pub create_stream_failure : ErrorObject → Failure
create_stream_failure e =
    fails
      (record (blank_failure create_stream_failure_type "Error creating tardis option stream") {
        details = some (append "Issue: " (message_text (message_of e)) ∷ []);
      })
      (wraps_error e)

-- `+""` is the number 0.
unfoldable pub configuration_error : String → Wrapped → Failure
configuration_error var_name wrapped =
    let reason =
      append "Configuration error encountered "
        (if is_empty var_name then "0" else append "(env:" (append var_name ")")) in
    fails
      (record (blank_failure configuration_failure_type reason) { env_vars = some (var_name ∷ []) })
      wrapped

unfoldable pub fetch_instruments_error : Wrapped → Failure
fetch_instruments_error wrapped =
    fails
      (record (blank_failure fetch_instruments_failure_type "Unhandled fetchInstruments Error") {
        env_vars = some ("TARDIS_API_KEY" ∷ []);
        config_vars = some ("tardis.exchange" ∷ "mfiv.asset" ∷ []);
      })
      wrapped

unfoldable pub insufficient_data_error : String → List String → Failure
insufficient_data_error reason details =
    fails (record (blank_failure insufficient_data_failure_type reason) { details = some details })
      nothing

-- Of an error of moleculer's: its message, and whether it may be tried again.
unfoldable pub riskless_rate_error : ErrorObject → Bool → Failure
riskless_rate_error e retryable =
    let reason : String = elim (message_of e) [ none ↦ "Rate Service Error" | some m ↦ m ] in
    fails (record (blank_failure rate_service_failure_type reason) { retryable = some retryable })
      (wraps_error e)
