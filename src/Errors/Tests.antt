-- ===== src/Errors/Tests.antt =====
-- The handlers on a failed insert, and a failure of the configuration.
use volatility_services.Prelude.{◌≡◌, ◌≢◌, refl, none, some, [], ◌∷◌}
use volatility_services.Prelude.Strings.{append}
use volatility_services.Errors.{
  Class, type_orm_error, query_failed_error, class_object, threw, returned, handle_type_orm_error,
  handle_as_moleculer_error, fatal_error, handle_error, configuration_error,
  configuration_failure_type, fails, nothing,
}
use volatility_services.Errors.Example.{classes, duplicate}
use volatility_services.Errors.Handlers.{
  Outcome, passed_on, handlers-passed_on, handle_as_moleculer_error-Outcome,
}

duplicate-error : (c : Class) → duplicate ≢ class_object c
duplicate-error c e = cc

handlers-passed_on_example :
    (handle_type_orm_error classes 1 duplicate ≡ threw duplicate)
    × (handle_error classes duplicate ≡ passed_on classes duplicate)
handlers-passed_on_example =
    handlers-passed_on classes 1 duplicate (duplicate-error query_failed_error)
      (duplicate-error type_orm_error)

handle_as_moleculer_error-Outcome_example :
    Outcome classes duplicate (handle_as_moleculer_error classes 1 duplicate)
handle_as_moleculer_error-Outcome_example = handle_as_moleculer_error-Outcome classes 1 duplicate

-- The class itself is the one value for which the handler of TypeORM's errors makes an error.
handle_type_orm_error-runs :
    handle_type_orm_error classes 1 (class_object query_failed_error)
    ≡ returned (fatal_error classes 1 (class_object query_failed_error))
unfolding handle_type_orm_error
handle_type_orm_error-runs = refl

configuration_error-runs :
    (configuration_error "" nothing
      ≡ fails
          (record {
            type = configuration_failure_type;
            reason = "Configuration error encountered 0";
            details = none;
            env_vars = some ("" ∷ []);
            config_vars = none;
            issues = none;
            urls = none;
            retryable = none;
          })
          nothing)
unfolding configuration_error append
configuration_error-runs = refl
