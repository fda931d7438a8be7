-- ===== src/Errors/Example.antt =====
-- The inheritance of moleculer and TypeORM, and an error that was thrown.
use volatility_services.Prelude.{◌≡◌, refl, String, Bool, true, false, [], ◌∷◌, nat_beq, arith}
use volatility_services.Errors.{
  Class, error_class, type_orm_error, query_failed_error, moleculer_error,
  moleculer_retryable_error, moleculer_server_error, moleculer_client_error, other_class, Value,
  error, Classes,
}

abbrev pub extends : Class → Class → Bool
extends _ error_class = true
extends type_orm_error type_orm_error = true
extends query_failed_error type_orm_error = true
extends query_failed_error query_failed_error = true
extends moleculer_error moleculer_error = true
extends moleculer_retryable_error moleculer_error = true
extends moleculer_server_error moleculer_error = true
extends moleculer_client_error moleculer_error = true
extends moleculer_retryable_error moleculer_retryable_error = true
extends moleculer_server_error moleculer_retryable_error = true
extends moleculer_server_error moleculer_server_error = true
extends moleculer_client_error moleculer_client_error = true
extends (other_class m) (other_class n) = nat_beq m n
extends _ _ = false

pub extends_trans : (a b c : Class) → extends a b ≡ true → extends b c ≡ true → extends a c ≡ true
extends_trans a b c h k = ground arith

pub extends_refl : (c : Class) → extends c c ≡ true
extends_refl c = ground arith

abbrev pub class_name : Class → String
class_name query_failed_error = "QueryFailedError"
class_name _ = "Error"

abbrev pub classes : Classes
classes = record {
  extends = extends;
  name_of = class_name;
  extends_refl = extends_refl;
  extends_trans = extends_trans;
  server_extends = refl;
  retryable_extends = refl;
  client_extends = refl;
  moleculer_extends = refl;
}

-- A row that is already in the table.
abbrev pub duplicate : Value
duplicate = error (record {
  id = 7;
  class = query_failed_error;
  fields =
      ("message", "duplicate key value violates unique constraint")
      ∷ ("name", "QueryFailedError")
      ∷ [];
})
