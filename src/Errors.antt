-- ===== src/Errors.antt =====
-- src/lib/failure.ts, src/lib/errors/app_errors.ts and src/lib/handlers/errors.ts: failures, the errors made
-- from them, and the handlers that classify what was thrown. The classes of moleculer and TypeORM enter by
-- their inheritance, as `Classes`. The lines written to the console are left out.
pub mod Values
pub mod Failures
pub mod Handlers
pub mod Example
mod Tests
use volatility_services.Prelude.{
  ℕ, ◌≡◌, String, Bool, true, false, ◌&&◌, ◌||◌, Option, none, some, List, [], ◌∷◌, nat_beq,
  if◌then◌else◌,
}
use volatility_services.Prelude.Strings.{is_empty, append}
use volatility_services.Prelude.Dict.{get}
use volatility_services.Prelude.Keys.{symbol_key}
unfoldable pub use Values.*
unfoldable pub use Failures.*

module _ (classes : Classes) where
  open classes use {extends, name_of}

  -- `value[name]` for a text
  unfoldable pub field : String → Value → Option String
  field name (class_object c) = if symbol_key.same name "name" then some (name_of c) else none
  field name (error e) = get name e.fields
  field name (moleculer m) = if symbol_key.same name "message" then m.message else none
  field name (failure id f) = none
  field name (primitive n) = none
  field name not_a_number = none

  -- `value instanceof class`
  unfoldable pub instance_of : Value → Class → Bool
  instance_of (error e) k = extends e.class k
  instance_of (moleculer m) k = extends m.class k
  instance_of _ k = false

  -- `a === b`
  unfoldable pub strictly_equal : Value → Value → Bool
  strictly_equal (class_object c) (class_object k) = class_beq c k
  strictly_equal (error e) (error f) = nat_beq e.id f.id
  strictly_equal (moleculer m) (moleculer n) = nat_beq m.id n.id
  strictly_equal (failure m f) (failure n g) = nat_beq m n
  strictly_equal (primitive m) (primitive n) = nat_beq m n
  strictly_equal _ _ = false

  -- `new VGIgnorableError(err)` and `new FatalDataSourceError(err)`; `id` is the new object's identity.
  abbrev pub ignorable_error : ℕ → Value → Value
  ignorable_error id err = moleculer (record {
    id = id;
    class = moleculer_error;
    message = field "message" err;
    code = 200;
    type = "ERROR_IGNORED";
    payload = ("parameters", field "parameters" err) ∷ ("query", field "query" err) ∷ [];
  })

  abbrev pub fatal_error : ℕ → Value → Value
  fatal_error id err = moleculer (record {
    id = id;
    class = moleculer_error;
    message = field "message" err;
    code = 500;
    type = "ERROR_TYPEORM";
    payload = ("stack", field "stack" err) ∷ ("name", field "name" err) ∷ [];
  })

  abbrev pub is_duplicate : Option String → Bool
  is_duplicate none = false
  is_duplicate (some m) = symbol_key.same m "duplicate key value violates unique constraint"

  -- The cases of the `switch` are compared with the value by `===`.
  unfoldable pub handle_type_orm_error : ℕ → Value → Handled
  unfolding strictly_equal field
  handle_type_orm_error id err =
      if strictly_equal err (class_object query_failed_error)
      then if is_duplicate (field "message" err)
        then returned (ignorable_error id err)
        else returned (fatal_error id err)
      else if strictly_equal err (class_object type_orm_error)
      then returned (fatal_error id err)
      else threw err

  unfoldable pub handle_error : Value → Handled
  unfolding strictly_equal
  handle_error err =
      if strictly_equal err (class_object moleculer_client_error)
      then returned err
      else if strictly_equal err (class_object moleculer_error)
      then returned err
      else if strictly_equal err err
      then returned err
      else if strictly_equal err err
      then returned err
      else threw err

  -- `id` is the identity of the error that is made of another one.
  unfoldable pub handle_as_moleculer_error : ℕ → Value → Handled
  unfolding instance_of field
  handle_as_moleculer_error id err =
      if instance_of err moleculer_server_error
      then returned err
      else if instance_of err moleculer_retryable_error
      then returned err
      else if instance_of err moleculer_client_error
      then returned err
      else if instance_of err moleculer_error
      then returned err
      else if instance_of err error_class
      then returned (
          moleculer (record {
            id = id;
            class = moleculer_error;
            message = field "message" err;
            code = 500;
            type = "UNCATEGORIZED_ERROR";
            payload = ("stack", field "stack" err) ∷ ("name", field "name" err) ∷ [];
          }))
      else threw err
