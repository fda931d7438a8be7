-- ===== src/Errors/Handlers.antt =====
-- What the handlers of src/lib/handlers/errors.ts do with what was thrown.
use volatility_services.Prelude.{
  ℕ, ◌≡◌, ◌≢◌, refl, ◌⊎◌, inl, inr, Bool, true, false, [], ◌∷◌, if◌then◌else◌, Bool-cases, arith,
}
use volatility_services.Errors.{
  Class, error_class, type_orm_error, query_failed_error, moleculer_error,
  moleculer_retryable_error, moleculer_server_error, moleculer_client_error, other_class,
  MoleculerObject, Value, class_object, error, moleculer, failure, primitive, not_a_number, Handled,
  returned, threw, Classes, field, instance_of, strictly_equal, handle_type_orm_error, handle_error,
  handle_as_moleculer_error,
}

module _ (classes : Classes) where
  strictly_equal_refl : (v : Value) → v ≢ not_a_number → strictly_equal classes v v ≡ true
  unfolding strictly_equal
  strictly_equal_refl (class_object error_class) h = refl
  strictly_equal_refl (class_object type_orm_error) h = refl
  strictly_equal_refl (class_object query_failed_error) h = refl
  strictly_equal_refl (class_object moleculer_error) h = refl
  strictly_equal_refl (class_object moleculer_retryable_error) h = refl
  strictly_equal_refl (class_object moleculer_server_error) h = refl
  strictly_equal_refl (class_object moleculer_client_error) h = refl
  strictly_equal_refl (class_object (other_class n)) h = ground arith
  strictly_equal_refl (error e) h = ground arith
  strictly_equal_refl (moleculer m) h = ground arith
  strictly_equal_refl (failure n f) h = ground arith
  strictly_equal_refl (primitive n) h = ground arith
  strictly_equal_refl not_a_number h = absurd (h refl)

  handle_type_orm_error-threw :
      (id : ℕ) (v : Value)
      → v ≢ class_object query_failed_error
      → v ≢ class_object type_orm_error
      → handle_type_orm_error classes id v ≡ threw v
  unfolding handle_type_orm_error strictly_equal
  handle_type_orm_error-threw id (class_object error_class) h k = refl
  handle_type_orm_error-threw id (class_object type_orm_error) h k = absurd (k refl)
  handle_type_orm_error-threw id (class_object query_failed_error) h k = absurd (h refl)
  handle_type_orm_error-threw id (class_object moleculer_error) h k = refl
  handle_type_orm_error-threw id (class_object moleculer_retryable_error) h k = refl
  handle_type_orm_error-threw id (class_object moleculer_server_error) h k = refl
  handle_type_orm_error-threw id (class_object moleculer_client_error) h k = refl
  handle_type_orm_error-threw id (class_object (other_class n)) h k = refl
  handle_type_orm_error-threw id (error e) h k = refl
  handle_type_orm_error-threw id (moleculer m) h k = refl
  handle_type_orm_error-threw id (failure n f) h k = refl
  handle_type_orm_error-threw id (primitive n) h k = refl
  handle_type_orm_error-threw id not_a_number h k = refl

  abbrev pub passed_on : Value → Handled
  passed_on not_a_number = threw not_a_number
  passed_on v = returned v

  third_test :
      (a b c : Bool) (x y : Handled)
      → c ≡ true
      → (if a then x else if b then x else if c then x else if c then x else y) ≡ x
  third_test a b c x y h = ground arith

  handle_error-same : (v : Value) → v ≢ not_a_number → handle_error classes v ≡ returned v
  unfolding handle_error
  handle_error-same v h =
      third_test (strictly_equal classes v (class_object moleculer_client_error))
        (strictly_equal classes v (class_object moleculer_error)) (strictly_equal classes v v)
        (returned v) (threw v) (strictly_equal_refl v h)

  pub handle_error-passed_on : (v : Value) → handle_error classes v ≡ passed_on v
  handle_error-passed_on (class_object c) = handle_error-same (class_object c) λ e. cc
  handle_error-passed_on (error e) = handle_error-same (error e) λ e. cc
  handle_error-passed_on (moleculer m) = handle_error-same (moleculer m) λ e. cc
  handle_error-passed_on (failure n f) = handle_error-same (failure n f) λ e. cc
  handle_error-passed_on (primitive n) = handle_error-same (primitive n) λ e. cc
  handle_error-passed_on not_a_number = unfold handle_error strictly_equal in refl

  -- The two handlers that compare by `switch`: for every value but the two classes of TypeORM themselves
  -- that of TypeORM's errors throws it on, errors of TypeORM included; the other returns every value as
  -- it is, whatever its class, and throws only NaN on.
  pub handlers-passed_on :
      (id : ℕ) (v : Value)
      → v ≢ class_object query_failed_error
      → v ≢ class_object type_orm_error
      → (handle_type_orm_error classes id v ≡ threw v) × (handle_error classes v ≡ passed_on v)
  handlers-passed_on id v h k = (handle_type_orm_error-threw id v h k, handle_error-passed_on v)

  abbrev pub Outcome : Value → Handled → Type 0
  Outcome v (returned w) =
      (instance_of classes v error_class ≡ true)
      × (instance_of classes w moleculer_error ≡ true)
      × (((v ≡ w) × (instance_of classes v moleculer_error ≡ true))
          ⊎ ((m : MoleculerObject) × (w ≡ moleculer m)
              × (m.code ≡ 500)
              × (m.message ≡ field classes "message" v)
              × (instance_of classes v moleculer_error ≡ false)))
  Outcome v (threw w) = (instance_of classes v error_class ≡ false) × (w ≡ v)

  open classes use {
    extends, extends_refl, extends_trans, server_extends, retryable_extends, client_extends,
    moleculer_extends,
  }

  -- The tests that come first, as one.
  first_tests :
      (a b c d : Bool) (x y : Handled)
      → (a ≡ true → d ≡ true)
      → (b ≡ true → d ≡ true)
      → (c ≡ true → d ≡ true)
      → (if a then x else if b then x else if c then x else if d then x else y)
        ≡ (if d then x else y)
  first_tests a b c d x y f g h = ground arith

  instance_of-extends :
      (v : Value) (a b : Class)
      → extends a b ≡ true
      → instance_of classes v a ≡ true
      → instance_of classes v b ≡ true
  unfolding instance_of
  instance_of-extends (class_object c) a b h k = absurd (cc k)
  instance_of-extends (error e) a b h k = extends_trans e.class a b k h
  instance_of-extends (moleculer m) a b h k = extends_trans m.class a b k h
  instance_of-extends (failure n f) a b h k = absurd (cc k)
  instance_of-extends (primitive n) a b h k = absurd (cc k)
  instance_of-extends not_a_number a b h k = absurd (cc k)

  abbrev wrapped : ℕ → Value → MoleculerObject
  wrapped id v = record {
    id = id;
    class = moleculer_error;
    message = field classes "message" v;
    code = 500;
    type = "UNCATEGORIZED_ERROR";
    payload = ("stack", field classes "stack" v) ∷ ("name", field classes "name" v) ∷ [];
  }

  handle_as_moleculer_error-tests :
      (id : ℕ) (v : Value)
      → handle_as_moleculer_error classes id v ≡ (
          if instance_of classes v moleculer_error
          then returned v
          else if instance_of classes v error_class
          then returned (moleculer (wrapped id v))
          else threw v)
  unfolding handle_as_moleculer_error
  handle_as_moleculer_error-tests id v =
      let up = instance_of-extends v in
      first_tests (instance_of classes v moleculer_server_error)
        (instance_of classes v moleculer_retryable_error)
        (instance_of classes v moleculer_client_error) (instance_of classes v moleculer_error)
        (returned v)
        (if instance_of classes v error_class then returned (moleculer (wrapped id v)) else threw v)
        (λ h.
          up moleculer_retryable_error moleculer_error retryable_extends
            (up moleculer_server_error moleculer_retryable_error server_extends h))
        (up moleculer_retryable_error moleculer_error retryable_extends)
        (up moleculer_client_error moleculer_error client_extends)

  new-moleculer :
      (id : ℕ) (v : Value) → instance_of classes (moleculer (wrapped id v)) moleculer_error ≡ true
  unfolding instance_of
  new-moleculer id v = extends_refl moleculer_error

  -- What is returned is an error of moleculer's: the value itself where that is one already, and for any
  -- other error a new one with its message and code 500. What is no error is thrown on.
  pub handle_as_moleculer_error-Outcome :
      (id : ℕ) (v : Value) → Outcome v (handle_as_moleculer_error classes id v)
  handle_as_moleculer_error-Outcome id v =
      rw (handle_as_moleculer_error-tests id v)
        (elim (Bool-cases (instance_of classes v moleculer_error)) [
          | inl h ↦ rw h (
            instance_of-extends v moleculer_error error_class moleculer_extends h,
            h,
            inl (refl, h),
          )
          | inr h ↦ elim (Bool-cases (instance_of classes v error_class)) [
            | inl k ↦ rw (h, k) (k, new-moleculer id v, inr (wrapped id v, refl, refl, refl, h))
            | inr k ↦ rw (h, k) (k, refl)
          ]
        ])
