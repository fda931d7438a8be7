-- ===== src/Async/Example.antt =====
-- ResultAsync by clauses.
use volatility_services.Prelude.{refl, ap, ok, err}
use volatility_services.Errors.{Value, Handled, returned, threw}
use volatility_services.Async.{Settled, fulfilled, rejected, Outcome, ResultAsync}

abbrev handled : (A : Type 0) → Handled → Outcome A
handled A (returned w) = fulfilled (err w)
handled A (threw w) = rejected w

abbrev from_promise : (A : Type 0) → Settled A → (Value → Handled) → Outcome A
from_promise A (fulfilled a) h = fulfilled (ok a)
from_promise A (rejected v) h = handled A (h v)

abbrev settled_ok : (A : Type 0) → Settled A → Outcome A
settled_ok A (fulfilled a) = fulfilled (ok a)
settled_ok A (rejected v) = rejected v

abbrev map : (A B : Type 0) → (A → Settled B) → Outcome A → Outcome B
map A B f (fulfilled (ok a)) = settled_ok B (f a)
map A B f (fulfilled (err v)) = fulfilled (err v)
map A B f (rejected v) = rejected v

abbrev unwrap_or : (A : Type 0) → A → Outcome A → Settled A
unwrap_or A b (fulfilled (ok a)) = fulfilled a
unwrap_or A b (fulfilled (err v)) = fulfilled b
unwrap_or A b (rejected v) = rejected v

abbrev pub neverthrow : ResultAsync
neverthrow = record {
  from_promise = from_promise;
  from_throwable = from_promise;
  map = map;
  unwrap_or = unwrap_or;
  from_fulfilled = λ A a h. refl;
  from_returned = λ A v w h e. ap (handled A) e;
  from_threw = λ A v w h e. ap (handled A) e;
  throwable_fulfilled = λ A a h. refl;
  throwable_returned = λ A v w h e. ap (handled A) e;
  throwable_threw = λ A v w h e. ap (handled A) e;
  map_fulfilled = λ A B a b f e. ap (settled_ok B) e;
  map_rejects = λ A B a v f e. ap (settled_ok B) e;
  map_err = λ A B v f. refl;
  map_rejected = λ A B v f. refl;
  unwrap_ok = λ A a b. refl;
  unwrap_err = λ A b v. refl;
  unwrap_rejected = λ A b v. refl;
}
