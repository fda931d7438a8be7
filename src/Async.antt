-- ===== src/Async.antt =====
-- Promises, and the ResultAsync of neverthrow as the services use it: `from_promise` with a handler of
-- src/lib/handlers/errors.ts, `map`, `unwrap_or` and the await of a result; with `Result.fromThrowable`, applied at once.
pub mod Example
use volatility_services.Prelude.{◌≡◌, refl, ap, ◌∙◌, ◌⊎◌, inl, inr, Result, ok, err}
use volatility_services.Errors.{Value, Handled, returned, threw}

-- How a promise is settled.
pub data Settled (A : Type 0) : Type 0 where
  fulfilled : A → Settled A
  rejected : Value → Settled A

-- A ResultAsync is a promise of a result, which is an error value or not; it can be rejected all the same.
abbrev pub Outcome : Type 0 → Type 0
Outcome A = Settled (Result Value A)

-- The documented behaviour: the handler makes the error value of a rejection, or of what is thrown; an error value passes `map`,
-- and what a mapped function rejects with rejects the whole.
pub record ResultAsync : Type 1 where
  pub from_promise : (A : Type 0) → Settled A → (Value → Handled) → Outcome A
  pub map : (A B : Type 0) → (A → Settled B) → Outcome A → Outcome B
  pub from_throwable : (A : Type 0) → Settled A → (Value → Handled) → Outcome A
  pub unwrap_or : (A : Type 0) → A → Outcome A → Settled A
  pub from_fulfilled :
      (A : Type 0) (a : A) (h : Value → Handled) → from_promise A (fulfilled a) h ≡ fulfilled (ok a)
  pub from_returned :
      (A : Type 0) (v w : Value) (h : Value → Handled)
      → h v ≡ returned w
      → from_promise A (rejected v) h ≡ fulfilled (err w)
  pub from_threw :
      (A : Type 0) (v w : Value) (h : Value → Handled)
      → h v ≡ threw w
      → from_promise A (rejected v) h ≡ rejected w
  pub throwable_fulfilled :
      (A : Type 0) (a : A) (h : Value → Handled)
      → from_throwable A (fulfilled a) h ≡ fulfilled (ok a)
  pub throwable_returned :
      (A : Type 0) (v w : Value) (h : Value → Handled)
      → h v ≡ returned w
      → from_throwable A (rejected v) h ≡ fulfilled (err w)
  pub throwable_threw :
      (A : Type 0) (v w : Value) (h : Value → Handled)
      → h v ≡ threw w
      → from_throwable A (rejected v) h ≡ rejected w
  pub map_fulfilled :
      (A B : Type 0) (a : A) (b : B) (f : A → Settled B)
      → f a ≡ fulfilled b
      → map A B f (fulfilled (ok a)) ≡ fulfilled (ok b)
  pub map_rejects :
      (A B : Type 0) (a : A) (v : Value) (f : A → Settled B)
      → f a ≡ rejected v
      → map A B f (fulfilled (ok a)) ≡ rejected v
  pub map_err :
      (A B : Type 0) (v : Value) (f : A → Settled B)
      → map A B f (fulfilled (err v)) ≡ fulfilled (err v)
  pub map_rejected :
      (A B : Type 0) (v : Value) (f : A → Settled B) → map A B f (rejected v) ≡ rejected v
  pub unwrap_ok : (A : Type 0) (a b : A) → unwrap_or A b (fulfilled (ok a)) ≡ fulfilled a
  pub unwrap_err :
      (A : Type 0) (b : A) (v : Value) → unwrap_or A b (fulfilled (err v)) ≡ fulfilled b
  pub unwrap_rejected : (A : Type 0) (b : A) (v : Value) → unwrap_or A b (rejected v) ≡ rejected v

pub Settled-cases :
    {A : Type 0} (x : Settled A) → ((a : A) × (x ≡ fulfilled a)) ⊎ ((v : Value) × (x ≡ rejected v))
Settled-cases (fulfilled a) = inl (a, refl)
Settled-cases (rejected v) = inr (v, refl)

-- One link of a chain of maps, after what came before it.
module _ (async : ResultAsync) {A B : Type 0} (f : A → Settled B) (x : Outcome A) where
  pub map-ok :
      (a : A) (b : B)
      → x ≡ fulfilled (ok a)
      → f a ≡ fulfilled b
      → async.map A B f x ≡ fulfilled (ok b)
  map-ok a b e h = ap (async.map A B f) e ∙ async.map_fulfilled A B a b f h

  pub map-rejects :
      (a : A) (v : Value) → x ≡ fulfilled (ok a) → f a ≡ rejected v → async.map A B f x ≡ rejected v
  map-rejects a v e h = ap (async.map A B f) e ∙ async.map_rejects A B a v f h

  pub map-passes : (v : Value) → x ≡ rejected v → async.map A B f x ≡ rejected v
  map-passes v e = ap (async.map A B f) e ∙ async.map_rejected A B v f
