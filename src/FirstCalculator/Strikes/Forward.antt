-- ===== src/FirstCalculator/Strikes/Forward.antt =====
-- The strike that `forwardPriceGet` of src/lib/vix_calculator.ts takes the forward price from.
use volatility_services.Prelude.{
  ◌≡◌, refl, ◌∙◌, ◌⊎◌, inl, inr, true, false, not, ◌&&◌, Option, List, [], ◌∷◌, map, Bool-cases,
  any, All, AnyOf, arith,
}
use volatility_services.Prelude.Text.{Text, text_beq}
use volatility_services.Prelude.Keys.{text_beq_iff}
use volatility_services.FirstCalculator.Numbers.{Double, IsOrdered, part}
use volatility_services.FirstCalculator.MidBook.{MidBook}
use volatility_services.FirstCalculator.Strikes.{
  Nearest, nothing_near, difference, call_mid, put_mid, chosen, nearest_step, nearest_from, nearest,
  reduced, distinct_from, forward_price_get,
}

any-AnyOf :
    (P : Text → Type 0) (t : Text) (ts : List Text) → any (text_beq t) ts ≡ true → All P ts → P t
any-AnyOf P t [] h all = absurd (cc h)
any-AnyOf P t (u ∷ ts) h all = elim (Bool-cases (text_beq t u)) [
  | inl same ↦ rw ((text_beq_iff t u).0 same) all.0
  | inr other ↦ any-AnyOf P t ts (ground arith) all.1
]

All-distinct_from :
    (P : Text → Type 0) (seen ts : List Text)
    → All P seen
    → All P (distinct_from seen ts)
    → All P ts
unfolding distinct_from
All-distinct_from P seen [] old all = tt
All-distinct_from P seen (t ∷ ts) old all = elim (Bool-cases (any (text_beq t) seen)) [
  | inl h ↦ (any-AnyOf P t seen h old, All-distinct_from P seen ts old (rw h at all))
  | inr h ↦
      let all' : P t × All P (distinct_from (t ∷ seen) ts) = rw h at all in
      (all'.0, All-distinct_from P (t ∷ seen) ts (all'.0, old) all'.1)
]

AnyOf-distinct_from :
    (P : Text → Type 0) (seen ts : List Text) → AnyOf P (distinct_from seen ts) → AnyOf P ts
unfolding distinct_from
AnyOf-distinct_from P seen [] a = a
AnyOf-distinct_from P seen (t ∷ ts) a = elim (Bool-cases (any (text_beq t) seen)) [
  | inl h ↦ inr (AnyOf-distinct_from P seen ts (rw h at a))
  | inr h ↦
      let a' : P t ⊎ AnyOf P (distinct_from (t ∷ seen) ts) = rw h at a in
      elim a' [ inl p ↦ inl p | inr b ↦ inr (AnyOf-distinct_from P (t ∷ seen) ts b) ]
]

All-of_map :
    {A B : Type 0} (f : A → B) (P : B → Type 0) (xs : List A)
    → All P (map f xs)
    → All (λ x. P (f x)) xs
All-of_map f P [] all = tt
All-of_map f P (x ∷ xs) all = (all.0, All-of_map f P xs all.1)

AnyOf-of_map :
    {A B : Type 0} (f : A → B) (P : B → Type 0) (xs : List A)
    → AnyOf P (map f xs)
    → AnyOf (λ x. P (f x)) xs
AnyOf-of_map f P [] a = a
AnyOf-of_map f P (x ∷ xs) (inl p) = inl p
AnyOf-of_map f P (x ∷ xs) (inr a) = inr (AnyOf-of_map f P xs a)

module _ {N : Type 0} (d : Double N) where
  open d use {infinity, add, sub, mul, pow, e, lt, le, is_nan}

  -- The distance of the mids of the call and the put.
  abbrev pub distance : MidBook N → Text → N
  distance book o = difference d (call_mid d book o) (put_mid d book o)

  -- Every distance is NaN or at least that of `best`.
  abbrev pub IsNearest : MidBook N → List Text → Nearest d → Type 0
  IsNearest book options best =
      ((best ≡ nothing_near d)
        ⊎ AnyOf
            (λ o. (best ≡ chosen d book (reduced o)) × (is_nan (distance book (reduced o)) ≡ false))
            options)
      × All
          (λ o.
            (is_nan (distance book (reduced o)) ≡ true)
            ⊎ (le best.diff (distance book (reduced o)) ≡ true))
          options

  module _ (laws : IsOrdered d) where
    open laws use {nan-le, le_numbers, le_trans, lt-not_le, lt_le, infinity_number}

    nearest_step-chosen :
        (book : MidBook N) (o : Text) (best : Nearest d)
        → not (is_nan (distance book o)) && lt (distance book o) best.diff ≡ true
        → nearest_step d book o best ≡ chosen d book o
    unfolding nearest_step
    nearest_step-chosen book o best h = rw (nearest_step, h) refl

    nearest_step-kept :
        (book : MidBook N) (o : Text) (best : Nearest d)
        → not (is_nan (distance book o)) && lt (distance book o) best.diff ≡ false
        → nearest_step d book o best ≡ best
    unfolding nearest_step
    nearest_step-kept book o best h = rw (nearest_step, h) refl

    -- What a round makes of the least distance.
    abbrev IsLess : N → N → N → Type 0
    IsLess far diff new =
        (le new diff ≡ true) × (le new new ≡ true) × ((is_nan far ≡ true) ⊎ (le new far ≡ true))

    IsLess-taken :
        (far diff : N)
        → le diff diff ≡ true
        → not (is_nan far) && lt far diff ≡ true
        → IsLess far diff far
    IsLess-taken far diff num h = ground (arith, lt_le far diff, le_numbers far diff)

    IsLess-kept :
        (far diff : N)
        → le diff diff ≡ true
        → not (is_nan far) && lt far diff ≡ false
        → IsLess far diff diff
    IsLess-kept far diff num h = ground (arith, nan-le far, lt-not_le far diff)

    step-IsLess :
        (book : MidBook N) (o : Text) (best : Nearest d)
        → le best.diff best.diff ≡ true
        → IsLess (distance book o) best.diff (nearest_step d book o best).diff
    step-IsLess book o best num =
        elim (Bool-cases (not (is_nan (distance book o)) && lt (distance book o) best.diff)) [
          | inl h ↦
              rw (nearest_step-chosen book o best h)
                (IsLess-taken (distance book o) best.diff num h)
          | inr h ↦
              rw (nearest_step-kept book o best h) (IsLess-kept (distance book o) best.diff num h)
        ]

    nearest_from-least :
        (book : MidBook N) (best : Nearest d) (os : List Text)
        → le best.diff best.diff ≡ true
        → (le (nearest_from d book best os).diff best.diff ≡ true)
          × All
              (λ o.
                (is_nan (distance book o) ≡ true)
                ⊎ (le (nearest_from d book best os).diff (distance book o) ≡ true))
              os
    unfolding nearest_from
    nearest_from-least book best [] num = (num, tt)
    nearest_from-least book best (o ∷ os) num =
        let next = nearest_step d book o best in
        let (falls, numbered, near) = step-IsLess book o best num in
        let (down, rest) = nearest_from-least book next os numbered in
        let least = (nearest_from d book next os).diff in
        (
          le_trans least next.diff best.diff down falls,
          (
            elim near [
              | inl none_there ↦ inl none_there
              | inr close ↦ inr (le_trans least next.diff (distance book o) down close)
            ],
            rest,
          ),
        )

    abbrev Origin : MidBook N → Nearest d → List Text → Nearest d → Type 0
    Origin book best os r =
        (r ≡ best) ⊎ AnyOf (λ o. (r ≡ chosen d book o) × (is_nan (distance book o) ≡ false)) os

    nearest_from-Origin :
        (book : MidBook N) (best : Nearest d) (os : List Text)
        → Origin book best os (nearest_from d book best os)
    unfolding nearest_from
    nearest_from-Origin book best [] = inl refl
    nearest_from-Origin book best (o ∷ os) =
        let rest = nearest_from-Origin book (nearest_step d book o best) os in
        elim (Bool-cases (not (is_nan (distance book o)) && lt (distance book o) best.diff)) [
          | inl h ↦ elim rest [
            | inl e ↦ inr (inl (e ∙ nearest_step-chosen book o best h, ground arith))
            | inr a ↦ inr (inr a)
          ]
          | inr h ↦ elim rest [
            | inl e ↦ inl (e ∙ nearest_step-kept book o best h)
            | inr a ↦ inr (inr a)
          ]
        ]

    nearest-IsNearest :
        (book : MidBook N) (options : List Text) → IsNearest book options (nearest d book options)
    unfolding nearest
    nearest-IsNearest book options =
        let os = distinct_from [] (map reduced options) in
        let best = nearest_from d book (nothing_near d) os in
        let made = λ (o : Text). (best ≡ chosen d book o) × (is_nan (distance book o) ≡ false) in
        let near = λ (o : Text).
          (is_nan (distance book o) ≡ true) ⊎ (le best.diff (distance book o) ≡ true) in
        (
          elim (nearest_from-Origin book (nothing_near d) os) [
            | inl e ↦ inl e
            | inr a ↦ inr (
                AnyOf-of_map reduced made options
                  (AnyOf-distinct_from made [] (map reduced options) a))
          ],
          All-of_map reduced near options (
              All-distinct_from near [] (map reduced options) tt
                (nearest_from-least book (nothing_near d) os infinity_number).1),
        )

    -- The forward price is a strike and the difference of two mids, compounded to an expiration. They are
    -- those of a listed option whose call and put have mids at a distance that no other listed option
    -- goes below; or strike and mids are 0, and every distance is NaN or not below infinity.
    pub forward_price_get-IsNearest :
        (rate : N) (year_fraction : Option Text → N) (book : MidBook N) (options : List Text)
        → (best : Nearest d) × IsNearest book options best
          × (forward_price_get d rate year_fraction book options
              ≡ add best.strike (
                  mul
                    (pow e (mul rate (year_fraction (part best.option 1))))
                    (sub best.call_price best.put_price)))
    unfolding forward_price_get
    forward_price_get-IsNearest rate year_fraction book options =
        (nearest d book options, nearest-IsNearest book options, refl)
