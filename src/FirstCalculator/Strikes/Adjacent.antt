-- ===== src/FirstCalculator/Strikes/Adjacent.antt =====
-- What `adjacentStrikeGet` of src/lib/vix_calculator.ts returns.
use volatility_services.Prelude.{
  ◌≡◌, refl, sym, ap, subst, ◌⊎◌, inl, inr, Bool, true, ◌&&◌, List, [], ◌∷◌, if◌then◌else◌,
  Bool-cases, All, AnyOf, arith,
}
use volatility_services.Prelude.Text.{Text}
use volatility_services.FirstCalculator.Numbers.{Double, IsOrdered, strike_of}
use volatility_services.FirstCalculator.Strikes.{adjacent_from, adjacent_strike_get}

module _ {N : Type 0} (d : Double N) where
  open d use {of_ℕ, lt, le}

  -- The result is 0, or a listed strike that is positive and at most the price; no listed strike that is
  -- at most the price is greater.
  abbrev pub IsAdjacent : List Text → N → N → Type 0
  IsAdjacent options price s =
      ((s ≡ of_ℕ 0)
        ⊎ ((le s price ≡ true) × (lt (of_ℕ 0) s ≡ true) × AnyOf (λ o. strike_of d o ≡ s) options))
      × All (λ o. le (strike_of d o) price ≡ true → le (strike_of d o) s ≡ true) options

  -- The round of the loop for the strike `x`.
  abbrev better : N → N → N → N
  better price best x = if le x price && lt best x then x else best

  abbrev Found : N → N → List Text → N → Type 0
  Found price best os r =
      (r ≡ best) ⊎ ((le r price ≡ true) × (lt best r ≡ true) × AnyOf (λ o. strike_of d o ≡ r) os)

  module _ (laws : IsOrdered d) where
    open laws use {le_numbers, le_trans, lt-not_le, lt_le, nought_number}

    better-grows :
        (price best x : N)
        → le best best ≡ true
        → (le best (better price best x) ≡ true)
          × (le (better price best x) (better price best x) ≡ true)
    better-grows price best x num = ground (arith, lt_le best x, le_numbers best x)

    better-covers :
        (price best x : N)
        → le best best ≡ true
        → le x price ≡ true
        → le x (better price best x) ≡ true
    better-covers price best x num h =
        ground (arith, lt_le best x, le_numbers x price, lt-not_le best x)

    adjacent_from-greatest :
        (price best : N) (os : List Text)
        → le best best ≡ true
        → (le best (adjacent_from d price best os) ≡ true)
          × All
              (λ o.
                le (strike_of d o) price ≡ true
                → le (strike_of d o) (adjacent_from d price best os) ≡ true)
              os
    unfolding adjacent_from
    adjacent_from-greatest price best [] num = (num, tt)
    adjacent_from-greatest price best (o ∷ os) num =
        let x = strike_of d o in
        let s = better price best x in
        let (grows, numbered) = better-grows price best x num in
        let (up, rest) = adjacent_from-greatest price s os numbered in
        (
          le_trans best s (adjacent_from d price s os) grows up,
          (
            λ h. le_trans x s (adjacent_from d price s os) (better-covers price best x num h) up,
            rest,
          ),
        )

    lt_trans : (x y z : N) → lt x y ≡ true → lt y z ≡ true → lt x z ≡ true
    lt_trans x y z h k = ground (
      arith,
      lt_le x y,
      lt_le y z,
      le_numbers x y,
      le_numbers y z,
      lt-not_le x y,
      lt-not_le x z,
      le_trans y z x,
    )

    adjacent_from-Found :
        (price best : N) (os : List Text) → Found price best os (adjacent_from d price best os)
    unfolding adjacent_from
    adjacent_from-Found price best [] = inl refl
    adjacent_from-Found price best (o ∷ os) =
        let x = strike_of d o in
        let round = λ (b : Bool). adjacent_from d price (if b then x else best) os in
        elim (Bool-cases (le x price && lt best x)) [
          | inl h ↦
              subst (Found price best (o ∷ os)) (sym (ap round h))
                (elim (adjacent_from-Found price x os) [
                  | inl e ↦ inr (rw e (ground arith), rw e (ground arith), inl (sym e))
                  | inr (below, above, among) ↦ inr (
                    below,
                    lt_trans best x (adjacent_from d price x os) (ground arith) above,
                    inr among,
                  )
                ])
          | inr h ↦
              subst (Found price best (o ∷ os)) (sym (ap round h))
                (elim (adjacent_from-Found price best os) [
                  | inl e ↦ inl e
                  | inr (below, above, among) ↦ inr (below, above, inr among)
                ])
        ]

    -- The adjacent strike is 0, or a listed strike that is positive and at most the forward price; no
    -- listed strike that is at most the forward price is greater.
    pub adjacent_strike_get-IsAdjacent :
        (options : List Text) (price : N)
        → IsAdjacent options price (adjacent_strike_get d options price)
    unfolding adjacent_strike_get
    adjacent_strike_get-IsAdjacent options price = (
      adjacent_from-Found price (of_ℕ 0) options,
      (adjacent_from-greatest price (of_ℕ 0) options nought_number).1,
    )
