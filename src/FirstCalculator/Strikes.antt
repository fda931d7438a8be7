-- ===== src/FirstCalculator/Strikes.antt =====
-- `adjacentStrikeGet` and `forwardPriceGet` of src/lib/vix_calculator.ts: the forward price is taken from
-- the strike at which the mids of the call and the put are nearest.
pub mod Adjacent
pub mod Forward
use volatility_services.Prelude.{
  ◌≡◌, refl, sym, ap, ◌∙◌, ◌⊎◌, inl, inr, Bool, true, false, not, ◌&&◌, ◌||◌, Option, none, some,
  List, [], ◌∷◌, ◌++◌, ℕ, map, if◌then◌else◌, Bool-cases, any, All, All-map, arith,
}
use volatility_services.Prelude.Text.{Text, codes, text_beq, split, join}
use volatility_services.Prelude.Dict.{get}
use volatility_services.Prelude.Keys.{text_key}
use volatility_services.FirstCalculator.Numbers.{
  Double, IsOrdered, part, number_of, strike_of, or_else,
}
use volatility_services.FirstCalculator.MidBook.{MidBook}

-- `words.slice(0, -1)`
abbrev pub without_last : List Text → List Text
without_last [] = []
without_last (w ∷ []) = []
without_last (w ∷ v ∷ ws) = w ∷ without_last (v ∷ ws)

-- `words.slice(-1)`, as the one text that it has.
abbrev pub last : List Text → Text
last [] = []
last (w ∷ []) = w
last (w ∷ v ∷ ws) = last (v ∷ ws)

-- A symbol without its type.
unfoldable pub reduced : Text → Text
reduced symbol = join b'-' (without_last (split b'-' symbol))

-- `Array.from(new Set(texts))`, with the texts seen before.
unfoldable pub distinct_from : List Text → List Text → List Text
distinct_from seen [] = []
distinct_from seen (t ∷ ts) =
    let again = distinct_from seen ts in
    let first = t ∷ distinct_from (t ∷ seen) ts in if any (text_beq t) seen then again else first

module _ {N : Type 0} (d : Double N) where
  open d use {nan, infinity, of_ℕ, of_text, add, sub, mul, pow, abs, e, lt, le, is_nan}

  -- The greatest strike so far that is not above the forward price.
  unfoldable pub adjacent_from : N → N → List Text → N
  adjacent_from forward_price best [] = best
  adjacent_from forward_price best (o ∷ os) =
      adjacent_from forward_price
        (if le (strike_of d o) forward_price && lt best (strike_of d o)
          then strike_of d o
          else best)
        os

  unfoldable pub adjacent_strike_get : List Text → N → N
  unfolding adjacent_from
  adjacent_strike_get options forward_price = adjacent_from forward_price (of_ℕ 0) options

  -- The variables of the loop.
  pub record Nearest : Type 0 where
    pub option : Text
    pub diff : N
    pub strike : N
    pub call_price : N
    pub put_price : N

  abbrev pub nothing_near : Nearest
  nothing_near = record {
    option = [];
    diff = infinity;
    strike = of_ℕ 0;
    call_price = of_ℕ 0;
    put_price = of_ℕ 0;
  }

  abbrev pub difference : Option N → Option N → N
  difference (some c) (some p) = abs (sub c p)
  difference _ _ = nan

  abbrev pub call_mid : MidBook N → Text → Option N
  call_mid book option = get (option ++ codes "-C") book

  abbrev pub put_mid : MidBook N → Text → Option N
  put_mid book option = get (option ++ codes "-P") book

  abbrev pub chosen : MidBook N → Text → Nearest
  chosen book option = record {
    option = option;
    diff = difference (call_mid book option) (put_mid book option);
    strike = of_text (last (split b'-' option));
    call_price = or_else (call_mid book option) nan;
    put_price = or_else (put_mid book option) nan;
  }

  unfoldable pub nearest_step : MidBook N → Text → Nearest → Nearest
  nearest_step book option best =
      let diff = difference (call_mid book option) (put_mid book option) in
      if not (is_nan diff) && lt diff best.diff then chosen book option else best

  unfoldable pub nearest_from : MidBook N → Nearest → List Text → Nearest
  unfolding nearest_step
  nearest_from book best [] = best
  nearest_from book best (o ∷ os) = nearest_from book (nearest_step book o best) os

  unfoldable pub nearest : MidBook N → List Text → Nearest
  unfolding nearest_from reduced distinct_from
  nearest book options = nearest_from book nothing_near (distinct_from [] (map reduced options))

  -- `year_fraction` is the part of a year from the reference date to the expiration that the second part of
  -- a symbol names.
  unfoldable pub forward_price_get : N → (Option Text → N) → MidBook N → List Text → N
  unfolding nearest
  forward_price_get rate year_fraction book options =
      let best = nearest book options in
      add best.strike (
        mul (pow e (mul rate (year_fraction (part best.option 1))))
          (sub best.call_price best.put_price))
