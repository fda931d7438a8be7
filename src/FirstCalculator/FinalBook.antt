-- ===== src/FirstCalculator/FinalBook.antt =====
-- `finalBookGet` of src/lib/vix_calculator.ts: the entries of one expiry from which the contribution is
-- computed.
pub mod Order
pub mod Outcome
use mathlib.Core.List.{Perm, perm_middle}
use mathlib.Core.List.Perm
use volatility_services.Prelude.{
  ◌≡◌, refl, sym, ap, ◌∙◌, ◌⊎◌, inl, inr, Bool, true, false, not, ◌&&◌, ◌||◌, Option, none, some,
  List, [], ◌∷◌, ◌++◌, if◌then◌else◌, Bool-cases, keep, All, arith,
}
use volatility_services.Prelude.Text.{Text, codes, text_beq}
use volatility_services.FirstCalculator.Numbers.{
  Double, IsOrdered, part, part-append, number_of, strike_of, equal, or_else,
}

abbrev pub Entry : Type 0 → Type 0
Entry N = Text × N

module _ {N : Type 0} (d : Double N) where
  open d use {of_ℕ, add, sub, div, lt, le}

  abbrev pub strike : Entry N → N
  strike (k, v) = strike_of d k

  -- The type is undefined where a symbol has no fourth part.
  abbrev pub has_type : Text → Text → Bool
  has_type t k = elim (part k 3) [ none ↦ false | some w ↦ text_beq w t ]

  abbrev pub is_put_below : N → Entry N → Bool
  is_put_below target (k, v) = lt (strike_of d k) target && has_type (codes "P") k

  abbrev pub is_call_above : N → Entry N → Bool
  is_call_above target (k, v) = lt target (strike_of d k) && has_type (codes "C") k

  abbrev pub is_outside : N → Entry N → Bool
  is_outside target x = is_put_below target x || is_call_above target x

  -- Neither of them, and at the strike.
  abbrev pub is_at : N → Entry N → Bool
  is_at target (k, v) = not (is_outside target (k, v)) && equal d (strike_of d k) target

  unfoldable pub insert_entry : Entry N → List (Entry N) → List (Entry N)
  insert_entry x [] = x ∷ []
  insert_entry x (y ∷ ys) =
      if lt (of_ℕ 0) (sub (strike x) (strike y)) then y ∷ insert_entry x ys else x ∷ y ∷ ys

  -- `sort` by the difference of the strikes; it is stable.
  unfoldable pub sort_entries : List (Entry N) → List (Entry N)
  unfolding insert_entry
  sort_entries [] = []
  sort_entries (x ∷ xs) = insert_entry x (sort_entries xs)

  -- The average of the first two entries at the strike; without two of them the code throws.
  abbrev pub average_of : List (Entry N) → Option (Entry N)
  average_of [] = none
  average_of (x ∷ []) = none
  average_of ((k, v) ∷ (j, w) ∷ rest) = some (k ++ codes "AV", div (add v w) (of_ℕ 2))

  unfoldable pub final_book_get : List (Entry N) → N → Option (List (Entry N))
  unfolding sort_entries
  final_book_get entries target = elim (average_of (keep (is_at target) entries)) [
    | none ↦ none
    | some entry ↦ some (sort_entries (keep (is_outside target) entries ++ (entry ∷ [])))
  ]
