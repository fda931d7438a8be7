-- ===== src/FirstCalculator/FinalBook/Outcome.antt =====
-- What `finalBookGet` of src/lib/vix_calculator.ts returns.
use mathlib.Core.List.{Perm}
use mathlib.Core.List.Perm
use volatility_services.Prelude.{
  ◌<◌, ◌≡◌, sym, ap, inl, inr, Bool, true, false, Option, none, some, List, [], ◌∷◌, ◌++◌, subst,
  fun_ext, Bool-cases, keep, length, All, All-append, arith,
}
use volatility_services.Prelude.Text.{Text, codes}
use volatility_services.FirstCalculator.Numbers.{
  Double, IsOrdered, part, part-append, strike_of, equal,
}
use volatility_services.FirstCalculator.FinalBook.{
  Entry, strike, is_put_below, is_call_above, is_outside, is_at, sort_entries, average_of,
  final_book_get,
}
use volatility_services.FirstCalculator.FinalBook.Order.{
  keep-or-perm, All-keep, IsRising, IsNumbered, sort_entries-perm, sort_entries-IsRising,
}

-- A symbol with an expiry, a strike and a type behind the asset.
abbrev pub HasType : {N : Type 0} → Entry N → Type 0
HasType (k, v) = (w : Text) × (part k 3 ≡ some w)

All-keep_both :
    {A : Type 0} (P : A → Type 0) (p : A → Bool) (xs : List A)
    → All P xs
    → All (λ x. P x × (p x ≡ true)) (keep p xs)
All-keep_both P p [] all = tt
All-keep_both P p (x ∷ xs) all = elim (Bool-cases (p x)) [
  | inl h ↦ rw h ((all.0, h), All-keep_both P p xs all.1)
  | inr h ↦ rw h (All-keep_both P p xs all.1)
]

module _ {N : Type 0} (d : Double N) where
  open d use {of_ℕ, add, sub, div, lt, le}

  abbrev pub at_strike : N → List (Entry N) → List (Entry N)
  at_strike target = keep (λ x. equal d (strike d x) target)

  abbrev pub outside : N → List (Entry N) → List (Entry N)
  outside target entries =
      keep (is_put_below d target) entries ++ keep (is_call_above d target) entries

  -- The entry that stands for the strike itself.
  abbrev pub average : Entry N → Entry N → Entry N
  average (k, v) (j, w) = (k ++ codes "AV", div (add v w) (of_ℕ 2))

  -- Without two entries at the strike there is no book. The book has the puts below, the calls above and
  -- the average of the first two at the strike, by rising strikes.
  abbrev pub FinalBook : List (Entry N) → N → Option (List (Entry N)) → Type 0
  FinalBook entries target none = length (at_strike target entries) < 2
  FinalBook entries target (some book) =
      (x : Entry N) × (y : Entry N) × (rest : List (Entry N)) × (at_strike target entries
        ≡ x ∷ y ∷ rest)
      × Perm book (outside target entries ++ (average x y ∷ []))
      × (equal d (strike d (average x y)) target ≡ true)
      × IsRising d book

  module _ (laws : IsOrdered d) where
    open laws use {le_numbers, le_trans, lt-not_le, lt_le, lt-sub}

    is_at-equal : (target : N) (x : Entry N) → is_at d target x ≡ equal d (strike d x) target
    is_at-equal target (k, v) = ground (
      arith,
      le_numbers (strike_of d k) target,
      lt-not_le (strike_of d k) target,
      lt-not_le target (strike_of d k),
    )

    apart :
        (target : N) (x : Entry N)
        → is_put_below d target x ≡ true
        → is_call_above d target x ≡ false
    apart target (k, v) h = ground (
      arith,
      lt_le (strike_of d k) target,
      le_numbers (strike_of d k) target,
      lt-not_le target (strike_of d k),
    )

    outside-IsNumbered : (target : N) (x : Entry N) → is_outside d target x ≡ true → IsNumbered d x
    outside-IsNumbered target (k, v) h = ground (
      arith,
      lt_le (strike_of d k) target,
      lt_le target (strike_of d k),
      le_numbers (strike_of d k) target,
      le_numbers target (strike_of d k),
    )

    average-at :
        (target : N) (x y : Entry N)
        → HasType x
        → equal d (strike d x) target ≡ true
        → equal d (strike d (average x y)) target ≡ true
    average-at target (k, v) (j, w) (t, typed) h = rw (part-append k (codes "AV") 2 t typed) h

    equal-numbered : (x target : N) → equal d x target ≡ true → le x x ≡ true
    equal-numbered x target h = ground (arith, le_numbers x target)

    average-keep :
        (target : N) (x y : Entry N) (rest entries : List (Entry N))
        → All HasType entries
        → at_strike target entries ≡ x ∷ y ∷ rest
        → equal d (strike d (average x y)) target ≡ true
    average-keep target x y rest entries typed h =
        let both : All (λ z. HasType z × (equal d (strike d z) target ≡ true)) (x ∷ y ∷ rest) =
          subst (All (λ z. HasType z × (equal d (strike d z) target ≡ true))) h
            (All-keep_both HasType (λ z. equal d (strike d z) target) entries typed) in
        average-at target x y both.0.0 both.0.1

    book-FinalBook :
        (target : N) (x y : Entry N) (rest entries : List (Entry N))
        → All HasType entries
        → at_strike target entries ≡ x ∷ y ∷ rest
        → FinalBook entries target
            (some (sort_entries d (keep (is_outside d target) entries ++ (average x y ∷ []))))
    book-FinalBook target x y rest entries typed h =
        let avg = average-keep target x y rest entries typed h in
        (
          x,
          y,
          rest,
          h,
          Perm.trans
              (sort_entries-perm d (keep (is_outside d target) entries ++ (average x y ∷ [])))
              (Perm.append_right (average x y ∷ []) (
                keep-or-perm (is_put_below d target) (is_call_above d target) entries
                  (apart target))),
          avg,
          sort_entries-IsRising d laws (keep (is_outside d target) entries ++ (average x y ∷ [])) (
              All-append (IsNumbered d) (keep (is_outside d target) entries) (average x y ∷ [])
                (All-keep (IsNumbered d) (is_outside d target) entries (outside-IsNumbered target))
                (equal-numbered (strike d (average x y)) target avg, tt)),
        )

    outcome :
        (target : N) (entries found : List (Entry N))
        → All HasType entries
        → at_strike target entries ≡ found
        → FinalBook entries target (elim (average_of d found) [
          | none ↦ none
          | some entry ↦ some (sort_entries d (keep (is_outside d target) entries ++ (entry ∷ [])))
        ])
    outcome target entries [] typed h = rw h (omega arith)
    outcome target entries (x ∷ []) typed h = rw h (omega arith)
    outcome target entries ((k, v) ∷ (j, w) ∷ rest) typed h =
        book-FinalBook target (k, v) (j, w) rest entries typed h

    -- On entries whose symbols have a type, the final book is missing exactly where less than two of them
    -- are at the target strike. Otherwise it is ordered by rising strikes, and its entries are the puts
    -- below the target, the calls above it and the average of the first two at it, which counts as an
    -- entry at the target too.
    pub final_book_get-FinalBook :
        (target : N) (entries : List (Entry N))
        → All HasType entries
        → FinalBook entries target (final_book_get d entries target)
    unfolding final_book_get
    final_book_get-FinalBook target entries typed =
        outcome target entries (keep (is_at d target) entries) typed
          (ap (λ p. keep p entries) (sym (fun_ext (is_at-equal target))))
