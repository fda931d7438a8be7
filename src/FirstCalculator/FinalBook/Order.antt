-- ===== src/FirstCalculator/FinalBook/Order.antt =====
-- The order and the entries of `finalBookGet` of src/lib/vix_calculator.ts.
use mathlib.Core.List.{Perm, perm_middle}
use mathlib.Core.List.Perm
use volatility_services.Prelude.{
  ◌≡◌, refl, sym, ◌∙◌, inl, inr, Bool, true, false, ◌||◌, List, [], ◌∷◌, ◌++◌, Bool-cases, keep,
  All, arith,
}
use volatility_services.FirstCalculator.Numbers.{Double, IsOrdered}
use volatility_services.FirstCalculator.FinalBook.{Entry, strike, insert_entry, sort_entries}

-- An entry that two tests keep, which exclude each other, is kept by one of them.
pub keep-or-perm :
    {A : Type 0} (p q : A → Bool) (xs : List A)
    → ((x : A) → p x ≡ true → q x ≡ false)
    → Perm (keep (λ x. p x || q x) xs) (keep p xs ++ keep q xs)
keep-or-perm p q [] apart = Perm.refl []
keep-or-perm p q (x ∷ xs) apart = elim (Bool-cases (p x)) [
  | inl yes_p ↦ rw (yes_p, apart x yes_p) (Perm.cons x (keep-or-perm p q xs apart))
  | inr no_p ↦ elim (Bool-cases (q x)) [
    | inl yes_q ↦
        rw (no_p, yes_q)
          (Perm.trans (Perm.cons x (keep-or-perm p q xs apart))
            (Perm.symm (perm_middle (keep p xs) (keep q xs))))
    | inr no_q ↦ rw (no_p, no_q) (keep-or-perm p q xs apart)
  ]
]

pub All-keep :
    {A : Type 0} (P : A → Type 0) (p : A → Bool) (xs : List A)
    → ((x : A) → p x ≡ true → P x)
    → All P (keep p xs)
All-keep P p [] f = tt
All-keep P p (x ∷ xs) f = elim (Bool-cases (p x)) [
  | inl h ↦ rw h (f x h, All-keep P p xs f)
  | inr h ↦ rw h (All-keep P p xs f)
]

module _ {N : Type 0} (d : Double N) where
  open d use {of_ℕ, add, sub, div, lt, le}

  -- The strikes do not fall.
  abbrev pub IsRising : List (Entry N) → Type 0
  IsRising [] = Unit
  IsRising (x ∷ xs) = All (λ y. le (strike d x) (strike d y) ≡ true) xs × IsRising xs

  abbrev pub IsNumbered : Entry N → Type 0
  IsNumbered x = le (strike d x) (strike d x) ≡ true

  insert_entry-after :
      (x y : Entry N) (ys : List (Entry N))
      → lt (of_ℕ 0) (sub (strike d x) (strike d y)) ≡ true
      → insert_entry d x (y ∷ ys) ≡ y ∷ insert_entry d x ys
  unfolding insert_entry
  insert_entry-after x y ys h = rw (insert_entry, h) refl

  insert_entry-before :
      (x y : Entry N) (ys : List (Entry N))
      → lt (of_ℕ 0) (sub (strike d x) (strike d y)) ≡ false
      → insert_entry d x (y ∷ ys) ≡ x ∷ y ∷ ys
  unfolding insert_entry
  insert_entry-before x y ys h = rw (insert_entry, h) refl

  insert_entry-perm : (x : Entry N) (xs : List (Entry N)) → Perm (insert_entry d x xs) (x ∷ xs)
  insert_entry-perm x [] = unfold insert_entry in Perm.refl (x ∷ [])
  insert_entry-perm x (y ∷ ys) = elim (Bool-cases (lt (of_ℕ 0) (sub (strike d x) (strike d y)))) [
    | inl h ↦
        rw (insert_entry-after x y ys h)
          (Perm.trans (Perm.cons y (insert_entry-perm x ys)) (Perm.swap x y ys))
    | inr h ↦ rw (insert_entry-before x y ys h) (Perm.refl (x ∷ y ∷ ys))
  ]

  pub sort_entries-perm : (xs : List (Entry N)) → Perm (sort_entries d xs) xs
  unfolding sort_entries
  sort_entries-perm [] = Perm.refl []
  sort_entries-perm (x ∷ xs) =
      Perm.trans (insert_entry-perm x (sort_entries d xs)) (Perm.cons x (sort_entries-perm xs))

  All-insert_entry :
      (P : Entry N → Type 0) (x : Entry N) (xs : List (Entry N))
      → P x
      → All P xs
      → All P (insert_entry d x xs)
  All-insert_entry P x [] p ps = unfold insert_entry in (p, tt)
  All-insert_entry P x (y ∷ ys) p ps =
      elim (Bool-cases (lt (of_ℕ 0) (sub (strike d x) (strike d y)))) [
        | inl h ↦ rw (insert_entry-after x y ys h) (ps.0, All-insert_entry P x ys p ps.1)
        | inr h ↦ rw (insert_entry-before x y ys h) (p, ps)
      ]

  All-sort_entries :
      (P : Entry N → Type 0) (xs : List (Entry N)) → All P xs → All P (sort_entries d xs)
  unfolding sort_entries
  All-sort_entries P [] ps = tt
  All-sort_entries P (x ∷ xs) ps =
      All-insert_entry P x (sort_entries d xs) ps.0 (All-sort_entries P xs ps.1)

  module _ (laws : IsOrdered d) where
    open laws use {le_numbers, le_trans, lt-not_le, lt_le, lt-sub}

    All-le_trans :
        (a b : N) (xs : List (Entry N))
        → le a b ≡ true
        → All (λ y. le b (strike d y) ≡ true) xs
        → All (λ y. le a (strike d y) ≡ true) xs
    All-le_trans a b [] h all = tt
    All-le_trans a b (x ∷ xs) h all =
        (le_trans a b (strike d x) h all.0, All-le_trans a b xs h all.1)

    insert_entry-IsRising :
        (x : Entry N) (xs : List (Entry N))
        → IsNumbered x
        → All IsNumbered xs
        → IsRising xs
        → IsRising (insert_entry d x xs)
    insert_entry-IsRising x [] n ns r = unfold insert_entry in (tt, tt)
    insert_entry-IsRising x (y ∷ ys) n ns r =
        elim (Bool-cases (lt (of_ℕ 0) (sub (strike d x) (strike d y)))) [
          | inl h ↦ rw (insert_entry-after x y ys h) (
            All-insert_entry (λ z. le (strike d y) (strike d z) ≡ true) x ys
                (lt_le (strike d y) (strike d x) (sym (lt-sub (strike d x) (strike d y)) ∙ h)) r.0,
            insert_entry-IsRising x ys n ns.1 r.1,
          )
          | inr h ↦
              let below : le (strike d x) (strike d y) ≡ true =
                ground
                  (arith, lt-not_le (strike d y) (strike d x), lt-sub (strike d x) (strike d y)) in
              rw (insert_entry-before x y ys h)
                ((below, All-le_trans (strike d x) (strike d y) ys below r.0), r)
        ]

    pub sort_entries-IsRising :
        (xs : List (Entry N)) → All IsNumbered xs → IsRising (sort_entries d xs)
    unfolding sort_entries
    sort_entries-IsRising [] ns = tt
    sort_entries-IsRising (x ∷ xs) ns =
        insert_entry-IsRising x (sort_entries d xs) ns.0 (All-sort_entries IsNumbered xs ns.1)
          (sort_entries-IsRising xs ns.1)
