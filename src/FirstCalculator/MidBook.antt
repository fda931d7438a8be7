-- ===== src/FirstCalculator/MidBook.antt =====
-- `midBookChange` and `filterBook` of src/lib/vix_calculator.ts: the mid price of every option.
use volatility_services.Prelude.{
  ◌≡◌, refl, ◌⊎◌, inl, inr, true, false, not, ◌&&◌, ◌||◌, Option, none, some, List, [], ◌∷◌, ℕ,
  if◌then◌else◌, Bool-cases, Option-cases, keep, All, All-map, AnyOf, arith,
}
use volatility_services.Prelude.Text.{Text, text_includes}
use volatility_services.Prelude.Dict.{Dict, set}
use volatility_services.Prelude.Keys.{text_key}
use volatility_services.FirstCalculator.Numbers.{Double, truthy, or_else}
use volatility_services.FirstCalculator.FinalBook.{Entry}

-- The fields that are read of an option summary.
pub record OptionSummary (N : Type 0) : Type 0 where
  pub symbol : Text
  pub timestamp : ℕ
  pub underlying_price : Option N
  pub best_bid_price : Option N
  pub best_ask_price : Option N
  pub mark_price : Option N

abbrev pub MidBook : Type 0 → Type 0
MidBook N = Dict Text N

module _ {N : Type 0} (d : Double N) where
  open d use {of_ℕ, add, mul, div, le, is_nan}

  abbrev pub bid : OptionSummary N → N
  bid m = mul (or_else m.best_bid_price (of_ℕ 0)) (or_else m.underlying_price (of_ℕ 0))

  abbrev pub ask : OptionSummary N → N
  ask m = mul (or_else m.best_ask_price (of_ℕ 0)) (or_else m.underlying_price (of_ℕ 0))

  abbrev pub mark : OptionSummary N → N
  mark m = mul (or_else m.mark_price (of_ℕ 0)) (or_else m.underlying_price (of_ℕ 0))

  -- The mid price, undefined without a bid.
  unfoldable pub mid_of : OptionSummary N → Option N
  mid_of m =
      if not (truthy d (bid m)) || is_nan (bid m)
      then none
      else if is_nan (ask m)
      then some (mark m)
      else if le (mul (div (of_ℕ 3) (of_ℕ 2)) (mark m)) (div (add (ask m) (bid m)) (of_ℕ 2))
      then some (mark m)
      else some (div (add (ask m) (bid m)) (of_ℕ 2))

  unfoldable pub mid_book_change : OptionSummary N → MidBook N → MidBook N
  unfolding mid_of
  mid_book_change m book = elim (mid_of m) [
    | none ↦ book
    | some mid ↦ if truthy d mid then set m.symbol mid book else book
  ]

  -- `filterBook`, for the text of an expiry
  unfoldable pub filter_book : Text → MidBook N → List (Entry N)
  filter_book expiry = keep λ x. not (is_nan (x.1)) && text_includes expiry (x.0)

  -- The book after the messages of a stream.
  unfoldable pub mid_book : List (OptionSummary N) → MidBook N → MidBook N
  unfolding mid_book_change
  mid_book [] book = book
  mid_book (m ∷ ms) book = mid_book ms (mid_book_change m book)

  -- A price that a message sets: not 0 and not NaN, of a message with a bid; the mean of bid and ask,
  -- below one and a half times the mark price, or the mark price.
  abbrev pub IsMid : OptionSummary N → Entry N → Type 0
  IsMid m (k, v) =
      (m.symbol ≡ k)
      × (truthy d v ≡ true)
      × (truthy d (bid m) ≡ true)
      × ((v ≡ mark m)
          ⊎ ((v ≡ div (add (ask m) (bid m)) (of_ℕ 2))
              × (le (mul (div (of_ℕ 3) (of_ℕ 2)) (mark m)) v ≡ false)))

  All-set :
      (P : Entry N → Type 0) (k : Text) (v : N) (book : MidBook N)
      → P (k, v)
      → All P book
      → All P (set k v book)
  All-set P k v [] p ps = (p, tt)
  All-set P k v ((j, w) ∷ book) p ps = elim (Bool-cases (text_key.same j k)) [
    | inl h ↦ rw h (rw ((text_key.same_iff j k).0 h) p, ps.1)
    | inr h ↦ rw h (ps.0, All-set P k v book p ps.1)
  ]

  mid_of-IsMid :
      (m : OptionSummary N) (v : N) → mid_of m ≡ some v → truthy d v ≡ true → IsMid m (m.symbol, v)
  unfolding mid_of
  mid_of-IsMid m v h t = (refl, t, ground arith, ground arith)

  mid_book_change-All :
      (P : Entry N → Type 0) (m : OptionSummary N) (book : MidBook N)
      → All P book
      → All (λ x. P x ⊎ IsMid m x) (mid_book_change m book)
  unfolding mid_book_change
  mid_book_change-All P m book ps =
      let old = All-map P book (λ x p. inl p) ps in
      elim (Option-cases (mid_of m)) [
        | inl e ↦ rw (mid_book_change, e) old
        | inr (v, e) ↦ elim (Bool-cases (truthy d v)) [
          | inl t ↦
              rw (mid_book_change, e, t)
                (All-set (λ x. P x ⊎ IsMid m x) m.symbol v book (inr (mid_of-IsMid m v e t)) old)
          | inr f ↦ rw (mid_book_change, e, f) old
        ]
      ]

  mid_book-All :
      (P : Entry N → Type 0) (ms : List (OptionSummary N)) (book : MidBook N)
      → All P book
      → All (λ x. P x ⊎ AnyOf (λ m. IsMid m x) ms) (mid_book ms book)
  unfolding mid_book
  mid_book-All P [] book ps = All-map P book (λ x p. inl p) ps
  mid_book-All P (m ∷ ms) book ps =
      All-map (λ x. (P x ⊎ IsMid m x) ⊎ AnyOf (λ n. IsMid n x) ms)
        (mid_book ms (mid_book_change m book))
        (λ x q. elim q [ inl (inl p) ↦ inl p | inl (inr i) ↦ inr (inl i) | inr a ↦ inr (inr a) ])
        (mid_book-All (λ x. P x ⊎ IsMid m x) ms (mid_book_change m book)
          (mid_book_change-All P m book ps))

  AnyOf-truthy :
      (x : Entry N) (ms : List (OptionSummary N)) → AnyOf (λ m. IsMid m x) ms → truthy d x.1 ≡ true
  AnyOf-truthy x [] a = elim a [ ]
  AnyOf-truthy x (m ∷ ms) (inl i) = i.1
  AnyOf-truthy x (m ∷ ms) (inr a) = AnyOf-truthy x ms a

  keep-numbers :
      (expiry : Text) (book : MidBook N)
      → All (λ x. truthy d x.1 ≡ true) book
      → filter_book expiry book ≡ keep (λ x. text_includes expiry x.0) book
  unfolding filter_book
  keep-numbers expiry [] ts = refl
  keep-numbers expiry (x ∷ book) ts = ground (arith, keep-numbers expiry book ts.1)

  -- After any messages every price in the book was set by one of them, of the same symbol: it is neither
  -- 0 nor NaN, the message has a bid, and the price is the mean of bid and ask, below one and a half times
  -- the mark price, or the mark price. The book of an expiry is then the entries whose symbols have its
  -- text.
  pub mid_book-IsMid :
      (ms : List (OptionSummary N)) (expiry : Text)
      → All (λ x. AnyOf (λ m. IsMid m x) ms) (mid_book ms [])
        × (filter_book expiry (mid_book ms [])
            ≡ keep (λ x. text_includes expiry x.0) (mid_book ms []))
  mid_book-IsMid ms expiry =
      let set_by : All (λ x. AnyOf (λ m. IsMid m x) ms) (mid_book ms []) =
        All-map (λ x. ⊥ ⊎ AnyOf (λ m. IsMid m x) ms) (mid_book ms [])
          (λ x q. elim q [ inl h ↦ absurd h | inr a ↦ a ]) (mid_book-All (λ x. ⊥) ms [] tt) in
      (
        set_by,
        keep-numbers expiry (mid_book ms []) (
            All-map (λ x. AnyOf (λ m. IsMid m x) ms) (mid_book ms []) (λ x a. AnyOf-truthy x ms a)
              set_by),
      )
