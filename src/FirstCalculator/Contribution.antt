-- ===== src/FirstCalculator/Contribution.antt =====
-- `contributionGet` of src/lib/vix_calculator.ts: the sum over a book of the prices, each weighed by the
-- distance of its neighbours' strikes over the square of its own.
use volatility_services.Prelude.{
  ℕ, zero, suc, ◌+◌, ◌-◌, ◌≡◌, refl, sym, ap, ◌∙◌, true, false, Option, none, some, List, [], ◌∷◌,
  ◌++◌, append_assoc, if◌then◌else◌, nat_beq, length, length-append, arith,
}
use volatility_services.FirstCalculator.Numbers.{Double, strike_of, get_elem?}
use volatility_services.FirstCalculator.FinalBook.{Entry, strike}

infixl 5 ◌>>=◌
abbrev ◌>>=◌ : {A B : Type 0} → Option A → (A → Option B) → Option B
none >>= f = none
some a >>= f = f a

module _ {N : Type 0} (d : Double N) where
  open d use {of_ℕ, add, sub, mul, div, pow}

  -- `contribution + (deltaK / thisStrike ** 2) * thisPrice`
  abbrev pub add_weighed : N → N → Entry N → N
  add_weighed contribution delta_k (k, v) =
      add contribution (mul (div delta_k (pow (strike_of d k) (of_ℕ 2))) v)

  -- The rounds of the loop; `finalBook[j][0]` throws out of range.
  abbrev first_round : List (Entry N) → ℕ → N → Option N
  first_round book i contribution = do
    this ← get_elem? book i
    next ← get_elem? book (i + 1)
    some (add_weighed contribution (sub (strike d next) (strike d this)) this)

  abbrev last_round : List (Entry N) → ℕ → N → Option N
  last_round book i contribution = do
    this ← get_elem? book i
    previous ← get_elem? book (i - 1)
    some (add_weighed contribution (sub (strike d this) (strike d previous)) this)

  abbrev inner_round : List (Entry N) → ℕ → N → Option N
  inner_round book i contribution = do
    this ← get_elem? book i
    next ← get_elem? book (i + 1)
    previous ← get_elem? book (i - 1)
    some (add_weighed contribution (div (sub (strike d next) (strike d previous)) (of_ℕ 2)) this)

  unfoldable pub contribution_at : List (Entry N) → ℕ → N → Option N
  contribution_at book i contribution =
      if nat_beq i 0
      then first_round book i contribution
      else if nat_beq i (length book - 1)
      then last_round book i contribution
      else inner_round book i contribution

  -- The loop from `i` on, with `left` rounds to go.
  unfoldable pub contribution_from : List (Entry N) → ℕ → ℕ → N → Option N
  unfolding contribution_at
  contribution_from book zero i contribution = some contribution
  contribution_from book (suc left) i contribution = elim (contribution_at book i contribution) [
    | none ↦ none
    | some c ↦ contribution_from book left (i + 1) c
  ]

  unfoldable pub contribution_get : List (Entry N) → Option N
  unfolding contribution_from
  contribution_get book = contribution_from book (length book) 0 (of_ℕ 0)

  -- Independent of positions: an entry counts half the distance of the strikes beside it, the first and
  -- the last the distance to the one strike beside them.
  unfoldable pub inner_sum : N → Entry N → Entry N → List (Entry N) → N
  inner_sum contribution previous this [] =
      add_weighed contribution (sub (strike d this) (strike d previous)) this
  inner_sum contribution previous this (next ∷ rest) =
      inner_sum
        (add_weighed contribution (div (sub (strike d next) (strike d previous)) (of_ℕ 2)) this)
        this next rest

  abbrev pub weighed_sum : List (Entry N) → Option N
  weighed_sum [] = some (of_ℕ 0)
  weighed_sum (x ∷ []) = none
  weighed_sum (x ∷ y ∷ rest) =
      some (inner_sum (add_weighed (of_ℕ 0) (sub (strike d y) (strike d x)) x) x y rest)

  get_elem?-append :
      (pre post : List (Entry N)) (i n : ℕ)
      → n ≡ length pre + i
      → get_elem? (pre ++ post) n ≡ get_elem? post i
  get_elem?-append [] post i n h = ap (get_elem? post) (omega arith)
  get_elem?-append (x ∷ pre) post i zero h = absurd (omega arith)
  get_elem?-append (x ∷ pre) post i (suc n) h = get_elem?-append pre post i n (omega arith)

  contribution_at-inner :
      (pre : List (Entry N)) (previous this next : Entry N) (rest : List (Entry N)) (c : N)
      → contribution_at (pre ++ (previous ∷ this ∷ next ∷ rest)) (length pre + 1) c
        ≡ some (add_weighed c (div (sub (strike d next) (strike d previous)) (of_ℕ 2)) this)
  unfolding contribution_at
  contribution_at-inner pre previous this next rest c =
      let book = pre ++ (previous ∷ this ∷ next ∷ rest) in
      let n = length pre + 1 in
      let at = get_elem?-append pre (previous ∷ this ∷ next ∷ rest) in
      let first : nat_beq n 0 ≡ false = ground arith in
      let inner : nat_beq n (length book - 1) ≡ false =
        ground (arith, length-append pre (previous ∷ this ∷ next ∷ rest)) in
      rw
        (
          contribution_at,
          first,
          inner,
          at 1 n refl,
          at 2 (n + 1) (omega arith),
          at 0 (n - 1) (omega arith),
        )
        refl

  contribution_at-last :
      (pre : List (Entry N)) (previous this : Entry N) (c : N)
      → contribution_at (pre ++ (previous ∷ this ∷ [])) (length pre + 1) c
        ≡ some (add_weighed c (sub (strike d this) (strike d previous)) this)
  unfolding contribution_at
  contribution_at-last pre previous this c =
      let book = pre ++ (previous ∷ this ∷ []) in
      let n = length pre + 1 in
      let at = get_elem?-append pre (previous ∷ this ∷ []) in
      let first : nat_beq n 0 ≡ false = ground arith in
      let final : nat_beq n (length book - 1) ≡ true =
        ground (arith, length-append pre (previous ∷ this ∷ [])) in
      rw (contribution_at, first, final, at 1 n refl, at 0 (n - 1) (omega arith)) refl

  contribution_from-step :
      (book : List (Entry N)) (left i : ℕ) (c c' : N)
      → contribution_at book i c ≡ some c'
      → contribution_from book (suc left) i c ≡ contribution_from book left (i + 1) c'
  unfolding contribution_from
  contribution_from-step book left i c c' h = rw (contribution_from, h) refl

  contribution_from-inner_sum :
      (pre : List (Entry N)) (previous this : Entry N) (rest book : List (Entry N)) (n : ℕ) (c : N)
      → book ≡ pre ++ (previous ∷ this ∷ rest)
      → n ≡ length pre + 1
      → contribution_from book (suc (length rest)) n c ≡ some (inner_sum c previous this rest)
  contribution_from-inner_sum pre previous this [] book n c e k =
      rw (e, k)
        (contribution_from-step (pre ++ (previous ∷ this ∷ [])) 0 (length pre + 1) c
            (add_weighed c (sub (strike d this) (strike d previous)) this)
            (contribution_at-last pre previous this c)
          ∙ (unfold contribution_from inner_sum in refl))
  contribution_from-inner_sum pre previous this (next ∷ rest) book n c e k =
      let c' = add_weighed c (div (sub (strike d next) (strike d previous)) (of_ℕ 2)) this in
      contribution_from-step book (suc (length rest)) n c c'
        (rw (e, k) (contribution_at-inner pre previous this next rest c))
      ∙ contribution_from-inner_sum (pre ++ (previous ∷ [])) this next rest book (n + 1) c'
          (e ∙ sym (append_assoc pre (previous ∷ []) (this ∷ next ∷ rest)))
          (omega (arith, length-append pre (previous ∷ [])))
      ∙ (unfold inner_sum in refl)

  -- The contribution of a book is the sum without positions; a book of one entry has none, since the code
  -- throws on it.
  pub contribution_get-weighed_sum :
      (book : List (Entry N)) → contribution_get book ≡ weighed_sum book
  unfolding contribution_get
  contribution_get-weighed_sum [] = unfold contribution_from in refl
  contribution_get-weighed_sum (x ∷ []) = unfold contribution_from contribution_at in refl
  contribution_get-weighed_sum (x ∷ y ∷ rest) =
      contribution_from-step (x ∷ y ∷ rest) (suc (length rest)) 0 (of_ℕ 0)
        (add_weighed (of_ℕ 0) (sub (strike d y) (strike d x)) x) (unfold contribution_at in refl)
      ∙ contribution_from-inner_sum [] x y rest (x ∷ y ∷ rest) 1
          (add_weighed (of_ℕ 0) (sub (strike d y) (strike d x)) x) refl (omega arith)
