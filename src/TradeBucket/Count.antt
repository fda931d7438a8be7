-- ===== src/TradeBucket/Count.antt =====
-- How many buckets a message closes, and where its trades are counted.
use volatility_services.Prelude.{
  ℕ, suc, ◌+◌, ◌≤◌, ◌≡◌, refl, List, [], ◌∷◌, ◌++◌, length, append-nil, arith,
}
use volatility_services.OptionBucket.{Header}
use volatility_services.TradeBucket.{
  TradeBucket, Trade, Message, trade, other, Computable, update, flush, compute, run,
}

module _ {N : Type 0} where
  -- The trades that buckets hold.
  abbrev pub held : List (TradeBucket N) → ℕ
  held [] = 0
  held (b ∷ bs) = b.trades + held bs

  -- The trades among messages.
  abbrev pub received : List (Message N) → ℕ
  received [] = 0
  received (trade m o ∷ ms) = suc (received ms)
  received (other m ∷ ms) = received ms

module _ {N : Type 0} (nought : N) where
  flush-yields_once : (m : Header) (c : Computable N) → length (flush nought m c).0 ≤ 1
  unfolding flush
  flush-yields_once m c = ground arith

  -- Once a message is taken in, its own bucket is the one in progress.
  pub flush-update :
      (m : Header) (o : Trade N) (c : Computable N)
      → (flush nought m (update nought m o (flush nought m c).1)).0 ≡ []
  unfolding flush update
  flush-update m o c = ground arith

  -- A message closes at most one bucket.
  pub compute-yields_at_most_one :
      (m : Message N) (c : Computable N) → length (compute nought m c).0 ≤ 1
  unfolding compute
  compute-yields_at_most_one (other m) c = flush-yields_once m c
  compute-yields_at_most_one (trade m o) c = rw flush-update (rw append-nil (flush-yields_once m c))

  held-append : (xs ys : List (TradeBucket N)) → held (xs ++ ys) ≡ held xs + held ys
  held-append [] ys = omega arith
  held-append (x ∷ xs) ys = omega (arith, held-append xs ys)

  flush-held :
      (m : Header) (c : Computable N)
      → held (flush nought m c).0 + (flush nought m c).1.in_progress.trades ≡ c.in_progress.trades
  unfolding flush
  flush-held m c = ground arith

  trades-update :
      (m : Header) (o : Trade N) (c : Computable N)
      → (update nought m o c).in_progress.trades ≡ c.in_progress.trades + 1
  unfolding update
  trades-update m o c = refl

  compute-held :
      (m : Message N) (c : Computable N)
      → held (compute nought m c).0 + (compute nought m c).1.in_progress.trades
        ≡ c.in_progress.trades + received (m ∷ [])
  unfolding compute
  compute-held (other m) c = omega (arith, flush-held m c)
  compute-held (trade m o) c =
      let c' = (flush nought m c).1 in
      let c'' = update nought m o c' in
      omega (
        arith,
        held-append (flush nought m c).0 (flush nought m c'').0,
        flush-held m c,
        trades-update m o c',
        flush-held m c'',
      )

  -- No trade of a stream is lost or counted twice: those in the closed buckets and those of the
  -- bucket in progress are those that were in progress at the start and those received.
  pub run-counts_trades :
      (ms : List (Message N)) (c : Computable N)
      → held (run nought ms c).0 + (run nought ms c).1.in_progress.trades
        ≡ c.in_progress.trades + received ms
  unfolding run
  run-counts_trades [] c = omega arith
  run-counts_trades (trade m o ∷ ms) c =
      let c' = (compute nought (trade m o) c).1 in
      omega (
        arith,
        held-append (compute nought (trade m o) c).0 (run nought ms c').0,
        compute-held (trade m o) c,
        run-counts_trades ms c',
      )
  run-counts_trades (other m ∷ ms) c =
      let c' = (compute nought (other m) c).1 in
      omega (
        arith,
        held-append (compute nought (other m) c).0 (run nought ms c').0,
        compute-held (other m) c,
        run-counts_trades ms c',
      )
