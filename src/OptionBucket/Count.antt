-- ===== src/OptionBucket/Count.antt =====
-- How many buckets a message closes, and where its summaries are counted.
use volatility_services.Prelude.{
  ℕ, suc, ◌+◌, ◌≤◌, ◌≡◌, refl, List, [], ◌∷◌, ◌++◌, length, append-nil, arith,
}
use volatility_services.OptionBucket.{
  OptionBucket, Header, Summary, Message, option_summary, other, Computable, update, flush, compute,
  run,
}

module _ {N : Type 0} where
  -- The summaries that buckets hold.
  abbrev pub held : List (OptionBucket N) → ℕ
  held [] = 0
  held (b ∷ bs) = b.summaries + held bs

  -- The option summaries among messages.
  abbrev pub received : List (Message N) → ℕ
  received [] = 0
  received (option_summary m o ∷ ms) = suc (received ms)
  received (other m ∷ ms) = received ms

module _ {N : Type 0} (nought : N) where
  flush-yields_once : (m : Header) (c : Computable N) → length (flush nought m c).0 ≤ 1
  unfolding flush
  flush-yields_once m c = ground arith

  -- Once a message is taken in, its own bucket is the one in progress.
  pub flush-update :
      (m : Header) (o : Summary N) (c : Computable N)
      → (flush nought m (update nought m o (flush nought m c).1)).0 ≡ []
  unfolding flush update
  flush-update m o c = ground arith

  -- A message closes at most one bucket.
  pub compute-yields_once : (m : Message N) (c : Computable N) → length (compute nought m c).0 ≤ 1
  unfolding compute
  compute-yields_once (other m) c = flush-yields_once m c
  compute-yields_once (option_summary m o) c =
      rw flush-update (rw append-nil (flush-yields_once m c))

  held-append : (xs ys : List (OptionBucket N)) → held (xs ++ ys) ≡ held xs + held ys
  held-append [] ys = omega arith
  held-append (x ∷ xs) ys = omega (arith, held-append xs ys)

  flush-held :
      (m : Header) (c : Computable N)
      → held (flush nought m c).0 + (flush nought m c).1.in_progress.summaries
        ≡ c.in_progress.summaries
  unfolding flush
  flush-held m c = ground arith

  summaries-update :
      (m : Header) (o : Summary N) (c : Computable N)
      → (update nought m o c).in_progress.summaries ≡ c.in_progress.summaries + 1
  unfolding update
  summaries-update m o c = refl

  compute-held :
      (m : Message N) (c : Computable N)
      → held (compute nought m c).0 + (compute nought m c).1.in_progress.summaries
        ≡ c.in_progress.summaries + received (m ∷ [])
  unfolding compute
  compute-held (other m) c = omega (arith, flush-held m c)
  compute-held (option_summary m o) c =
      let c' = (flush nought m c).1 in
      let c'' = update nought m o c' in
      omega (
        arith,
        held-append (flush nought m c).0 (flush nought m c'').0,
        flush-held m c,
        summaries-update m o c',
        flush-held m c'',
      )

  -- No summary of a stream is lost or counted twice: those in the closed buckets and those of the
  -- bucket in progress are those that were in progress at the start and those received.
  pub run-counts :
      (ms : List (Message N)) (c : Computable N)
      → held (run nought ms c).0 + (run nought ms c).1.in_progress.summaries
        ≡ c.in_progress.summaries + received ms
  unfolding run
  run-counts [] c = omega arith
  run-counts (option_summary m o ∷ ms) c =
      let c' = (compute nought (option_summary m o) c).1 in
      omega (
        arith,
        held-append (compute nought (option_summary m o) c).0 (run nought ms c').0,
        compute-held (option_summary m o) c,
        run-counts ms c',
      )
  run-counts (other m ∷ ms) c =
      let c' = (compute nought (other m) c).1 in
      omega (
        arith,
        held-append (compute nought (other m) c).0 (run nought ms c').0,
        compute-held (other m) c,
        run-counts ms c',
      )
