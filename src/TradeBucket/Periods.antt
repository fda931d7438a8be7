-- ===== src/TradeBucket/Periods.antt =====
-- The period that a closed bucket stands for.
use volatility_services.Prelude.{
  ℕ, ◌<◌, ◌≡◌, refl, List, [], ◌∷◌, All, All-append, All-map, Option, String, ◌∙◌, append-nil,
  arith,
}
use volatility_services.Prelude.Int.{ℤ, pos, ◌+ℤ◌, ◌≤ℤ◌, ◌<ℤ◌, scale, floor_div, period_end_bounds}
use volatility_services.TradeBucket.Count.{flush-update}
use volatility_services.OptionBucket.{BucketKind, Header}
use volatility_services.TradeBucket.{
  TradeBucket, Trade, Message, trade, other, Computable, new, update, flush, compute, run,
}

module _ {N : Type 0} where
  -- While a bucket is in progress, its last message lies in the period of its first or before it.
  abbrev pub IsCurrent : Computable N → Type 0
  IsCurrent c =
      0 < c.in_progress.trades
      → floor_div c.in_progress.close_timestamp c.interval
        ≤ℤ floor_div c.in_progress.open_timestamp c.interval

  -- A closed bucket holds a trade, its timestamp is the end of the period of its first message,
  -- and both its first and its last message lie before that end.
  pub record IsClosed (k : ℕ) (b : TradeBucket N) : Type 0 where
    pub nonempty : 0 < b.trades
    pub period : b.timestamp ≡ scale (floor_div b.open_timestamp k +ℤ pos 1) k
    pub starts : b.open_timestamp <ℤ b.timestamp
    pub ends : b.close_timestamp <ℤ b.timestamp

  -- Moreover the message that closes it does not lie before that end.
  abbrev pub IsClosedBy : ℕ → ℤ → TradeBucket N → Type 0
  IsClosedBy k now b = IsClosed k b × (b.timestamp ≤ℤ now)

  module _ (nought : N) where
    flush-interval : (m : Header) (c : Computable N) → (flush nought m c).1.interval ≡ c.interval
    unfolding flush
    flush-interval m c = ground arith

    flush-IsCurrent : (m : Header) (c : Computable N) → IsCurrent c → IsCurrent (flush nought m c).1
    unfolding flush
    flush-IsCurrent m c h = ground arith

    flush-IsClosedBy :
        (m : Header) (c : Computable N)
        → 0 < c.interval
        → IsCurrent c
        → All (IsClosedBy c.interval m.timestamp) (flush nought m c).0
    unfolding flush
    flush-IsClosedBy m c p h = ground (
      arith,
      period_end_bounds c.in_progress.open_timestamp c.in_progress.close_timestamp m.timestamp
          c.interval p,
      period_end_bounds c.in_progress.open_timestamp c.in_progress.open_timestamp m.timestamp
          c.interval p,
    )

    -- After a flush the message belongs to the bucket in progress, or comes too late for a new one.
    update-IsCurrent :
        (m : Header) (o : Trade N) (c : Computable N)
        → IsCurrent c
        → IsCurrent (update nought m o (flush nought m c).1)
    unfolding flush update
    update-IsCurrent m o c h = ground arith

    update-interval :
        (m : Header) (o : Trade N) (c : Computable N) → (update nought m o c).interval ≡ c.interval
    unfolding update
    update-interval m o c = refl

    abbrev time_of : Message N → ℤ
    time_of (trade m o) = m.timestamp
    time_of (other m) = m.timestamp

    compute-interval :
        (m : Message N) (c : Computable N) → (compute nought m c).1.interval ≡ c.interval
    unfolding compute
    compute-interval (other m) c = flush-interval m c
    compute-interval (trade m o) c = rw flush-interval (rw update-interval (flush-interval m c))

    compute-IsCurrent :
        (m : Message N) (c : Computable N) → IsCurrent c → IsCurrent (compute nought m c).1
    unfolding compute
    compute-IsCurrent (other m) c h = flush-IsCurrent m c h
    compute-IsCurrent (trade m o) c h =
        flush-IsCurrent m (update nought m o (flush nought m c).1) (update-IsCurrent m o c h)

    -- What a message closes ends at that message's time or before it.
    pub compute-IsClosedBy :
        (m : Message N) (c : Computable N)
        → 0 < c.interval
        → IsCurrent c
        → All (IsClosedBy c.interval (time_of m)) (compute nought m c).0
    unfolding compute
    compute-IsClosedBy (other m) c p h = flush-IsClosedBy m c p h
    compute-IsClosedBy (trade m o) c p h =
        rw flush-update (rw append-nil (flush-IsClosedBy m c p h))

    run-IsClosed :
        (ms : List (Message N)) (c : Computable N) (k : ℕ)
        → c.interval ≡ k
        → 0 < k
        → IsCurrent c
        → All (IsClosed k) (run nought ms c).0
    unfolding run
    run-IsClosed [] c k e p h = tt
    run-IsClosed (m ∷ ms) c k e p h =
        let c' = (compute nought m c).1 in
        All-append (IsClosed k) (compute nought m c).0 (run nought ms c').0
          (rw (← e) (
            All-map (IsClosedBy c.interval (time_of m)) (compute nought m c).0 (λ b q. q.0)
              (compute-IsClosedBy m c (rw e p) h)))
          (run-IsClosed ms c' k (compute-interval m c ∙ e) p (compute-IsCurrent m c h))

    -- Of any stream through a new computable, every bucket that is yielded is closed: it is not
    -- empty, its timestamp is the end of the period of its first message, and its messages lie before.
    pub new-run-IsClosed_trades :
        (kind : BucketKind) (k : ℕ) (name : Option String) (ms : List (Message N))
        → 0 < k
        → All (IsClosed k) (run nought ms (new nought kind k name)).0
    unfolding new
    new-run-IsClosed_trades kind k name ms p =
        run-IsClosed ms (new nought kind k name) k refl p (λ q. absurd (omega arith))
