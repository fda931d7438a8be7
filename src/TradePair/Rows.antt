-- ===== src/TradePair/Rows.antt =====
-- The rows that services/trade_pair.service.ts stores of the buckets of src/computables/trade_bucket.ts.
use volatility_services.Prelude.{
  ℕ, suc, ◌+◌, ◌<◌, ◌≡◌, refl, sym, subst, ◌∙◌, ◌⊎◌, inl, inr, String, Bool, true, false, none,
  List, [], ◌∷◌, length, All, All-map, AnyOf, arith,
}
use volatility_services.Prelude.Int.{pos, ◌+ℤ◌, ◌<ℤ◌, scale, floor_div}
use volatility_services.OptionBucket.{BucketKind}
use volatility_services.TradeBucket.{TradeBucket, new, run, Message as Received}
use volatility_services.TradeBucket.Periods.{IsClosed, new-run-IsClosed_trades}
use volatility_services.TradePair.{
  Message, trade, trade_bucket, TradePair, Captures, nothing_captured, row_of, execute_insert,
  capture_message, process_messages,
}

module _ {N : Type 0} where
  abbrev pub buckets : List (Message N × Bool) → List (TradeBucket N)
  buckets [] = []
  buckets ((trade t, inserts) ∷ ms) = buckets ms
  buckets ((trade_bucket b, inserts) ∷ ms) = b ∷ buckets ms

  -- A bucket of the computable that the service starts for an exchange, from some trades.
  abbrev pub IsComputed : N → BucketKind → ℕ → TradeBucket N → Type 0
  IsComputed nought kind interval b =
      (received : List (Received N)) × AnyOf (λ c. b ≡ c)
        (run nought received (new nought kind interval none)).0

  All-AnyOf :
      (P : TradeBucket N → Type 0) (b : TradeBucket N) (bs : List (TradeBucket N))
      → AnyOf (λ c. b ≡ c) bs
      → All P bs
      → P b
  All-AnyOf P b [] a all = elim a [ ]
  All-AnyOf P b (c ∷ bs) (inl e) all = rw e all.0
  All-AnyOf P b (c ∷ bs) (inr a) all = All-AnyOf P b bs a all.1

  IsComputed-IsClosed :
      (nought : N) (kind : BucketKind) (k : ℕ) (b : TradeBucket N)
      → 0 < k
      → IsComputed nought kind k b
      → IsClosed k b
  IsComputed-IsClosed nought kind k b p (received, a) =
      All-AnyOf (IsClosed k) b (run nought received (new nought kind k none)).0 a
        (new-run-IsClosed_trades nought kind k none received p)

module _ {N : Type 0} (print : N → String) where
  -- A row that is of a bucket of k milliseconds: field by field, and its time lies before the end of the
  -- period of the bucket's open timestamp.
  pub record IsRowOf (k : ℕ) (b : TradeBucket N) (row : TradePair) : Type 0 where
    pub symbol : row.symbol ≡ b.symbol
    pub exchange : row.exchange ≡ b.exchange
    pub id : row.id ≡ b.id
    pub price : row.price ≡ print b.price
    pub local_timestamp : row.local_timestamp ≡ b.local_timestamp
    pub time : row.timestamp ≡ b.close_timestamp
    pub nonempty : 0 < b.trades
    pub before_end : row.timestamp <ℤ scale (floor_div b.open_timestamp k +ℤ pos 1) k

  row_of-IsRowOf :
      (k : ℕ) (b : TradeBucket N) → IsClosed k b → IsRowOf k b (row_of print (trade_bucket b))
  row_of-IsRowOf k b closed = record {
    symbol = refl;
    exchange = refl;
    id = refl;
    price = refl;
    local_timestamp = refl;
    time = refl;
    nonempty = closed.nonempty;
    before_end = subst (λ t. b.close_timestamp <ℤ t) closed.period closed.ends;
  }

  abbrev pub IsOf : ℕ → List (TradeBucket N) → TradePair → Type 0
  IsOf k bs row = AnyOf (λ b. IsRowOf k b row) bs

  capture-All :
      (P : TradePair → Type 0) (b : TradeBucket N) (inserts : Bool) (s : Captures N)
      → P (row_of print (trade_bucket b))
      → All P s.inserted
      → All P (capture_message print (trade_bucket b) inserts s).inserted
  unfolding capture_message execute_insert
  capture-All P b true s p ps = (p, ps)
  capture-All P b false s p ps = ps

  capture-count :
      (b : TradeBucket N) (inserts : Bool) (s : Captures N)
      → length (capture_message print (trade_bucket b) inserts s).inserted
          + (capture_message print (trade_bucket b) inserts s).stream_errors
        ≡ suc (length s.inserted + s.stream_errors)
  unfolding capture_message execute_insert
  capture-count b true s = omega arith
  capture-count b false s = omega arith

  process_messages-All :
      (P : TradePair → Type 0) (k : ℕ) (ms : List (Message N × Bool)) (s : Captures N)
      → All (IsClosed k) (buckets ms)
      → All P s.inserted
      → All (λ row. P row ⊎ IsOf k (buckets ms) row) (process_messages print ms s).inserted
  unfolding process_messages
  process_messages-All P k [] s closed ps = All-map P s.inserted (λ r p. inl p) ps
  process_messages-All P k ((trade t, inserts) ∷ ms) s closed ps =
      process_messages-All P k ms s closed ps
  process_messages-All P k ((trade_bucket b, inserts) ∷ ms) s closed ps =
      let s' = capture_message print (trade_bucket b) inserts s in
      let Q = λ (row : TradePair). P row ⊎ (row ≡ row_of print (trade_bucket b)) in
      All-map (λ row. Q row ⊎ IsOf k (buckets ms) row) (process_messages print ms s').inserted
        (λ row q. elim q [
          | inl (inl p) ↦ inl p
          | inl (inr e) ↦ inr (inl (subst (IsRowOf k b) (sym e) (row_of-IsRowOf k b closed.0)))
          | inr a ↦ inr (inr a)
        ])
        (process_messages-All Q k ms s' closed.1
          (capture-All Q b inserts s (inr refl) (All-map P s.inserted (λ r p. inl p) ps)))

  process_messages-count :
      (ms : List (Message N × Bool)) (s : Captures N)
      → length (process_messages print ms s).inserted + (process_messages print ms s).stream_errors
        ≡ length (buckets ms) + (length s.inserted + s.stream_errors)
  unfolding process_messages
  process_messages-count [] s = omega arith
  process_messages-count ((trade t, inserts) ∷ ms) s = process_messages-count ms s
  process_messages-count ((trade_bucket b, inserts) ∷ ms) s =
      process_messages-count ms (capture_message print (trade_bucket b) inserts s)
      ∙ omega (arith, capture-count b inserts s)

  -- Where every bucket of a stream was yielded by a new computable of a positive interval, whichever trades
  -- that received, every row stored is of one of these buckets: it has the bucket's symbol, exchange,
  -- identity, price and local time, and its time is the bucket's close timestamp, which lies before the end
  -- of the period of its open timestamp. The rows and the errors of the stream are together as many as the
  -- buckets.
  pub process_messages-IsOf :
      (nought : N) (kind : BucketKind) (k : ℕ) (ms : List (Message N × Bool))
      → 0 < k
      → All (IsComputed nought kind k) (buckets ms)
      → All (IsOf k (buckets ms)) (process_messages print ms nothing_captured).inserted
        × (length (process_messages print ms nothing_captured).inserted
              + (process_messages print ms nothing_captured).stream_errors
            ≡ length (buckets ms))
  process_messages-IsOf nought kind k ms p computed = (
    All-map (λ row. ⊥ ⊎ IsOf k (buckets ms) row)
        (process_messages print ms nothing_captured).inserted
        (λ row q. elim q [ inl h ↦ absurd h | inr a ↦ a ])
        (process_messages-All (λ row. ⊥) k ms nothing_captured
          (All-map (IsComputed nought kind k) (buckets ms)
            (λ b c. IsComputed-IsClosed nought kind k b p c) computed)
          tt),
    process_messages-count ms nothing_captured ∙ omega arith,
  )
