-- ===== src/TradeBucket.antt =====
-- src/computables/trade_bucket.ts: trades gathered into buckets of one time interval. The instants,
-- the type `N` of prices and the generator are as in OptionBucket.
pub mod Count
pub mod Periods
mod Tests
use volatility_services.Prelude.{
  ℕ, ◌+◌, String, Bool, true, false, Option, none, some, List, [], ◌∷◌, ◌++◌, nat_beq,
  if◌then◌else◌,
}
use volatility_services.Prelude.Int.{ℤ, pos, negsuc, ◌+ℤ◌, scale, floor_div, ltb_ℤ}
use volatility_services.OptionBucket.{BucketKind, time, BucketName, given, generated, Header}

pub record TradeBucket (N : Type 0) : Type 0 where
  pub type : String
  pub symbol : String
  pub exchange : String
  pub name : BucketName
  pub interval : ℕ
  pub kind : BucketKind
  pub id : Option String
  pub trades : ℕ
  pub open_timestamp : ℤ
  pub close_timestamp : ℤ
  pub price : N
  pub timestamp : ℤ
  pub local_timestamp : ℤ

-- What a trade adds to a message; `none` is `undefined`.
pub record Trade (N : Type 0) : Type 0 where
  pub id : Option String
  pub price : N

pub data Message (N : Type 0) : Type 0 where
  trade : Header → Trade N → Message N
  other : Header → Message N

pub record Computable (N : Type 0) : Type 0 where
  pub in_progress : TradeBucket N
  pub kind : BucketKind
  pub interval : ℕ
  pub name : BucketName

abbrev pub date_min : ℤ
date_min = negsuc 0

abbrev pub bucket_type : String
bucket_type = "trade_bucket"

abbrev pub kind_suffix : BucketKind → String
kind_suffix time = "sec"

unfoldable pub get_time_bucket : ℕ → ℤ → ℤ
get_time_bucket interval timestamp = floor_div timestamp interval

module _ {N : Type 0} (nought : N) where
  unfoldable pub reset : Computable N → Computable N
  reset c = record c {
    in_progress = record {
      type = bucket_type;
      symbol = "";
      exchange = "";
      name = c.name;
      interval = c.interval;
      kind = c.kind;
      id = none;
      trades = 0;
      open_timestamp = date_min;
      close_timestamp = date_min;
      price = nought;
      timestamp = date_min;
      local_timestamp = date_min;
    };
  }

  abbrev name_of : BucketKind → ℕ → Option String → BucketName
  name_of kind interval none = generated bucket_type interval (kind_suffix kind)
  name_of kind interval (some name) = given name

  -- The constructor: an empty object, reset.
  unfoldable pub new : BucketKind → ℕ → Option String → Computable N
  unfolding reset
  new kind interval name = reset (record {
    in_progress = record {
      type = "";
      symbol = "";
      exchange = "";
      name = name_of kind interval name;
      interval = 0;
      kind = kind;
      id = none;
      trades = 0;
      open_timestamp = date_min;
      close_timestamp = date_min;
      price = nought;
      timestamp = date_min;
      local_timestamp = date_min;
    };
    kind = kind;
    interval = interval;
    name = name_of kind interval name;
  })

  -- A new bucket is due; its test also sets the timestamp of the bucket in progress.
  unfoldable pub has_new_bucket : ℤ → Computable N → Bool × Computable N
  unfolding get_time_bucket
  has_new_bucket timestamp c = if nat_beq c.in_progress.trades 0 then (false, c) else elim c.kind [
    | time ↦
        let open_bucket = get_time_bucket c.interval c.in_progress.open_timestamp in
        if ltb_ℤ open_bucket (get_time_bucket c.interval timestamp)
        then (
          true,
          record c {
            in_progress = record c.in_progress {
              timestamp = scale (open_bucket +ℤ pos 1) c.interval;
            };
          },
        )
        else (false, c)
  ]

  unfoldable pub compute_bucket : Header → Computable N → TradeBucket N × Computable N
  unfolding reset
  compute_bucket m c =
      let bucket = record c.in_progress {
        local_timestamp = m.local_timestamp;
        symbol = m.symbol;
        exchange = m.exchange;
      } in
      (bucket, reset (record c { in_progress = bucket }))

  unfoldable pub update : Header → Trade N → Computable N → Computable N
  update m t c = record c {
    in_progress = record c.in_progress {
      open_timestamp =
          if nat_beq c.in_progress.trades 0 then m.timestamp else c.in_progress.open_timestamp;
      id = t.id;
      price = t.price;
      timestamp = m.timestamp;
      close_timestamp = m.timestamp;
      local_timestamp = m.local_timestamp;
      trades = c.in_progress.trades + 1;
    };
  }

  -- `if (this._hasNewBucket(timestamp)) yield this._computeBucket(message)`
  unfoldable pub flush : Header → Computable N → List (TradeBucket N) × Computable N
  unfolding has_new_bucket compute_bucket
  flush m c =
      let (due, c') = has_new_bucket m.timestamp c in
      if due then (let (bucket, c'') = compute_bucket m c' in (bucket ∷ [], c'')) else ([], c')

  unfoldable pub compute : Message N → Computable N → List (TradeBucket N) × Computable N
  compute (other m) c = flush m c
  compute (trade m t) c =
      let (before, c') = flush m c in
      let (after, c'') = flush m (update m t c') in (before ++ after, c'')

  -- A computable fed with the messages of a stream, in order.
  unfoldable pub run : List (Message N) → Computable N → List (TradeBucket N) × Computable N
  run [] c = ([], c)
  run (m ∷ ms) c = let (out, c') = compute m c in let (rest, c'') = run ms c' in (out ++ rest, c'')
