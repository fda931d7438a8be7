-- ===== src/OptionBucket.antt =====
-- src/computables/option_bucket.ts: option summaries gathered into buckets of one time interval.
-- Instants are integers of milliseconds, since DATE_MIN is -1. `N` is the type of prices, and
-- `nought` the price 0. A computable is stepped by one message at a time, and `compute` returns what
-- its generator yields together with the state after it.
pub mod Count
pub mod Periods
mod Tests
use volatility_services.Prelude.{
  ℕ, ◌+◌, String, Bool, true, false, Option, none, some, List, [], ◌∷◌, ◌++◌, nat_beq,
  if◌then◌else◌,
}
use volatility_services.Prelude.Int.{ℤ, pos, negsuc, ◌+ℤ◌, scale, floor_div, ltb_ℤ}

pub data BucketKind : Type 0 where
  time : BucketKind

pub data OptionType : Type 0 where
  call put : OptionType

-- The pieces of a computable's name: one that the caller gives, or `${type}_${interval}${suffix}`.
pub data BucketName : Type 0 where
  given : String → BucketName
  generated : String → ℕ → String → BucketName

pub record OptionBucket (N : Type 0) : Type 0 where
  pub type : String
  pub symbol : String
  pub exchange : String
  pub name : BucketName
  pub interval : ℕ
  pub kind : BucketKind
  pub id : Option String
  pub summaries : ℕ
  pub open_timestamp : ℤ
  pub close_timestamp : ℤ
  pub underlying_price : N
  pub last_price : N
  pub strike_price : N
  pub expiration_date : ℤ
  pub option_type : Option OptionType
  pub delta : N
  pub mark_iv : N
  pub timestamp : ℤ
  pub local_timestamp : ℤ

-- What every normalized message carries.
pub record Header : Type 0 where
  pub symbol : String
  pub exchange : String
  pub timestamp : ℤ
  pub local_timestamp : ℤ

-- What an option summary adds; `none` is `undefined`.
pub record Summary (N : Type 0) : Type 0 where
  pub underlying_price : Option N
  pub last_price : Option N
  pub strike_price : N
  pub expiration_date : ℤ
  pub option_type : OptionType
  pub delta : Option N
  pub mark_iv : Option N

pub data Message (N : Type 0) : Type 0 where
  option_summary : Header → Summary N → Message N
  other : Header → Message N

pub record Computable (N : Type 0) : Type 0 where
  pub in_progress : OptionBucket N
  pub kind : BucketKind
  pub interval : ℕ
  pub name : BucketName

abbrev pub date_min : ℤ
date_min = negsuc 0

abbrev pub bucket_type : String
bucket_type = "option_bucket"

abbrev pub kind_suffix : BucketKind → String
kind_suffix time = "sec"

-- `v ?? d`
abbrev pub or_default : {N : Type 0} → Option N → N → N
or_default none d = d
or_default (some v) d = v

unfoldable pub get_time_bucket : ℕ → ℤ → ℤ
get_time_bucket interval timestamp = floor_div timestamp interval

module _ {N : Type 0} (nought : N) where
  -- The option type is the one field that a reset leaves alone.
  unfoldable pub reset : Computable N → Computable N
  reset c = record c {
    in_progress = record {
      type = bucket_type;
      symbol = "";
      exchange = "";
      name = c.name;
      interval = c.interval;
      kind = c.kind;
      id = none;
      summaries = 0;
      open_timestamp = date_min;
      close_timestamp = date_min;
      underlying_price = nought;
      last_price = nought;
      strike_price = nought;
      expiration_date = date_min;
      option_type = c.in_progress.option_type;
      delta = nought;
      mark_iv = nought;
      timestamp = date_min;
      local_timestamp = date_min;
    };
  }

  abbrev name_of : BucketKind → ℕ → Option String → BucketName
  name_of kind interval none = generated bucket_type interval (kind_suffix kind)
  name_of kind interval (some name) = given name

  -- The constructor: an empty object, reset.
  unfoldable pub new : BucketKind → ℕ → Option String → Computable N
  unfolding reset
  new kind interval name = reset (record {
    in_progress = record {
      type = "";
      symbol = "";
      exchange = "";
      name = name_of kind interval name;
      interval = 0;
      kind = kind;
      id = none;
      summaries = 0;
      open_timestamp = date_min;
      close_timestamp = date_min;
      underlying_price = nought;
      last_price = nought;
      strike_price = nought;
      expiration_date = date_min;
      option_type = none;
      delta = nought;
      mark_iv = nought;
      timestamp = date_min;
      local_timestamp = date_min;
    };
    kind = kind;
    interval = interval;
    name = name_of kind interval name;
  })

  -- A new bucket is due; its test also sets the timestamp of the bucket in progress.
  unfoldable pub has_new_bucket : ℤ → Computable N → Bool × Computable N
  unfolding get_time_bucket
  has_new_bucket timestamp c =
      if nat_beq c.in_progress.summaries 0 then (false, c) else elim c.kind [
        | time ↦
            let open_bucket = get_time_bucket c.interval c.in_progress.open_timestamp in
            if ltb_ℤ open_bucket (get_time_bucket c.interval timestamp)
            then (
              true,
              record c {
                in_progress = record c.in_progress {
                  timestamp = scale (open_bucket +ℤ pos 1) c.interval;
                };
              },
            )
            else (false, c)
      ]

  unfoldable pub compute_bucket : Header → Computable N → OptionBucket N × Computable N
  unfolding reset
  compute_bucket m c =
      let option = record c.in_progress {
        local_timestamp = m.local_timestamp;
        symbol = m.symbol;
        exchange = m.exchange;
      } in
      (option, reset (record c { in_progress = option }))

  unfoldable pub update : Header → Summary N → Computable N → Computable N
  update m o c = record c {
    in_progress = record c.in_progress {
      open_timestamp =
          if nat_beq c.in_progress.summaries 0 then m.timestamp else c.in_progress.open_timestamp;
      id = some m.symbol;
      underlying_price = or_default o.underlying_price nought;
      last_price = or_default o.last_price nought;
      strike_price = o.strike_price;
      timestamp = m.timestamp;
      close_timestamp = m.timestamp;
      local_timestamp = m.local_timestamp;
      expiration_date = o.expiration_date;
      option_type = some o.option_type;
      delta = or_default o.delta nought;
      mark_iv = or_default o.mark_iv nought;
      summaries = c.in_progress.summaries + 1;
    };
  }

  -- `if (this._hasNewBucket(timestamp)) yield this._computeBucket(message)`
  unfoldable pub flush : Header → Computable N → List (OptionBucket N) × Computable N
  unfolding has_new_bucket compute_bucket
  flush m c =
      let (due, c') = has_new_bucket m.timestamp c in
      if due then (let (bucket, c'') = compute_bucket m c' in (bucket ∷ [], c'')) else ([], c')

  unfoldable pub compute : Message N → Computable N → List (OptionBucket N) × Computable N
  compute (other m) c = flush m c
  compute (option_summary m o) c =
      let (before, c') = flush m c in
      let (after, c'') = flush m (update m o c') in (before ++ after, c'')

  -- A computable fed with the messages of a stream, in order.
  unfoldable pub run : List (Message N) → Computable N → List (OptionBucket N) × Computable N
  run [] c = ([], c)
  run (m ∷ ms) c = let (out, c') = compute m c in let (rest, c'') = run ms c' in (out ++ rest, c'')
