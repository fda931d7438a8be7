-- ===== src/TradeOption.antt =====
-- services/trade_option.service.ts: the option buckets of a stream are inserted in the database, and the
-- latest of each symbol is kept. Whether an insert succeeds stands beside its message. `N` is the type
-- of prices.
mod Tests
use volatility_services.Prelude.{
  ℕ, zero, suc, ◌+◌, ◌≡◌, refl, sym, ap, ◌∙◌, String, Bool, true, false, Option, none, some, List,
  [], ◌∷◌, map, length, if◌then◌else◌, Bool-cases, inl, inr, arith,
}
use volatility_services.Prelude.Dict.{Dict, get, set, get-set, values}
use volatility_services.Prelude.Keys.{symbol_key}
use volatility_services.OptionBucket.{OptionType}
use volatility_services.Expiries.{Asset}

-- The fields that are read of an option summary and of an option bucket.
pub record OptionData (N : Type 0) : Type 0 where
  pub timestamp : ℕ
  pub exchange : String
  pub symbol : String
  pub local_timestamp : ℕ
  pub strike_price : N
  pub expiration_date : ℕ
  pub last_price : Option N
  pub underlying_price : Option N
  pub option_type : OptionType
  pub mark_iv : Option N
  pub delta : Option N

pub data Message (N : Type 0) : Type 0 where
  option_summary option_bucket : OptionData N → Message N

-- The row that is inserted.
pub record TradeOption (N : Type 0) : Type 0 where
  pub asset : Asset
  pub timestamp : ℕ
  pub exchange : String
  pub symbol : String
  pub local_timestamp : ℕ
  pub strike_price : N
  pub expiration_date : ℕ
  pub price : String
  pub underlying_price : String
  pub option_type : OptionType
  pub mark_iv : String
  pub delta : String

pub record Captures (N : Type 0) : Type 0 where
  pub last_message : Option (Message N)
  pub latest : Dict String (TradeOption N)
  -- the rows that the database took, the latest first
  pub inserted : List (TradeOption N)
  -- the calls of onStreamError
  pub stream_errors : ℕ

abbrev pub nothing_captured : {N : Type 0} → Captures N
nothing_captured = record { last_message = none; latest = []; inserted = []; stream_errors = 0 }

-- The fields that are read of an instrument.
pub record Listed : Type 0 where
  pub id : String
  pub expiry : Option ℕ

-- The identities of the instruments that expire, which tardis-dev answers.
unfoldable pub build_option_lists : List Listed → List String
build_option_lists [] = []
build_option_lists (i ∷ is) = elim i.expiry [
  | none ↦ build_option_lists is
  | some expiry ↦ i.id ∷ build_option_lists is
]

module _ {N : Type 0} (asset : Asset) (print : N → String) where
  -- `x?.toString() ?? "0"`
  abbrev pub printed : Option N → String
  printed none = "0"
  printed (some n) = print n

  abbrev pub row_of : OptionData N → TradeOption N
  row_of o = record {
    asset = asset;
    timestamp = o.timestamp;
    exchange = o.exchange;
    symbol = o.symbol;
    local_timestamp = o.local_timestamp;
    strike_price = o.strike_price;
    expiration_date = o.expiration_date;
    price = printed o.last_price;
    underlying_price = printed o.underlying_price;
    option_type = o.option_type;
    mark_iv = printed o.mark_iv;
    delta = printed o.delta;
  }

  -- `executeInsert` with the `catch` behind it
  unfoldable pub execute_insert : TradeOption N → Bool → Captures N → Captures N
  execute_insert row true s = record s { inserted = row ∷ s.inserted }
  execute_insert row false s = record s { stream_errors = suc s.stream_errors }

  unfoldable pub capture_message : Message N → Bool → Captures N → Captures N
  unfolding execute_insert
  capture_message (option_summary o) inserts s =
      execute_insert (row_of o) inserts (record s { last_message = some (option_summary o) })
  capture_message (option_bucket o) inserts s = execute_insert (row_of o) inserts (record s {
    last_message = some (option_bucket o);
    latest = set o.symbol (row_of o) s.latest;
  })

  -- Only buckets are captured.
  unfoldable pub process_messages : List (Message N × Bool) → Captures N → Captures N
  unfolding capture_message
  process_messages [] s = s
  process_messages ((option_summary o, inserts) ∷ ms) s = process_messages ms s
  process_messages ((option_bucket o, inserts) ∷ ms) s =
      process_messages ms (capture_message (option_bucket o) inserts s)

  -- The action `latest`
  unfoldable pub get_latest : Captures N → List (TradeOption N)
  get_latest s = values s.latest

  abbrev pub later_row : Option (TradeOption N) → Option (TradeOption N) → Option (TradeOption N)
  later_row before none = before
  later_row before (some row) = some row

  -- The row of the last bucket with the symbol.
  abbrev pub last_row : String → List (Message N × Bool) → Option (TradeOption N)
  last_row symbol [] = none
  last_row symbol ((option_summary o, inserts) ∷ ms) = last_row symbol ms
  last_row symbol ((option_bucket o, inserts) ∷ ms) =
      later_row (if symbol_key.same o.symbol symbol then some (row_of o) else none)
        (last_row symbol ms)

  abbrev pub buckets : List (Message N × Bool) → ℕ
  buckets [] = 0
  buckets ((option_summary o, inserts) ∷ ms) = buckets ms
  buckets ((option_bucket o, inserts) ∷ ms) = suc (buckets ms)

  later_row-step :
      (b : Bool) (row : TradeOption N) (before last : Option (TradeOption N))
      → later_row (if b then some row else before) last
        ≡ later_row before (later_row (if b then some row else none) last)
  later_row-step true row before none = refl
  later_row-step true row before (some r) = refl
  later_row-step false row before none = refl
  later_row-step false row before (some r) = refl

  latest-capture_message :
      (o : OptionData N) (inserts : Bool) (s : Captures N) (symbol : String)
      → get symbol (capture_message (option_bucket o) inserts s).latest
        ≡ (if symbol_key.same o.symbol symbol then some (row_of o) else get symbol s.latest)
  unfolding capture_message execute_insert
  latest-capture_message o true s symbol = get-set o.symbol symbol (row_of o) s.latest
  latest-capture_message o false s symbol = get-set o.symbol symbol (row_of o) s.latest

  count-capture_message :
      (o : OptionData N) (inserts : Bool) (s : Captures N)
      → length (capture_message (option_bucket o) inserts s).inserted
          + (capture_message (option_bucket o) inserts s).stream_errors
        ≡ suc (length s.inserted + s.stream_errors)
  unfolding capture_message execute_insert
  count-capture_message o true s = omega arith
  count-capture_message o false s = omega arith

  latest-process_messages :
      (ms : List (Message N × Bool)) (s : Captures N) (symbol : String)
      → get symbol (process_messages ms s).latest
        ≡ later_row (get symbol s.latest) (last_row symbol ms)
  unfolding process_messages
  latest-process_messages [] s symbol = refl
  latest-process_messages ((option_summary o, inserts) ∷ ms) s symbol =
      latest-process_messages ms s symbol
  latest-process_messages ((option_bucket o, inserts) ∷ ms) s symbol =
      latest-process_messages ms (capture_message (option_bucket o) inserts s) symbol
      ∙ ap (λ x. later_row x (last_row symbol ms)) (latest-capture_message o inserts s symbol)
      ∙ later_row-step (symbol_key.same o.symbol symbol) (row_of o) (get symbol s.latest)
          (last_row symbol ms)

  count-process_messages :
      (ms : List (Message N × Bool)) (s : Captures N)
      → length (process_messages ms s).inserted + (process_messages ms s).stream_errors
        ≡ buckets ms + (length s.inserted + s.stream_errors)
  unfolding process_messages
  count-process_messages [] s = omega arith
  count-process_messages ((option_summary o, inserts) ∷ ms) s = count-process_messages ms s
  count-process_messages ((option_bucket o, inserts) ∷ ms) s =
      count-process_messages ms (capture_message (option_bucket o) inserts s)
      ∙ omega (arith, count-capture_message o inserts s)

  -- After any stream, whichever inserts fail, the row kept of a symbol is that of its last bucket, and
  -- the rows inserted and the errors of the stream are together as many as the buckets.
  pub process_messages-latest :
      (ms : List (Message N × Bool)) (symbol : String)
      → (get symbol (process_messages ms nothing_captured).latest ≡ last_row symbol ms)
        × (length (process_messages ms nothing_captured).inserted
              + (process_messages ms nothing_captured).stream_errors
            ≡ buckets ms)
  process_messages-latest ms symbol = (
    latest-process_messages ms nothing_captured symbol ∙ later_none (last_row symbol ms),
    count-process_messages ms nothing_captured ∙ omega arith,
  )
    where
      later_none : (o : Option (TradeOption N)) → later_row none o ≡ o
      later_none none = refl
      later_none (some row) = refl
