-- ===== src/Ingest.antt =====
-- services/ingest.service.ts: the option summaries that a service has received, by expiry, with the
-- latest one of each symbol in the broker's cacher. services/ws.service.ts has the same cacheMessage,
-- fetchOptionSummaries and summaryWithDefaults. `N` is the type of prices and `R` the rest of a summary.
pub mod Latest
mod Tests
use volatility_services.Prelude.{
  ℕ, ◌≡◌, String, Bool, Option, none, some, List, [], ◌∷◌, ◌++◌, map, length, Result, ok, err, any,
  if◌then◌else◌,
}
use volatility_services.Prelude.Dict.{Dict, get, set}
use volatility_services.Prelude.Keys.{instant_key, symbol_key}

pub record Summary (N R : Type 0) : Type 0 where
  pub symbol : String
  pub timestamp : ℕ
  pub local_timestamp : ℕ
  pub expiration_date : ℕ
  pub best_ask_price : Option N
  pub best_bid_price : Option N
  pub underlying_price : Option N
  pub rest : R

-- `broker.cacher`, whose entries are replaced and not removed: moleculer's cacher without a time to
-- live. `S` is its state.
pub record Cacher (V S : Type 0) : Type 0 where
  pub get_entry : String → S → Option V
  pub set_entry : String → V → S → S
  pub get_set :
      (k j : String) (v : V) (s : S)
      → get_entry j (set_entry k v s) ≡ (if symbol_key.same k j then some v else get_entry j s)

pub record Ingest (N R S : Type 0) : Type 0 where
  pub expiry_map : Dict ℕ (List String)
  pub latest_message : Option (Summary N R)
  -- undefined where the cache is disabled
  pub cacher : Option S

pub data FetchError : Type 0 where
  cache_disabled : FetchError
  insufficient_data : ℕ → FetchError

abbrev pub empty : {N R S : Type 0} → Option S → Ingest N R S
empty s = record { expiry_map = []; latest_message = none; cacher = s }

-- `x ?? d`
abbrev pub or_default {ℓ} : {A : Type ℓ} → Option A → A → A
or_default none d = d
or_default (some a) d = a

-- `symbols.add(s)`: a JavaScript `Set` in the order of its first insertions.
unfoldable pub add : String → List String → List String
add s symbols = if any (symbol_key.same s) symbols then symbols else symbols ++ (s ∷ [])

unfoldable pub summary_with_defaults : {N R : Type 0} → Summary N R → N → N → N → Summary N R
summary_with_defaults o ask bid underlying = record o {
  best_ask_price = some (or_default o.best_ask_price ask);
  best_bid_price = some (or_default o.best_bid_price bid);
  underlying_price = some (or_default o.underlying_price underlying);
}

module _ {N R S : Type 0} (zero_price : N) (c : Cacher (Summary N R) S) where
  -- The summary with price 0 for a price that is undefined.
  abbrev pub cached : Summary N R → Summary N R
  cached o = summary_with_defaults o zero_price zero_price zero_price

  unfoldable pub cache_message : Summary N R → Ingest N R S → Ingest N R S
  unfolding add
  cache_message o i =
      let symbols : List String = or_default (get o.expiration_date i.expiry_map) [] in
      record i {
        expiry_map = set o.expiration_date (add o.symbol symbols) i.expiry_map;
        cacher = elim i.cacher [ none ↦ none | some s ↦ some (c.set_entry o.symbol (cached o) s) ];
      }

  -- The `for await` loop over the messages of a stream.
  unfoldable pub process : List (Summary N R) → Ingest N R S → Ingest N R S
  unfolding cache_message
  process [] i = i
  process (o ∷ os) i = process os (cache_message o (record i { latest_message = some o }))

  -- The symbols' entries in the cacher: `none` is the null that it answers for a missing one.
  unfoldable pub fetch_option_summaries :
      ℕ → Ingest N R S → Result FetchError (List (Option (Summary N R)))
  fetch_option_summaries expiry i = elim i.cacher [
    | none ↦ err cache_disabled
    | some s ↦ elim (get expiry i.expiry_map) [
      | none ↦ err (insufficient_data expiry)
      | some symbols ↦ ok (map (λ symbol. c.get_entry symbol s) symbols)
    ]
  ]

  -- The action `stats`, without its clock.
  unfoldable pub stats : Ingest N R S → ℕ × Option (Summary N R)
  stats i = (length i.expiry_map, i.latest_message)
