-- ===== src/Ws/Estimates.antt =====
-- The replay of services/ws.service.ts that estimates an index at each option bucket (`process`), from
-- the option summaries kept as in services/ingest.service.ts. What is sent to the socket is a list.
mod Tests
use volatility_services.Prelude.{
  ℕ, sym, ap, String, Option, none, some, List, [], ◌∷◌, ◌++◌, map, Result, ok, err, ◌||◌, arith,
}
use volatility_services.Expiries.{MfivExpiry}
use volatility_services.Ingest.{
  Summary, Cacher, Ingest, FetchError, cache_message, fetch_option_summaries, cached,
}
use volatility_services.Ingest.Latest.{cached_later, last_of}

pub record Bucket (N : Type 0) : Type 0 where
  pub timestamp : ℕ
  pub underlying_price : N

pub data Message (N R : Type 0) : Type 0 where
  option_summary : Summary N R → Message N R
  option_bucket : Bucket N → Message N R

pub record Params (N R : Type 0) : Type 0 where
  pub at : ℕ
  pub near_date : ℕ
  pub next_date : ℕ
  -- as the cacher answers them
  pub options : List (Option (Summary N R))
  pub underlying_price : N

-- What was sent, what was thrown, and the state at the end.
pub record Replay (N R S I : Type 0) : Type 0 where
  pub sent : List I
  pub error : Option FetchError
  pub ingest : Ingest N R S

module _ {N R S I : Type 0} (zero_price : N) (c : Cacher (Summary N R) S)
    (compute : Params N R → Option I) where
  abbrev pub send : Option I → Replay N R S I → Replay N R S I
  send none r = r
  send (some index) r = record r { sent = index ∷ r.sent }

  abbrev pub bucket_params :
      MfivExpiry → Bucket N → List (Option (Summary N R)) → List (Option (Summary N R)) → Params N R
  bucket_params expiry b near next = record {
    at = b.timestamp;
    near_date = expiry.near_expiration;
    next_date = expiry.next_expiration;
    options = near ++ next;
    underlying_price = b.underlying_price;
  }

  abbrev pub thrown : FetchError → Ingest N R S → Replay N R S I
  thrown e i = record { sent = []; error = some e; ingest = i }

  abbrev pub ended : Ingest N R S → Replay N R S I
  ended i = record { sent = []; error = none; ingest = i }

  -- A bucket between what was cached and the replay's rest.
  unfoldable pub at_bucket : MfivExpiry → Bucket N → Ingest N R S → Replay N R S I → Replay N R S I
  at_bucket expiry b i rest =
      elim (fetch_option_summaries zero_price c expiry.near_expiration i) as (λ _. Replay N R S I) [
        | err e ↦ thrown e i
        | ok near ↦
            elim (fetch_option_summaries zero_price c expiry.next_expiration i)
              as (λ _. Replay N R S I) [
                | err e ↦ thrown e i
                | ok next ↦ send (compute (bucket_params expiry b near next)) rest
              ]
      ]

  -- The loop over the messages, for the first expiry of the list, if it has one.
  unfoldable pub process_replay :
      Option MfivExpiry → List (Message N R) → Ingest N R S → Replay N R S I
  unfolding at_bucket
  process_replay expiry [] i = ended i
  process_replay expiry (option_summary o ∷ ms) i =
      process_replay expiry ms (cache_message zero_price c o (record i { latest_message = some o }))
  process_replay none (option_bucket b ∷ ms) i = ended i
  process_replay (some expiry) (option_bucket b ∷ ms) i =
      at_bucket expiry b i (process_replay (some expiry) ms i)

  -- The entries of symbols after the summaries: the last summary of each, with price 0 for what is
  -- undefined.
  abbrev pub entries_of : List (Summary N R) → S → List String → List (Option (Summary N R))
  entries_of os st = map (λ s. cached_later zero_price c (last_of s os) (c.get_entry s st))
