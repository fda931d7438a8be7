-- ===== src/Ingest/Latest.antt =====
-- What the service answers after any stream of messages (services/ingest.service.ts).
use volatility_services.Prelude.{
  ℕ, ◌≡◌, String, Bool, true, false, ◌&&◌, Option, none, some, List, [], ◌∷◌, any, nat_beq,
  if◌then◌else◌,
}
use volatility_services.Prelude.Dict.{get}
use volatility_services.Prelude.Keys.{instant_key, symbol_key}
use volatility_services.Ingest.{Summary, Cacher, Ingest, or_default, cached}

abbrev pub has : String → List String → Bool
has s = any (symbol_key.same s)

-- No symbol is listed twice.
abbrev pub Distinct : List String → Type 0
Distinct [] = Unit
Distinct (s ∷ ss) = (has s ss ≡ false) × Distinct ss

abbrev is_known : Option (List String) → Bool
is_known none = false
is_known (some xs) = true

module _ {N R : Type 0} where
  abbrev pub has_expiry : ℕ → List (Summary N R) → Bool
  has_expiry k = any (λ (o : Summary N R). nat_beq o.expiration_date k)

  abbrev pub has_symbol : ℕ → String → List (Summary N R) → Bool
  has_symbol k s =
      any (λ (o : Summary N R). nat_beq o.expiration_date k && symbol_key.same s o.symbol)

  abbrev later : Option (Summary N R) → Option (Summary N R) → Option (Summary N R)
  later first none = first
  later first (some o) = some o

  -- The last of the messages with the symbol.
  abbrev pub last_of : String → List (Summary N R) → Option (Summary N R)
  last_of s [] = none
  last_of s (o ∷ os) = later (if symbol_key.same s o.symbol then some o else none) (last_of s os)

module _ {N R S : Type 0} where
  -- The symbols that the service knows of an expiry.
  abbrev known : ℕ → Ingest N R S → List String
  known k i = or_default (get k i.expiry_map) []

  module _ (zero_price : N) (c : Cacher (Summary N R) S) where
    -- Every expiry's symbols are distinct.
    abbrev AllDistinct : Ingest N R S → Type 0
    AllDistinct i = (k : ℕ) → Distinct (known k i)

    -- The cacher's entry after the messages.
    abbrev entry : String → Option S → Option (Summary N R)
    entry s none = none
    entry s (some st) = c.get_entry s st

    -- The message with its defaults, and what there was before where there is none.
    abbrev pub cached_later : Option (Summary N R) → Option (Summary N R) → Option (Summary N R)
    cached_later none old = old
    cached_later (some o) old = some (cached zero_price c o)
