-- ===== src/Instruments.antt =====
-- services/instrument_info.service.ts: the instruments of an asset, as tardis-dev lists them, and the
-- ids of those that a request names. ISO strings are the instants that they name.
mod Tests
use volatility_services.Prelude.{
  ℕ, ◌≡◌, ◌<◌, ◌≤◌, refl, ap, ◌∙◌, ◌⊎◌, inl, inr, String, Bool, true, false, ◌&&◌, ◌||◌, Option,
  none, some, List, [], ◌∷◌, map, keep, any, ltb, leb, nat_beq, if◌then◌else◌, Bool-cases, arith,
}
use volatility_services.Expiries.{Asset}

-- PartialInstrumentInfo, the fields that are read.
pub record PartialInstrumentInfo : Type 0 where
  pub id : String
  pub asset : Asset
  pub active : Bool
  pub available_since : ℕ
  pub available_to : Option ℕ
  pub expiry : Option ℕ

-- InstrumentInfo of tardis-dev, whose `baseCurrency` becomes the asset.
pub record InstrumentInfo : Type 0 where
  pub id : String
  pub base_currency : Asset
  pub active : Bool
  pub available_since : ℕ
  pub available_to : Option ℕ
  pub expiry : Option ℕ

pub record Infos : Type 0 where
  pub instrument_infos : List PartialInstrumentInfo
  pub last_updated_at : Option ℕ

pub record InstrumentInfoParams : Type 0 where
  pub timestamp : ℕ
  pub expiration_dates : List ℕ

abbrev pub to_partial_instrument_info : InstrumentInfo → PartialInstrumentInfo
to_partial_instrument_info info = record {
  id = info.id;
  asset = info.base_currency;
  active = info.active;
  available_since = info.available_since;
  available_to = info.available_to;
  expiry = info.expiry;
}

-- With what the data source answers, none where it throws.
unfoldable pub fetch_instruments : Option (List InstrumentInfo) → ℕ → Infos → Option Infos
fetch_instruments none now s = none
fetch_instruments (some infos) now s =
    some (record {
      instrument_infos = map to_partial_instrument_info infos;
      last_updated_at = some now;
    })

-- `since <= timestamp && to ? to > timestamp : true`
unfoldable pub is_available : ℕ → PartialInstrumentInfo → Bool
is_available timestamp item =
    if leb item.available_since timestamp
    then elim item.available_to [ none ↦ true | some to ↦ ltb timestamp to ]
    else true

-- `!!item.expiry && expirationDates.includes(item.expiry)`
abbrev pub expires_in : List ℕ → Option ℕ → Bool
expires_in dates none = false
expires_in dates (some t) = any (nat_beq t) dates

unfoldable pub fetch_available_instruments : InstrumentInfoParams → Infos → List String
unfolding is_available
fetch_available_instruments params s =
    map (λ (item : PartialInstrumentInfo). item.id)
      (keep (λ (item : PartialInstrumentInfo). expires_in params.expiration_dates item.expiry)
        (keep (is_available params.timestamp) s.instrument_infos))

abbrev pub counted : (PartialInstrumentInfo → Bool) → List PartialInstrumentInfo → List String
counted p items = map (λ (item : PartialInstrumentInfo). item.id) (keep p items)

keep-keep :
    (p q : PartialInstrumentInfo → Bool) (items : List PartialInstrumentInfo)
    → keep q (keep p items) ≡ keep (λ item. p item && q item) items
keep-keep p q [] = refl
keep-keep p q (x ∷ xs) = ground (arith, keep-keep p q xs)

-- Gone at the timestamp: available from before it, and until it or before.
abbrev pub is_gone : ℕ → PartialInstrumentInfo → Bool
is_gone timestamp item =
    leb item.available_since timestamp
    && elim item.available_to [ none ↦ false | some to ↦ leb to timestamp ]

keep-same :
    (p q : PartialInstrumentInfo → Bool) (items : List PartialInstrumentInfo)
    → ((item : PartialInstrumentInfo) → p item ≡ q item)
    → keep p items ≡ keep q items
keep-same p q [] h = refl
keep-same p q (x ∷ xs) h = ground (arith, h x, keep-same p q xs h)

abbrev pub flip : Bool → Bool
flip true = false
flip false = true

available_gone :
    (t : ℕ) (item : PartialInstrumentInfo) → is_available t item ≡ flip (is_gone t item)
unfolding is_available
available_gone t item = ground arith

-- After a refresh the ids that a request gets are, in the order of the data source, those of the
-- instruments with an expiry that it names, less those that were available from the timestamp or before
-- and no more after it.
pub fetch_available_instruments-fetch_instruments :
    (infos : List InstrumentInfo) (now : ℕ) (s s' : Infos) (params : InstrumentInfoParams)
    → fetch_instruments (some infos) now s ≡ some s'
    → fetch_available_instruments params s'
      ≡ counted
          (λ item.
            flip (is_gone params.timestamp item) && expires_in params.expiration_dates item.expiry)
          (map to_partial_instrument_info infos)
unfolding fetch_available_instruments fetch_instruments
fetch_available_instruments-fetch_instruments infos now s s' params made =
    let same : s'.instrument_infos ≡ map to_partial_instrument_info infos = ground arith in
    ap
      (λ items.
        counted (λ item. expires_in params.expiration_dates item.expiry)
          (keep (is_available params.timestamp) items))
      same
    ∙ ap (map (λ (item : PartialInstrumentInfo). item.id)) (
        keep-keep (is_available params.timestamp)
          (λ item. expires_in params.expiration_dates item.expiry)
          (map to_partial_instrument_info infos)
        ∙ keep-same
            (λ item.
              is_available params.timestamp item && expires_in params.expiration_dates item.expiry)
            (λ item.
              flip (is_gone params.timestamp item)
              && expires_in params.expiration_dates item.expiry)
            (map to_partial_instrument_info infos)
            (λ item.
              ap (λ b. b && expires_in params.expiration_dates item.expiry)
                (available_gone params.timestamp item)))
