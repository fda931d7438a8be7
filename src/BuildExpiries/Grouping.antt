-- ===== src/BuildExpiries/Grouping.antt =====
-- Concrete libraries for src/lib/utils/expiries.ts, which the tests run on: a `Vendor` exists.
use volatility_services.Prelude.{
  ℕ, ◌+◌, ◌*◌, ◌≡◌, refl, Option, none, some, List, [], ◌∷◌, keep, nat_beq, if◌then◌else◌, arith,
}
use volatility_services.Prelude.Int.{sub_ℕ}
use volatility_services.Prelude.Dict.{Dict, get}
use volatility_services.Prelude.Keys.{instant_key}
use volatility_services.TimePeriod.{milliseconds_per_day}
use volatility_services.BuildExpiries.{Instrument, Vendor, nonempty, expires_at}

abbrev add_to_group : Instrument → Dict ℕ (List Instrument) → Dict ℕ (List Instrument)
add_to_group o [] = (o.expiry, o ∷ []) ∷ []
add_to_group o ((k, xs) ∷ d) =
    let rest = add_to_group o d in if nat_beq k o.expiry then (k, o ∷ xs) ∷ d else (k, xs) ∷ rest

abbrev grouped : List Instrument → Dict ℕ (List Instrument)
grouped [] = []
grouped (o ∷ os) = add_to_group o (grouped os)

abbrev prepend : Instrument → Option (List Instrument) → Option (List Instrument)
prepend o none = some (o ∷ [])
prepend o (some xs) = some (o ∷ xs)

get-add_to_group :
    (k : ℕ) (o : Instrument) (d : Dict ℕ (List Instrument))
    → get k (add_to_group o d) ≡ (if expires_at k o then prepend o (get k d) else get k d)
get-add_to_group k o [] = ground arith
get-add_to_group k o ((j, xs) ∷ d) = ground (arith, get-add_to_group k o d)

prepend-nonempty :
    (o : Instrument) (xs : List Instrument) → prepend o (nonempty xs) ≡ nonempty (o ∷ xs)
prepend-nonempty o [] = refl
prepend-nonempty o (x ∷ xs) = refl

pub get-grouped :
    (k : ℕ) (xs : List Instrument) → get k (grouped xs) ≡ nonempty (keep (expires_at k) xs)
get-grouped k [] = refl
get-grouped k (o ∷ os) =
    rw (get-add_to_group k o (grouped os), get-grouped k os)
      (ground (arith, prepend-nonempty o (keep (expires_at k) os)))

abbrev pub vendor : Vendor
vendor = record {
  group_by_expiry = grouped;
  groups = get-grouped;
  add_days = λ t n. t + n * milliseconds_per_day;
  adds = λ t n. refl;
  diff = sub_ℕ;
  diffs = λ a b. refl;
}

abbrev pub day : ℕ → ℕ
day n = n * milliseconds_per_day
