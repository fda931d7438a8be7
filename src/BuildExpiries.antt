-- ===== src/BuildExpiries.antt =====
-- src/lib/utils/expiries.ts: the near and next expiries around a target, and the symbols that
-- expire then. ISO strings are the instants that they name: the strings compared here all have the
-- form of `toISOString`, whose order is that of the instants.
-- The libraries enter as a `Vendor`: the grouping of transducist and the UTC arithmetic of dayjs.
-- The instruments that tardis-dev returns are an argument.
pub mod Order
pub mod Select
pub mod Groups
pub mod Correct
pub mod Grouping
mod Tests
use volatility_services.Prelude.{
  ℕ, zero, suc, ◌+◌, ◌-◌, ◌*◌, ◌≡◌, String, Bool, true, false, ◌&&◌, Option, none, some, List, [],
  ◌∷◌, map, length, take, drop, keep, Result, ok, err, ltb, leb, nat_beq, if◌then◌else◌,
}
use volatility_services.Prelude.Int.{ℤ, pos, sub_ℕ, ltb_ℤ, leb_ℤ}
use volatility_services.Prelude.Dict.{Dict, get, delete, keys}
use volatility_services.Prelude.Keys.{instant_key}
use volatility_services.TimePeriod.{milliseconds_per_day}

-- InstrumentInfoWithListing, its fields that are used.
pub record Instrument : Type 0 where
  pub id : String
  pub listing : ℕ
  pub expiry : ℕ

-- A key is in the map when its group is not empty.
abbrev pub nonempty {ℓ} : {A : Type ℓ} → List A → Option (List A)
nonempty [] = none
nonempty (x ∷ xs) = some (x ∷ xs)

abbrev pub expires_at : ℕ → Instrument → Bool
expires_at k o = nat_beq o.expiry k

pub record Vendor : Type 0 where
  -- `toMapGroupBy(o => o.expiry)`: each key has the elements with that key, in their order.
  pub group_by_expiry : List Instrument → Dict ℕ (List Instrument)
  pub groups :
      (k : ℕ) (xs : List Instrument)
      → get k (group_by_expiry xs) ≡ nonempty (keep (expires_at k) xs)
  -- `dayjs.utc(t).add(n, "days")`
  pub add_days : ℕ → ℕ → ℕ
  pub adds : (t n : ℕ) → add_days t n ≡ t + n * milliseconds_per_day
  -- `dayjs.utc(a).diff(b)`, in milliseconds
  pub diff : ℕ → ℕ → ℤ
  pub diffs : (a b : ℕ) → diff a b ≡ sub_ℕ a b

pub record Expiries : Type 0 where
  pub expiry_list : List ℕ
  pub expiry_map : Dict ℕ (List String)
  pub near_expiry : ℕ
  pub next_expiry : ℕ
  pub near_symbols : List String
  pub next_symbols : List String
  pub rollover_at : Option ℕ

pub data ExpiryError : Type 0 where
  no_near_symbols no_next_symbols : ExpiryError

-- The accumulator of the `reduce` with the two indices that it sets. An index of -1, an expiry of ""
-- and an infinite difference are `none`.
pub record Selection : Type 0 where
  pub near_idx : Option ℕ
  pub next_idx : Option ℕ
  pub near_diff : Option ℤ
  pub next_diff : Option ℤ
  pub near_expiry : Option ℕ
  pub next_expiry : Option ℕ

abbrev pub nothing_selected : Selection
nothing_selected = record {
  near_idx = none;
  next_idx = none;
  near_diff = none;
  next_diff = none;
  near_expiry = none;
  next_expiry = none;
}

-- `delta > nearDiff`, from -Infinity on
abbrev pub above : ℤ → Option ℤ → Bool
above delta none = true
above delta (some best) = ltb_ℤ best delta

-- `delta < nextDiff`, from Infinity on
abbrev pub below : ℤ → Option ℤ → Bool
below delta none = true
below delta (some best) = ltb_ℤ delta best

abbrev pub available : ℕ → Instrument → Bool
available now o = leb o.listing now && ltb now o.expiry

insert_sorted : ℕ → List ℕ → List ℕ
insert_sorted x [] = x ∷ []
insert_sorted x (y ∷ ys) = if leb x y then x ∷ y ∷ ys else y ∷ insert_sorted x ys

-- `Array.prototype.sort`
unfoldable pub sort : List ℕ → List ℕ
unfolding insert_sorted
sort [] = []
sort (x ∷ xs) = insert_sorted x (sort xs)

abbrev pub ids : List Instrument → List String
ids = map (λ (o : Instrument). o.id)

-- `map.get(key) || []`
abbrev pub group_at : ℕ → Dict ℕ (List Instrument) → List Instrument
group_at k d = elim (get k d) [ none ↦ [] | some xs ↦ xs ]

-- `slice(0, nextIdx)` and `slice(nextIdx + 1)`, where -1 counts from the end.
abbrev pub slice_to : Option ℕ → List ℕ → List ℕ
slice_to none xs = take (length xs - 1) xs
slice_to (some i) xs = take i xs

abbrev pub slice_after : Option ℕ → List ℕ → List ℕ
slice_after none xs = xs
slice_after (some i) xs = drop (i + 1) xs

unfoldable pub delete_all : List ℕ → Dict ℕ (List Instrument) → Dict ℕ (List Instrument)
delete_all [] d = d
delete_all (k ∷ ks) d = delete_all ks (delete k d)

-- The loop that fills `futureOptions`.
unfoldable pub future_options : Dict ℕ (List Instrument) → Dict ℕ (List String)
future_options [] = []
future_options ((k, info) ∷ d) = (k, ids info) ∷ future_options d

abbrev pub first : List ℕ → Option ℕ
first [] = none
first (x ∷ xs) = some x

module _ (v : Vendor) where
  -- One round of the `reduce`: a difference that is not positive may be the near expiry, and a
  -- positive one the next.
  unfoldable pub select_step : ℕ → ℕ → ℕ → Selection → Selection
  select_step tp index curr s =
      let delta = v.diff curr tp in
      if leb_ℤ delta (pos 0) && above delta s.near_diff
      then record s { near_idx = some index; near_diff = some delta; near_expiry = some curr }
      else if ltb_ℤ (pos 0) delta && below delta s.next_diff
      then record s { next_idx = some index; next_diff = some delta; next_expiry = some curr }
      else s

  unfoldable pub select : ℕ → ℕ → List ℕ → Selection → Selection
  select tp index [] s = s
  select tp index (curr ∷ rest) s = select tp (suc index) rest (select_step tp index curr s)

  abbrev with_next :
      Dict ℕ (List Instrument) → List ℕ → Selection → ℕ → Option ℕ → Result ExpiryError Expiries
  with_next expiry_map active s near none = err no_next_symbols
  with_next expiry_map active s near (some next) = elim (ids (group_at next expiry_map)) [
    | [] ↦ err no_next_symbols
    | id ∷ rest ↦ ok (record {
      expiry_list = slice_after s.next_idx active;
      expiry_map = future_options (delete_all (slice_to s.next_idx active) expiry_map);
      near_expiry = near;
      next_expiry = next;
      near_symbols = ids (group_at near expiry_map);
      next_symbols = id ∷ rest;
      rollover_at = first active;
    })
  ]

  -- The symbols of an expiry that was not found are none, which throws.
  unfoldable pub with_near :
      Dict ℕ (List Instrument) → List ℕ → Selection → Option ℕ → Result ExpiryError Expiries
  with_near expiry_map active s none = err no_near_symbols
  with_near expiry_map active s (some near) = elim (ids (group_at near expiry_map)) [
    | [] ↦ err no_near_symbols
    | id ∷ rest ↦ with_next expiry_map active s near s.next_expiry
  ]

  unfoldable pub build_expiries : ℕ → ℕ → List Instrument → Result ExpiryError Expiries
  build_expiries now time_period instruments =
      let expiry_map = v.group_by_expiry (keep (available now) instruments) in
      let active = sort (keys expiry_map) in
      let s = select (v.add_days now time_period) 0 active nothing_selected in
      with_near expiry_map active s s.near_expiry
