-- ===== src/BuildExpiries/Correct.antt =====
-- `build_expiries` against what it is meant to select, on every input.
use volatility_services.Prelude.{
  ℕ, ◌+◌, ◌*◌, ◌≤◌, ◌<◌, ◌≡◌, ◌≢◌, refl, sym, ap, ◌∙◌, ◌⊎◌, inl, inr, String, true, none, some,
  List, [], ◌∷◌, ◌&&◌, keep, All, Result, ok, err, ltb, if◌then◌else◌, Option-cases, take, drop,
  arith,
}
use volatility_services.Prelude.Dict.{Dict, get, keys}
use volatility_services.Prelude.Keys.{instant_key}
use volatility_services.TimePeriod.{milliseconds_per_day}
use volatility_services.BuildExpiries.{
  Instrument, Vendor, Expiries, ExpiryError, no_near_symbols, no_next_symbols, Selection,
  nothing_selected, available, expires_at, nonempty, ids, group_at, sort, first, select, delete_all,
  future_options, with_near, build_expiries,
}
use volatility_services.BuildExpiries.Groups.{
  get-delete_all, get-future_options, map_ids-nonempty, has, All-expiry, has-later, nonempty_ids,
  Sorted-first, ids-group, All-between, cons_of,
}
use volatility_services.BuildExpiries.Order.{
  member, is_some, All-member, member-sort, sort-Sorted, member-keys,
}
use volatility_services.BuildExpiries.Select.{
  near_all, select-near, near_all-some, near_all-none, first_after, index_part, value_part,
  select-next, first_after-none, first_after-some,
}

-- The symbols of the instruments that are available and expire at an instant.
abbrev pub symbols_at : ℕ → ℕ → List Instrument → List String
symbols_at now k instruments = ids (keep (expires_at k) (keep (available now) instruments))

-- Every available instrument has an expiry with the property.
abbrev pub AllAvailable : ℕ → (ℕ → Type 0) → List Instrument → Type 0
AllAvailable now P = All (λ (o : Instrument). available now o ≡ true → P o.expiry)

pub record IsSelected (now target : ℕ) (instruments : List Instrument) (e : Expiries) : Type 0 where
  pub near_before : e.near_expiry ≤ target
  pub next_after : target < e.next_expiry
  pub near_symbols : e.near_symbols ≡ symbols_at now e.near_expiry instruments
  pub next_symbols : e.next_symbols ≡ symbols_at now e.next_expiry instruments
  pub near_exists : e.near_symbols ≢ []
  pub next_exists : e.next_symbols ≢ []
  pub between : AllAvailable now (λ x. (x ≤ e.near_expiry) ⊎ (e.next_expiry ≤ x)) instruments
  pub rollover :
      (r : ℕ) × (e.rollover_at ≡ some r)
      × (now < r)
      × (r ≤ e.near_expiry)
      × AllAvailable now (λ x. r ≤ x) instruments
  pub mapped :
      (k : ℕ)
      → get k e.expiry_map
        ≡ (if ltb k e.next_expiry then none else nonempty (symbols_at now k instruments))

abbrev selected : Dict ℕ (List Instrument) → List ℕ → ℕ → ℕ → ℕ → Expiries
selected d active near next n = record {
  expiry_list = drop (n + 1) active;
  expiry_map = future_options (delete_all (take n active) d);
  near_expiry = near;
  next_expiry = next;
  near_symbols = ids (group_at near d);
  next_symbols = ids (group_at next d);
  rollover_at = first active;
}

module _ (v : Vendor) (d : Dict ℕ (List Instrument)) (active : List ℕ) (s : Selection) where
  no_next :
      (near : ℕ) (x : String) (rest : List String)
      → ids (group_at near d) ≡ x ∷ rest
      → s.next_expiry ≡ none
      → with_near v d active s (some near) ≡ err no_next_symbols
  unfolding with_near
  no_next near x rest e f = ground arith

  both :
      (near next n : ℕ) (x y : String) (rest more : List String)
      → ids (group_at near d) ≡ x ∷ rest
      → ids (group_at next d) ≡ y ∷ more
      → s.next_expiry ≡ some next
      → s.next_idx ≡ some n
      → with_near v d active s (some near) ≡ ok (selected d active near next n)
  unfolding with_near
  both near next n x y rest more e e' f g = ground arith

-- The three ends of the selection around a target.
abbrev pub Outcome : ℕ → ℕ → List Instrument → Result ExpiryError Expiries → Type 0
Outcome now target instruments (err no_near_symbols) =
    AllAvailable now (λ x. target < x) instruments
Outcome now target instruments (err no_next_symbols) =
    AllAvailable now (λ x. x ≤ target) instruments
Outcome now target instruments (ok e) = IsSelected now target instruments e

module _ (v : Vendor) (now target : ℕ) (instruments : List Instrument) where
  abbrev groups : Dict ℕ (List Instrument)
  groups = v.group_by_expiry (keep (available now) instruments)

  abbrev active : List ℕ
  active = sort (keys groups)

  member-active : (k : ℕ) → member k active ≡ has (available now) k instruments
  member-active k =
      member-sort k (keys groups)
      ∙ member-keys k groups
      ∙ ap is_some (v.groups k (keep (available now) instruments))

  from_active : (P : ℕ → Type 0) → All P active → AllAvailable now P instruments
  from_active P h =
      All-expiry (available now) P instruments
        (λ k m. All-member P k active h (member-active k ∙ m))

  group-symbols : (k : ℕ) → ids (group_at k groups) ≡ symbols_at now k instruments
  group-symbols k = ids-group k groups _ (v.groups k (keep (available now) instruments))

  active_symbols : (k : ℕ) → member k active ≡ true → symbols_at now k instruments ≢ []
  active_symbols k m = nonempty_ids _ (sym (member-active k) ∙ m)

  active_later : (k : ℕ) → member k active ≡ true → now < k
  active_later k m = has-later now k instruments (sym (member-active k) ∙ m)

  get-mapped :
      (next : ℕ) (cut : List ℕ) (k : ℕ)
      → member k cut ≡ (ltb k next && member k active)
      → get k (future_options (delete_all cut groups))
        ≡ (if ltb k next then none else nonempty (symbols_at now k instruments))
  get-mapped next cut k e =
      let available_now = keep (available now) instruments in
      let xs = keep (expires_at k) available_now in
      rw (get-future_options, get-delete_all, e, member-active k, v.groups k available_now)
        (ground (arith, map_ids-nonempty xs))

  abbrev chosen : Selection
  chosen = select v target 0 active nothing_selected

  chosen-near : chosen.near_expiry ≡ near_all target none active
  chosen-near = select-near v target 0 active nothing_selected (record { near = refl; next = refl })

  chosen-next :
      (chosen.next_expiry ≡ value_part (first_after target 0 active))
      × (chosen.next_idx ≡ index_part (first_after target 0 active))
  chosen-next =
      select-next v target 0 active nothing_selected refl refl (record { near = refl; next = refl })
        (sort-Sorted (keys groups))

  with_near-none :
      chosen.near_expiry ≡ none
      → with_near v groups active chosen chosen.near_expiry ≡ err no_near_symbols
  with_near-none e = ap (with_near v groups active chosen) e ∙ (unfold with_near in refl)

  with_near-no_next :
      (near : ℕ)
      → chosen.near_expiry ≡ some near
      → chosen.next_expiry ≡ none
      → member near active ≡ true
      → with_near v groups active chosen chosen.near_expiry ≡ err no_next_symbols
  with_near-no_next near e f m =
      let (x, rest, listed) = cons_of (symbols_at now near instruments) (active_symbols near m) in
      ap (with_near v groups active chosen) e
      ∙ no_next v groups active chosen near x rest (group-symbols near ∙ listed) f

  with_near-both :
      (near next n : ℕ)
      → chosen.near_expiry ≡ some near
      → chosen.next_expiry ≡ some next
      → chosen.next_idx ≡ some n
      → member near active ≡ true
      → member next active ≡ true
      → with_near v groups active chosen chosen.near_expiry
        ≡ ok (selected groups active near next n)
  with_near-both near next n e f g m k =
      let (x, rest, listed) = cons_of (symbols_at now near instruments) (active_symbols near m) in
      let (y, more, listed') = cons_of (symbols_at now next instruments) (active_symbols next k) in
      ap (with_near v groups active chosen) e
      ∙ both v groups active chosen near next n x y rest more (group-symbols near ∙ listed)
          (group-symbols next ∙ listed') f g

  selected-IsSelected :
      (near next n : ℕ)
      → near_all target none active ≡ some near
      → first_after target 0 active ≡ some (n, next)
      → IsSelected now target instruments (selected groups active near next n)
        × (member near active ≡ true)
        × (member next active ≡ true)
  selected-IsSelected near next n e f =
      let (found, up_to, _) = near_all-some target none active near e in
      let near_member : member near active ≡ true = ground arith in
      let (later, next_member, from, (m, at, taken)) =
        first_after-some target 0 n next active (sort-Sorted (keys groups)) f in
      let (r, head, there, least) =
        Sorted-first near active (sort-Sorted (keys groups)) near_member in
      let cut : (k : ℕ) → member k (take n active) ≡ (ltb k next && member k active) =
        λ k. let same : n ≡ m = omega arith in rw same (taken k) in
      (
        record {
          near_before = ground arith;
          next_after = later;
          near_symbols = group-symbols near;
          next_symbols = group-symbols next;
          near_exists = rw (group-symbols near) (active_symbols near near_member);
          next_exists = rw (group-symbols next) (active_symbols next next_member);
          between =
              from_active (λ x. (x ≤ near) ⊎ (next ≤ x))
                (All-between target near next active up_to from);
          rollover = (
            r,
            head,
            active_later r there,
            All-member (λ x. r ≤ x) near active least near_member,
            from_active (λ x. r ≤ x) least,
          );
          mapped = λ k. get-mapped next (take n active) k (cut k);
        },
        near_member,
        next_member,
      )

  with_near-Outcome :
      Outcome now target instruments (with_near v groups active chosen chosen.near_expiry)
  with_near-Outcome = elim (Option-cases (near_all target none active)) [
    | inl e ↦
        rw (with_near-none (chosen-near ∙ e))
          (from_active (λ x. target < x) (near_all-none target none active e).1)
    | inr (near, e) ↦ elim (Option-cases (first_after target 0 active)) [
      | inl f ↦
          rw
            (with_near-no_next near (chosen-near ∙ e) (chosen-next.0 ∙ ap value_part f)
              (ground (arith, near_all-some target none active near e)))
            (from_active (λ x. x ≤ target) (first_after-none target 0 active f))
      | inr ((n, next), f) ↦
          let (good, here, there) = selected-IsSelected near next n e f in
          rw
            (with_near-both near next n (chosen-near ∙ e) (chosen-next.0 ∙ ap value_part f)
              (chosen-next.1 ∙ ap index_part f) here there)
            good
    ]
  ]

-- On every list of instruments `build_expiries` either throws that there is no near expiry, and then
-- every available instrument expires after the target, now + the time period; or throws that there is
-- no next expiry, and then every available one expires at the target or before; or returns expiries
-- that are selected for the target: near is at most it and next after it, no available instrument
-- expires between them, their symbols are those of the available instruments that expire then and are
-- not empty, the rollover is the earliest available expiry and still to come, and the map holds the
-- available symbols of every expiry from next on and nothing else.
pub build_expiries-Outcome :
    (v : Vendor) (now period : ℕ) (instruments : List Instrument)
    → Outcome now
        (now + period * milliseconds_per_day)
        instruments
        (build_expiries v now period instruments)
unfolding build_expiries
build_expiries-Outcome v now period instruments =
    rw (← v.adds now period) (with_near-Outcome v now (v.add_days now period) instruments)
