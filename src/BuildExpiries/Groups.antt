-- ===== src/BuildExpiries/Groups.antt =====
-- The groups of instruments by expiry (src/lib/utils/expiries.ts): what is found in them, and what is
-- left after the deletions.
use volatility_services.Prelude.{
  ℕ, ◌≤◌, ◌<◌, ◌≡◌, ◌≢◌, refl, ◌⊎◌, String, Bool, true, Option, none, some, List, [], ◌∷◌, keep,
  All, if◌then◌else◌, arith,
}
use volatility_services.Prelude.Dict.{Dict, get, delete, get-delete}
use volatility_services.Prelude.Keys.{instant_key}
use volatility_services.BuildExpiries.{
  Instrument, available, expires_at, nonempty, ids, group_at, first, delete_all, future_options,
}
use volatility_services.BuildExpiries.Order.{member, is_some, Sorted}

pub get-delete_all :
    (k : ℕ) (ks : List ℕ) (d : Dict ℕ (List Instrument))
    → get k (delete_all ks d) ≡ (if member k ks then none else get k d)
unfolding delete_all
get-delete_all k [] d = refl
get-delete_all k (j ∷ ks) d =
    rw (get-delete_all k ks (delete j d)) (ground (arith, get-delete j k d))

abbrev pub map_ids : Option (List Instrument) → Option (List String)
map_ids none = none
map_ids (some xs) = some (ids xs)

pub get-future_options :
    (k : ℕ) (d : Dict ℕ (List Instrument)) → get k (future_options d) ≡ map_ids (get k d)
unfolding future_options
get-future_options k [] = refl
get-future_options k ((j, xs) ∷ d) = ground (arith, get-future_options k d)

pub map_ids-nonempty : (xs : List Instrument) → map_ids (nonempty xs) ≡ nonempty (ids xs)
map_ids-nonempty [] = refl
map_ids-nonempty (x ∷ xs) = refl

abbrev pub has : (Instrument → Bool) → ℕ → List Instrument → Bool
has p k xs = is_some (nonempty (keep (expires_at k) (keep p xs)))

pub has-cons :
    (p : Instrument → Bool) (k : ℕ) (x : Instrument) (xs : List Instrument)
    → has p k xs ≡ true
    → has p k (x ∷ xs) ≡ true
has-cons p k x xs h = ground arith

pub has-head :
    (p : Instrument → Bool) (x : Instrument) (xs : List Instrument)
    → p x ≡ true
    → has p x.expiry (x ∷ xs) ≡ true
has-head p x xs h = ground arith

-- A property of the expiries that are found is one of the instruments.
pub All-expiry :
    (p : Instrument → Bool) (Q : ℕ → Type 0) (xs : List Instrument)
    → ((k : ℕ) → has p k xs ≡ true → Q k)
    → All (λ (o : Instrument). p o ≡ true → Q o.expiry) xs
All-expiry p Q [] h = tt
All-expiry p Q (x ∷ xs) h =
    (λ q. h x.expiry (has-head p x xs q), All-expiry p Q xs (λ k m. h k (has-cons p k x xs m)))

-- An expiry that is found lies ahead.
pub has-later : (now k : ℕ) (xs : List Instrument) → has (available now) k xs ≡ true → now < k
has-later now k [] h = cc
has-later now k (x ∷ xs) h = ground (arith, has-later now k xs)

pub nonempty_ids : (xs : List Instrument) → is_some (nonempty xs) ≡ true → ids xs ≢ []
nonempty_ids [] h e = cc
nonempty_ids (x ∷ xs) h e = cc

pub Sorted-first :
    (k : ℕ) (l : List ℕ)
    → Sorted l
    → member k l ≡ true
    → (r : ℕ) × (first l ≡ some r) × (member r l ≡ true) × All (λ x. r ≤ x) l
Sorted-first k [] h m = cc
Sorted-first k (x ∷ l) h m = (x, refl, ground arith, (omega arith, h.0))

pub ids-group :
    (k : ℕ) (d : Dict ℕ (List Instrument)) (xs : List Instrument)
    → get k d ≡ nonempty xs
    → ids (group_at k d) ≡ ids xs
ids-group k d [] e = rw (e, group_at)
ids-group k d (x ∷ xs) e = rw (e, group_at)

-- Up to the target an element is at most `near`, and after it at least `next`.
pub All-between :
    (target near next : ℕ) (l : List ℕ)
    → All (λ x. x ≤ target → x ≤ near) l
    → All (λ x. target < x → next ≤ x) l
    → All (λ x. (x ≤ near) ⊎ (next ≤ x)) l
All-between target near next [] h k = tt
All-between target near next (x ∷ l) h k =
    (grind (arith, h.0, k.0), All-between target near next l h.1 k.1)

pub cons_of : (xs : List String) → xs ≢ [] → (x : String) × (rest : List String) × (xs ≡ x ∷ rest)
cons_of [] h = absurd (h refl)
cons_of (x ∷ xs) h = (x, xs, refl)
