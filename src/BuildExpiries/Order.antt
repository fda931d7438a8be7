-- ===== src/BuildExpiries/Order.antt =====
-- The sorted list of the expiries, and which keys it holds.
use volatility_services.Prelude.{
  ℕ, ◌≤◌, ◌≡◌, refl, Bool, true, false, ◌||◌, Option, none, some, List, [], ◌∷◌, All, All-map,
  nat_beq, subst, inl, inr, Bool-cases, arith,
}
use volatility_services.Prelude.Dict.{Dict, get, keys}
use volatility_services.Prelude.Keys.{instant_key, nat_beq_iff}
use volatility_services.BuildExpiries.{insert_sorted, sort}

abbrev pub member : ℕ → List ℕ → Bool
member k [] = false
member k (x ∷ xs) = nat_beq x k || member k xs

abbrev pub is_some {ℓ} : {A : Type ℓ} → Option A → Bool
is_some none = false
is_some (some a) = true

-- Every element is at most those after it.
abbrev pub Sorted : List ℕ → Type 0
Sorted [] = Unit
Sorted (x ∷ xs) = All (λ y. x ≤ y) xs × Sorted xs

pub All-member : (P : ℕ → Type 0) (k : ℕ) (xs : List ℕ) → All P xs → member k xs ≡ true → P k
All-member P k [] h m = cc
All-member P k (x ∷ xs) h m = elim (Bool-cases (nat_beq x k)) [
  | inl e ↦ subst P ((nat_beq_iff x k).0 e) h.0
  | inr e ↦ All-member P k xs h.1 (rw e at m)
]

member-insert_sorted :
    (k x : ℕ) (xs : List ℕ) → member k (insert_sorted x xs) ≡ (nat_beq x k || member k xs)
unfolding insert_sorted
member-insert_sorted k x [] = refl
member-insert_sorted k x (y ∷ ys) = ground (arith, member-insert_sorted k x ys)

pub member-sort : (k : ℕ) (xs : List ℕ) → member k (sort xs) ≡ member k xs
unfolding sort
member-sort k [] = refl
member-sort k (x ∷ xs) = rw (member-insert_sorted k x (sort xs), member-sort k xs)

All-insert_sorted :
    (b x : ℕ) (xs : List ℕ) → b ≤ x → All (λ y. b ≤ y) xs → All (λ y. b ≤ y) (insert_sorted x xs)
unfolding insert_sorted
All-insert_sorted b x [] l h = (l, tt)
All-insert_sorted b x (y ∷ ys) l h = ground (arith, All-insert_sorted b x ys l h.1)

All-le_trans : (x y : ℕ) (ys : List ℕ) → x ≤ y → All (λ z. y ≤ z) ys → All (λ z. x ≤ z) ys
All-le_trans x y ys l h = All-map (λ z. y ≤ z) ys (λ z q. omega arith) h

insert_sorted-Sorted : (x : ℕ) (xs : List ℕ) → Sorted xs → Sorted (insert_sorted x xs)
unfolding insert_sorted
insert_sorted-Sorted x [] h = (tt, tt)
insert_sorted-Sorted x (y ∷ ys) h =
    ground (arith, insert_sorted-Sorted x ys h.1, All-insert_sorted y x ys, All-le_trans x y ys)

pub sort-Sorted : (xs : List ℕ) → Sorted (sort xs)
unfolding sort
sort-Sorted [] = tt
sort-Sorted (x ∷ xs) = insert_sorted-Sorted x (sort xs) (sort-Sorted xs)

pub member-keys : {V : Type 0} (k : ℕ) (d : Dict ℕ V) → member k (keys d) ≡ is_some (get k d)
member-keys k [] = refl
member-keys k ((j, v) ∷ d) = ground (arith, member-keys k d)
