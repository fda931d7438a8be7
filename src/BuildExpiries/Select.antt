-- ===== src/BuildExpiries/Select.antt =====
-- What the `reduce` selects from a sorted list: the last element up to the target and the first one
-- after it, with its position.
use volatility_services.Prelude.{
  ℕ, suc, ◌+◌, ◌≤◌, ◌<◌, ◌≡◌, refl, true, false, Option, none, some, List, [], ◌∷◌, All, ltb, leb,
  if◌then◌else◌, Option-cases, inl, inr, ◌⊎◌, ap, ◌∙◌, Bool-cases, ltb→lt, take, ◌&&◌, All-map,
  arith,
}
use volatility_services.Prelude.Int.{ℤ}
use volatility_services.BuildExpiries.{Vendor, Selection, select_step, select}
use volatility_services.BuildExpiries.Order.{Sorted, member}

abbrev better_near : ℕ → ℕ → Option ℕ → Option ℕ
better_near tp x none = if leb x tp then some x else none
better_near tp x (some w) = if leb x tp then (if ltb w x then some x else some w) else some w

module _ (v : Vendor) where
  abbrev pub diff_of : ℕ → Option ℕ → Option ℤ
  diff_of tp none = none
  diff_of tp (some x) = some (v.diff x tp)

  -- The differences kept are those of the expiries kept, which lie on their sides of the target.
  pub record IsLinked (tp : ℕ) (s : Selection) : Type 0 where
    pub near : s.near_diff ≡ diff_of tp s.near_expiry
    pub next : s.next_diff ≡ diff_of tp s.next_expiry

  near_step :
      (tp i x : ℕ) (s : Selection)
      → IsLinked tp s
      → (select_step v tp i x s).near_expiry ≡ better_near tp x s.near_expiry
  unfolding select_step
  near_step tp i x s h = elim (Option-cases s.near_expiry) [
    | inl e ↦ ground (arith, v.diffs x tp)
    | inr (w, e) ↦ ground (arith, v.diffs x tp, v.diffs w tp)
  ]

  IsLinked-step :
      (tp i x : ℕ) (s : Selection) → IsLinked tp s → IsLinked tp (select_step v tp i x s)
  unfolding select_step
  IsLinked-step tp i x s h = ground arith

  next_step_after :
      (tp i x : ℕ) (s : Selection)
      → s.next_expiry ≡ none
      → IsLinked tp s
      → tp < x
      → ((select_step v tp i x s).next_expiry ≡ some x)
        × ((select_step v tp i x s).next_idx ≡ some i)
  unfolding select_step
  next_step_after tp i x s e h l = ground (arith, v.diffs x tp)

  next_step_kept :
      (tp i x u : ℕ) (s : Selection)
      → s.next_expiry ≡ some u
      → IsLinked tp s
      → u ≤ x
      → ((select_step v tp i x s).next_expiry ≡ some u)
        × ((select_step v tp i x s).next_idx ≡ s.next_idx)
  unfolding select_step
  next_step_kept tp i x u s e h l = ground (arith, v.diffs x tp, v.diffs u tp)

  next_step_before :
      (tp i x : ℕ) (s : Selection)
      → IsLinked tp s
      → x ≤ tp
      → ((select_step v tp i x s).next_expiry ≡ s.next_expiry)
        × ((select_step v tp i x s).next_idx ≡ s.next_idx)
  unfolding select_step
  next_step_before tp i x s h l = ground (arith, v.diffs x tp)

abbrev pub near_all : ℕ → Option ℕ → List ℕ → Option ℕ
near_all tp acc [] = acc
near_all tp acc (x ∷ xs) = near_all tp (better_near tp x acc) xs

module _ (v : Vendor) where
  pub select-near :
      (tp i : ℕ) (l : List ℕ) (s : Selection)
      → IsLinked v tp s
      → (select v tp i l s).near_expiry ≡ near_all tp s.near_expiry l
  unfolding select
  select-near tp i [] s h = refl
  select-near tp i (x ∷ l) s h =
      rw (select-near tp (suc i) l (select_step v tp i x s) (IsLinked-step v tp i x s h))
        (ap (λ (o : Option ℕ). near_all tp o l) (near_step v tp i x s h))

abbrev pub IsUpTo : ℕ → Option ℕ → Type 0
IsUpTo w none = Unit
IsUpTo w (some u) = u ≤ w

-- The best near expiry of a list, from `acc` on: one that is found there is at most the target, and
-- no other element up to the target lies after it.
pub near_all-some :
    (tp : ℕ) (acc : Option ℕ) (l : List ℕ) (w : ℕ)
    → near_all tp acc l ≡ some w
    → ((acc ≡ some w) ⊎ ((member w l ≡ true) × (w ≤ tp)))
      × All (λ x. x ≤ tp → x ≤ w) l
      × IsUpTo w acc
near_all-some tp none [] w e = cc
near_all-some tp (some u) [] w e = ground arith
near_all-some tp none (x ∷ l) w e =
    ground (arith, near_all-some tp (some x) l w, near_all-some tp none l w)
near_all-some tp (some u) (x ∷ l) w e =
    ground (arith, near_all-some tp (some x) l w, near_all-some tp (some u) l w)

pub near_all-none :
    (tp : ℕ) (acc : Option ℕ) (l : List ℕ)
    → near_all tp acc l ≡ none
    → (acc ≡ none) × All (λ x. tp < x) l
near_all-none tp acc [] e = (e, tt)
near_all-none tp none (x ∷ l) e =
    ground (arith, near_all-none tp (some x) l, near_all-none tp none l)
near_all-none tp (some u) (x ∷ l) e =
    ground (arith, near_all-none tp (some x) l, near_all-none tp (some u) l)

-- The first element after the target, with its position counted from `i`.
abbrev pub first_after : ℕ → ℕ → List ℕ → Option (ℕ × ℕ)
first_after tp i [] = none
first_after tp i (x ∷ xs) = if ltb tp x then some (i, x) else first_after tp (suc i) xs

abbrev pub index_part : Option (ℕ × ℕ) → Option ℕ
index_part none = none
index_part (some (i, x)) = some i

abbrev pub value_part : Option (ℕ × ℕ) → Option ℕ
value_part none = none
value_part (some (i, x)) = some x

module _ (v : Vendor) where
  select-next_kept :
      (tp i u : ℕ) (l : List ℕ) (s : Selection)
      → s.next_expiry ≡ some u
      → IsLinked v tp s
      → All (λ x. u ≤ x) l
      → ((select v tp i l s).next_expiry ≡ some u) × ((select v tp i l s).next_idx ≡ s.next_idx)
  unfolding select
  select-next_kept tp i u [] s e h a = (e, refl)
  select-next_kept tp i u (x ∷ l) s e h a =
      let (same, index) = next_step_kept v tp i x u s e h a.0 in
      let (rest, index') =
        select-next_kept tp (suc i) u l (select_step v tp i x s) same (IsLinked-step v tp i x s h)
          a.1 in
      (rest, index' ∙ index)

  pub select-next :
      (tp i : ℕ) (l : List ℕ) (s : Selection)
      → s.next_expiry ≡ none
      → s.next_idx ≡ none
      → IsLinked v tp s
      → Sorted l
      → ((select v tp i l s).next_expiry ≡ value_part (first_after tp i l))
        × ((select v tp i l s).next_idx ≡ index_part (first_after tp i l))
  unfolding select
  select-next tp i [] s e f h a = (e, f)
  select-next tp i (x ∷ l) s e f h a = elim (Bool-cases (ltb tp x)) [
    | inl after ↦
        let (set, index) = next_step_after v tp i x s e h (ltb→lt tp x after) in
        let (rest, index') =
          select-next_kept tp (suc i) x l (select_step v tp i x s) set (IsLinked-step v tp i x s h)
            a.0 in
        rw after (rest, index' ∙ index)
    | inr before ↦
        let (same, index) = next_step_before v tp i x s h (ground arith) in
        rw before (
          select-next tp (suc i) l (select_step v tp i x s) (same ∙ e) (index ∙ f)
            (IsLinked-step v tp i x s h) a.1)
  ]

pub first_after-none : (tp i : ℕ) (l : List ℕ) → first_after tp i l ≡ none → All (λ x. x ≤ tp) l
first_after-none tp i [] e = tt
first_after-none tp i (x ∷ l) e = ground (arith, first_after-none tp (suc i) l)

member-below : (k x : ℕ) (l : List ℕ) → All (λ y. x ≤ y) l → k < x → member k l ≡ false
member-below k x [] h lt = refl
member-below k x (y ∷ l) h lt = ground (arith, member-below k x l h.1)

All-after : (tp w x : ℕ) (l : List ℕ) → w ≡ x → All (λ y. x ≤ y) l → All (λ y. tp < y → w ≤ y) l
All-after tp w x l e h = All-map (λ y. x ≤ y) l (λ y q r. omega arith) h

-- In a sorted list the first element after the target is a lower bound of all that lie after it,
-- and what stands before its position are the elements before it.
pub first_after-some :
    (tp i j w : ℕ) (l : List ℕ)
    → Sorted l
    → first_after tp i l ≡ some (j, w)
    → (tp < w)
      × (member w l ≡ true)
      × All (λ x. tp < x → w ≤ x) l
      × ((n : ℕ) × (j ≡ i + n) × ((k : ℕ) → member k (take n l) ≡ (ltb k w && member k l)))
first_after-some tp i j w [] a e = cc
first_after-some tp i j w (x ∷ l) a e = elim (Bool-cases (ltb tp x)) [
  | inl after ↦
      let found : ◌≡◌ {A = Option (ℕ × ℕ)} (some (i, x)) (some (j, w)) = rw after at e in
      let same : w ≡ x = ground arith in
      (
        ground arith,
        ground arith,
        (λ r. omega arith, All-after tp w x l same a.0),
        (0, ground arith, λ k. ground (arith, member-below k x l a.0)),
      )
  | inr before ↦
      let (later, there, rest, (n, shift, taken)) =
        first_after-some tp (suc i) j w l a.1 (rw before at e) in
      (
        later,
        ground arith,
        (λ r. ground arith, rest),
        (suc n, omega arith, λ k. ground (arith, taken k)),
      )
]
