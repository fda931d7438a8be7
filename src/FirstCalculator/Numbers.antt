-- ===== src/FirstCalculator/Numbers.antt =====
-- The numbers of JavaScript as src/lib/vix_calculator.ts uses them, an abstract type with its operations,
-- and the parts of an option's symbol. NaN is the number that is not `<=` itself.
use volatility_services.Prelude.{
  ℕ, zero, suc, ◌≡◌, refl, sym, ap, ◌∙◌, inl, inr, Bool, true, false, not, ◌&&◌, Option, none, some,
  List, [], ◌∷◌, ◌++◌, nat_beq, Bool-cases,
}
use volatility_services.Prelude.Int.{ℤ}
use volatility_services.Prelude.Text.{Text, split, cons_head}

pub record Double (N : Type 0) : Type 0 where
  pub nan : N
  pub infinity : N
  pub of_ℕ : ℕ → N
  pub of_ℤ : ℤ → N
  -- `Number(text)`
  pub of_text : Text → N
  pub add : N → N → N
  pub sub : N → N → N
  pub mul : N → N → N
  pub div : N → N → N
  -- `x ** y`
  pub pow : N → N → N
  pub abs : N → N
  pub sqrt : N → N
  -- `Math.E`
  pub e : N
  pub lt : N → N → Bool
  pub le : N → N → Bool
  pub is_nan : N → Bool

-- What is relied on: the order of IEEE 754, total away from NaN.
pub record IsOrdered {N : Type 0} (d : Double N) : Type 0 where
  pub nan-le : (x : N) → d.is_nan x ≡ not (d.le x x)
  pub le_numbers : (x y : N) → d.le x y ≡ true → (d.le x x ≡ true) × (d.le y y ≡ true)
  pub le_trans : (x y z : N) → d.le x y ≡ true → d.le y z ≡ true → d.le x z ≡ true
  pub lt-not_le : (x y : N) → d.le x x ≡ true → d.le y y ≡ true → d.lt x y ≡ not (d.le y x)
  pub lt_le : (x y : N) → d.lt x y ≡ true → d.le x y ≡ true
  pub nought_number : d.le (d.of_ℕ 0) (d.of_ℕ 0) ≡ true
  pub infinity_number : d.le d.infinity d.infinity ≡ true
  -- `x - y > 0` exactly where `y < x`
  pub lt-sub : (x y : N) → d.lt (d.of_ℕ 0) (d.sub x y) ≡ d.lt y x

-- `parts[n]`, undefined out of range
abbrev pub get_elem? {ℓ} : {A : Type ℓ} → List A → ℕ → Option A
get_elem? [] n = none
get_elem? (x ∷ xs) zero = some x
get_elem? (x ∷ xs) (suc n) = get_elem? xs n

-- `symbol.split("-")[n]`
abbrev pub part : Text → ℕ → Option Text
part s n = get_elem? (split b'-' s) n

module _ {N : Type 0} (d : Double N) where
  open d use {nan, of_ℕ, of_text, lt, le, is_nan}

  -- `Number(x)`, where x may be undefined
  abbrev pub number_of : Option Text → N
  number_of none = nan
  number_of (some s) = of_text s

  -- `Number(symbol.split("-")[2])`
  abbrev pub strike_of : Text → N
  strike_of s = number_of (part s 2)

  -- `x === y`
  abbrev pub equal : N → N → Bool
  equal x y = le x y && le y x

  -- A number that a test takes for true.
  abbrev pub truthy : N → Bool
  truthy x = not (is_nan x) && not (equal x (of_ℕ 0))

-- `x ?? y`
abbrev pub or_else {ℓ} : {A : Type ℓ} → Option A → A → A
or_else none y = y
or_else (some x) y = x

get_elem?-cons_head :
    (x n : ℕ) (ws : List Text) → get_elem? (cons_head x ws) (suc n) ≡ get_elem? ws (suc n)
get_elem?-cons_head x n [] = refl
get_elem?-cons_head x n (w ∷ ws) = refl

head-cons_head :
    (x : ℕ) (ws : List Text) → get_elem? (cons_head x ws) 0 ≡ some (x ∷ or_else (get_elem? ws 0) [])
head-cons_head x [] = refl
head-cons_head x (w ∷ ws) = refl

split-dash : (x : ℕ) (s : Text) → nat_beq x b'-' ≡ true → split b'-' (x ∷ s) ≡ [] ∷ split b'-' s
unfolding split
split-dash x s h = rw h refl

split-other :
    (x : ℕ) (s : Text) → nat_beq x b'-' ≡ false → split b'-' (x ∷ s) ≡ cons_head x (split b'-' s)
unfolding split
split-other x s h = rw h refl

-- What is written behind a part that is not the last leaves the part as it is.
abbrev Keeps : Text → Text → Type 0
Keeps s t = (n : ℕ) (w : Text) → part s (suc n) ≡ some w → part (s ++ t) n ≡ part s n

Keeps-dash : (x : ℕ) (s t : Text) → nat_beq x b'-' ≡ true → Keeps s t → Keeps (x ∷ s) t
Keeps-dash x s t dash keeps zero w h = rw (split-dash x (s ++ t) dash, split-dash x s dash) refl
Keeps-dash x s t dash keeps (suc n) w h =
    rw (split-dash x (s ++ t) dash, split-dash x s dash)
      (keeps n w (ap (λ ws. get_elem? ws (suc (suc n))) (sym (split-dash x s dash)) ∙ h))

part-other :
    (x : ℕ) (s : Text) (n : ℕ) → nat_beq x b'-' ≡ false → part (x ∷ s) (suc n) ≡ part s (suc n)
part-other x s n other =
    ap (λ ws. get_elem? ws (suc n)) (split-other x s other) ∙ get_elem?-cons_head x n (split b'-' s)

head-other :
    (x : ℕ) (s : Text) → nat_beq x b'-' ≡ false → part (x ∷ s) 0 ≡ some (x ∷ or_else (part s 0) [])
head-other x s other =
    ap (λ ws. get_elem? ws 0) (split-other x s other) ∙ head-cons_head x (split b'-' s)

Keeps-other : (x : ℕ) (s t : Text) → nat_beq x b'-' ≡ false → Keeps s t → Keeps (x ∷ s) t
Keeps-other x s t other keeps zero w h =
    head-other x (s ++ t) other
    ∙ ap (λ o. some (x ∷ or_else o [])) (keeps 0 w (sym (part-other x s 0 other) ∙ h))
    ∙ sym (head-other x s other)
Keeps-other x s t other keeps (suc n) w h =
    part-other x (s ++ t) n other
    ∙ keeps (suc n) w (sym (part-other x s (suc n) other) ∙ h)
    ∙ sym (part-other x s n other)

Keeps-nil : (t : Text) → Keeps [] t
unfolding split
Keeps-nil t n w h = cc

pub part-append : (s t : Text) → Keeps s t
part-append [] t = Keeps-nil t
part-append (x ∷ s) t = elim (Bool-cases (nat_beq x b'-')) [
  | inl dash ↦ Keeps-dash x s t dash (part-append s t)
  | inr other ↦ Keeps-other x s t other (part-append s t)
]
