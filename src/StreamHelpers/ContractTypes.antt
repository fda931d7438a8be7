-- ===== src/StreamHelpers/ContractTypes.antt =====
-- `parseContractType` of src/lib/utils/helpers.ts, as the inverse of writing the types with commas.
use volatility_services.Prelude.{
  ℕ, ◌≡◌, refl, sym, ap, ◌∙◌, nat_beq, inl, inr, some, List, [], ◌∷◌, Bool-cases,
}
use volatility_services.Prelude.Text.{Text, split, join, cons_head}
use volatility_services.Prelude.Keys.{nat_beq_iff}
use volatility_services.StreamHelpers.{parse_contract_type}

abbrev IsFilled : List Text → Type 0
IsFilled [] = ⊥
IsFilled (w ∷ ws) = Unit

cons_head-IsFilled : (x : ℕ) (ws : List Text) → IsFilled (cons_head x ws)
cons_head-IsFilled x [] = tt
cons_head-IsFilled x (w ∷ ws) = tt

split-IsFilled : (c : ℕ) (t : Text) → IsFilled (split c t)
unfolding split
split-IsFilled c [] = tt
split-IsFilled c (x ∷ t) = elim (Bool-cases (nat_beq x c)) [
  | inl h ↦ rw h tt
  | inr h ↦ rw h (cons_head-IsFilled x (split c t))
]

join-cons_head : (c x : ℕ) (ws : List Text) → IsFilled ws → join c (cons_head x ws) ≡ x ∷ join c ws
unfolding join
join-cons_head c x [] h = elim h [ ]
join-cons_head c x (w ∷ []) h = refl
join-cons_head c x (w ∷ v ∷ ws) h = refl

join-empty : (c : ℕ) (ws : List Text) → IsFilled ws → join c ([] ∷ ws) ≡ c ∷ join c ws
unfolding join
join-empty c [] h = elim h [ ]
join-empty c (w ∷ ws) h = refl

join-split : (c : ℕ) (t : Text) → join c (split c t) ≡ t
unfolding split join
join-split c [] = refl
join-split c (x ∷ t) = elim (Bool-cases (nat_beq x c)) [
  | inl h ↦ rw h (
      join-empty c (split c t) (split-IsFilled c t)
      ∙ ap (λ s. c ∷ s) (join-split c t)
      ∙ ap (λ y. y ∷ t) (sym ((nat_beq_iff x c).0 h)))
  | inr h ↦
      rw h (join-cons_head c x (split c t) (split-IsFilled c t) ∙ ap (λ s. x ∷ s) (join-split c t))
]

-- The contract types of a text that is not empty, with commas between them, are that text again.
join-parse_contract_type :
    (c : ℕ) (t : Text) (default_contract_type : List Text)
    → join b',' (parse_contract_type (some (c ∷ t)) default_contract_type) ≡ c ∷ t
unfolding parse_contract_type
join-parse_contract_type c t default_contract_type = join-split b',' (c ∷ t)
