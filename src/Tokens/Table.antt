-- ===== src/Tokens/Table.antt =====
-- A table of tokens that is a list, the latest first: a `Repository` exists.
use volatility_services.Prelude.{
  ℕ, ◌≡◌, refl, sym, ap, ◌∙◌, String, Bool, true, false, not, ◌&&◌, Option, none, some, List, [],
  ◌∷◌, any, keep, length, if◌then◌else◌, Bool-cases, inl, inr, arith,
}
use volatility_services.Prelude.Keys.{symbol_key}
use volatility_services.Tokens.{TokenType, same_type, AuthToken, matches, Repository}
use volatility_services.Tokens.Checks.{matches_both, matches_own}
use volatility_services.Tokens.Generation.{some_pair}

abbrev pub find : TokenType → String → List AuthToken → Option AuthToken
find t k [] = none
find t k (e ∷ es) = if matches t k e then some e else find t k es

abbrev pub insert : AuthToken → List AuthToken → Option (ℕ × List AuthToken)
insert e s =
    if any (λ (x : AuthToken). symbol_key.same x.token e.token) s
    then none
    else some (length s, record e { id = some (length s) } ∷ s)

abbrev pub delete : AuthToken → List AuthToken → List AuthToken
delete e = keep (λ (x : AuthToken). not (matches e.type e.token x))

pub find-matches :
    (t : TokenType) (k : String) (s : List AuthToken) (e : AuthToken)
    → find t k s ≡ some e
    → matches t k e ≡ true
find-matches t k [] e h = absurd (ground arith)
find-matches t k (x ∷ xs) e h = elim (Bool-cases (matches t k x)) [
  | inl m ↦ let same : x ≡ e = ground arith in ap (matches t k) (sym same) ∙ m
  | inr m ↦ find-matches t k xs e (ground arith)
]

pub find-insert :
    (e : AuthToken) (s s' : List AuthToken) (id : ℕ)
    → insert e s ≡ some (id, s')
    → (t : TokenType) (k : String)
    → find t k s' ≡ (if matches t k e then some (record e { id = some id }) else find t k s)
find-insert e s s' id h t k =
    elim (Bool-cases (any (λ (x : AuthToken). symbol_key.same x.token e.token) s)) [
      | inl m ↦
          let gone : insert e s ≡ none =
            ap (λ b. if b then none else some (length s, record e { id = some (length s) } ∷ s))
              m in
          let both : none ≡ some (id, s') = sym gone ∙ h in absurd (ground (arith, both))
      | inr m ↦
          let (same, state) =
            some_pair (insert e s) (length s) id (record e { id = some (length s) } ∷ s) s'
              (ap (λ b. if b then none else some (length s, record e { id = some (length s) } ∷ s))
                m)
              h in
          ap (find t k) (sym state)
          ∙ ap (λ n. if matches t k e then some (record e { id = some n }) else find t k s) same
    ]

matches_same :
    (e x : AuthToken) (t : TokenType) (k : String)
    → matches e.type e.token x ≡ true
    → matches t k x ≡ matches t k e
matches_same e x t k h =
    let (same, same') = matches_both e.type x.type e.token x.token x h (matches_own x) in
    ap (λ u. same_type u t && symbol_key.same x.token k) (sym same)
    ∙ ap (λ l. same_type e.type t && symbol_key.same l k) (sym same')

matches_found :
    (e x : AuthToken) (t : TokenType) (k : String)
    → matches t k e ≡ true
    → matches t k x ≡ true
    → matches e.type e.token x ≡ true
matches_found e x t k h h' =
    let (same, same') = matches_both t e.type k e.token e h (matches_own e) in
    ap (λ u. matches u e.token x) (sym same) ∙ ap (λ l. matches t l x) (sym same') ∙ h'

removed_first :
    {A : Type 0} (a b : Bool) (x : A) (y : Option A)
    → a ≡ b
    → (if b then none else y) ≡ (if b then none else if a then some x else y)
removed_first a b x y h = ground arith

kept_first :
    {A : Type 0} (a b : Bool) (x : A) (y z : Option A)
    → (b ≡ true → a ≡ true → false ≡ true)
    → z ≡ (if b then none else y)
    → (if a then some x else z) ≡ (if b then none else if a then some x else y)
kept_first true true x y z h k = absurd (ground (arith, h refl refl))
kept_first true false x y z h k = refl
kept_first false true x y z h k = k
kept_first false false x y z h k = k

pub find-delete :
    (e : AuthToken) (s : List AuthToken) (t : TokenType) (k : String)
    → find t k (delete e s) ≡ (if matches t k e then none else find t k s)
find-delete e [] t k = ground arith
find-delete e (x ∷ xs) t k = elim (Bool-cases (matches e.type e.token x)) [
  | inl m ↦ rw m (
      find-delete e xs t k
      ∙ removed_first (matches t k x) (matches t k e) x (find t k xs) (matches_same e x t k m))
  | inr m ↦ rw m (
      kept_first (matches t k x) (matches t k e) x (find t k xs) (find t k (delete e xs))
        (λ a b. sym m ∙ matches_found e x t k a b) (find-delete e xs t k))
]

abbrev pub table : Repository (List AuthToken)
table = record {
  find_one_by = find;
  insert = insert;
  update = λ e s. e ∷ s;
  delete = delete;
  found = find-matches;
  inserted = find-insert;
  updated = λ e s t k. refl;
  deleted = find-delete;
}

abbrev pub secure : String → String
secure s = s
