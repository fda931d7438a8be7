-- ===== src/Tokens/Checks.antt =====
-- What a check of services/tokens.service.ts answers, and that it changes no later check.
use volatility_services.Prelude.{
  ℕ, ◌≡◌, refl, sym, ap, ◌∙◌, inl, inr, String, Bool, true, false, not, ◌&&◌, Option, none, some,
  if◌then◌else◌, Bool-cases, Option-cases, arith,
}
use volatility_services.Prelude.Keys.{symbol_key}
use volatility_services.Tokens.{
  TokenType, verification, passwordless, password_reset, api_key, same_type, AuthToken, matches,
  Repository, CheckParams, is_expired, owner_matches, check,
}

-- The answer of a check, by the entity that it finds.
abbrev pub is_valid : Option String → ℕ → Option AuthToken → Bool
is_valid owner now none = false
is_valid owner now (some e) = owner_matches owner e && not (is_expired e.expiry now)

pub type_refl : (t : TokenType) → same_type t t ≡ true
type_refl verification = refl
type_refl passwordless = refl
type_refl password_reset = refl
type_refl api_key = refl

pub matches_own : (e : AuthToken) → matches e.type e.token e ≡ true
matches_own e = ground (arith, type_refl e.type, symbol_key.same_iff e.token e.token)

pub type_same : (a b : TokenType) → same_type a b ≡ true → a ≡ b
type_same a b h = ground arith

-- A type and a token name one entity.
pub matches_both :
    (t u : TokenType) (k l : String) (e : AuthToken)
    → matches t k e ≡ true
    → matches u l e ≡ true
    → (t ≡ u) × (k ≡ l)
matches_both t u k l e h h' =
    let a : e.type ≡ t = type_same e.type t (ground arith) in
    let b : e.type ≡ u = type_same e.type u (ground arith) in
    let x : e.token ≡ k = (symbol_key.same_iff e.token k).0 (ground arith) in
    let y : e.token ≡ l = (symbol_key.same_iff e.token l).0 (ground arith) in (sym a ∙ b, sym x ∙ y)

valid_used :
    (owner : Option String) (now at : ℕ) (e : AuthToken)
    → is_valid owner at (some (record e { last_used_at = some now })) ≡ is_valid owner at (some e)
valid_used none now at e = refl
valid_used (some o) now at e = refl

module _ {S : Type 0} (secure : String → String) (db : Repository S) where
  check-none :
      (p : CheckParams) (now : ℕ) (s : S)
      → db.find_one_by p.type (secure p.token) s ≡ none
      → check secure db p now s ≡ (false, s)
  unfolding check
  check-none p now s h = rw (check, h) refl

  check-some :
      (p : CheckParams) (now : ℕ) (s : S) (e : AuthToken)
      → db.find_one_by p.type (secure p.token) s ≡ some e
      → check secure db p now s ≡ (
          if owner_matches p.owner e
          then if is_expired e.expiry now
            then (false, s)
            else (true, db.update (record e { last_used_at = some now }) s)
          else (false, s))
  unfolding check
  check-some p now s e h = rw (check, h) refl

  abbrev outcome : Bool → Bool → S → S → Bool × S
  outcome a b s s' = if a then if b then (false, s) else (true, s') else (false, s)

  answer_of : (a b : Bool) (s s' : S) → (outcome a b s s').0 ≡ a && not b
  answer_of true true s s' = refl
  answer_of true false s s' = refl
  answer_of false b s s' = refl

  kept_by : (f : S → Bool) (a b : Bool) (s s' : S) → f s' ≡ f s → f (outcome a b s s').1 ≡ f s
  kept_by f true true s s' h = refl
  kept_by f true false s s' h = h
  kept_by f false b s s' h = refl

  pub check-answer :
      (p : CheckParams) (now : ℕ) (s : S)
      → (check secure db p now s).0
        ≡ is_valid p.owner now (db.find_one_by p.type (secure p.token) s)
  check-answer p now s = elim (Option-cases (db.find_one_by p.type (secure p.token) s)) [
    | inl h ↦ ap (λ x. x.0) (check-none p now s h) ∙ ap (is_valid p.owner now) (sym h)
    | inr (e, h) ↦
        ap (λ x. x.0) (check-some p now s e h)
        ∙ answer_of (owner_matches p.owner e) (is_expired e.expiry now) s
            (db.update (record e { last_used_at = some now }) s)
        ∙ ap (is_valid p.owner now) (sym h)
  ]

  updated-valid :
      (t type : TokenType) (k token : String) (owner : Option String) (now at : ℕ) (s : S)
      (e : AuthToken)
      → db.find_one_by t k s ≡ some e
      → is_valid owner at
          (db.find_one_by type token (db.update (record e { last_used_at = some now }) s))
        ≡ is_valid owner at (db.find_one_by type token s)
  updated-valid t type k token owner now at s e h = elim (Bool-cases (matches type token e)) [
    | inl m ↦
        let (same, same') = matches_both type t token k e m (db.found t k s e h) in
        let here : db.find_one_by type token s ≡ some e =
          ap (λ x. db.find_one_by x token s) same ∙ ap (λ x. db.find_one_by t x s) same' ∙ h in
        rw (db.updated (record e { last_used_at = some now }) s type token, m, here)
          (valid_used owner now at e)
    | inr m ↦ rw (db.updated (record e { last_used_at = some now }) s type token, m) refl
  ]

  -- The entity that a check finds differs at most in its last use.
  check-find :
      (p : CheckParams) (now : ℕ) (s : S) (type : TokenType) (token : String)
      (owner : Option String) (at : ℕ)
      → is_valid owner at (db.find_one_by type token (check secure db p now s).1)
        ≡ is_valid owner at (db.find_one_by type token s)
  check-find p now s type token owner at =
      let valid : S → Bool = λ x. is_valid owner at (db.find_one_by type token x) in
      elim (Option-cases (db.find_one_by p.type (secure p.token) s)) [
        | inl h ↦ ap (λ x. valid x.1) (check-none p now s h)
        | inr (e, h) ↦
            ap (λ x. valid x.1) (check-some p now s e h)
            ∙ kept_by valid (owner_matches p.owner e) (is_expired e.expiry now) s
                (db.update (record e { last_used_at = some now }) s)
                (updated-valid p.type type (secure p.token) token owner now at s e h)
      ]

  -- A check changes the answer of no later check, of the same token or of another, at any time.
  pub check-check :
      (p q : CheckParams) (now at : ℕ) (s : S)
      → (check secure db q at (check secure db p now s).1).0 ≡ (check secure db q at s).0
  check-check p q now at s =
      check-answer q at (check secure db p now s).1
      ∙ check-find p now s q.type (secure q.token) q.owner at
      ∙ sym (check-answer q at s)
