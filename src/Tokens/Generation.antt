-- ===== src/Tokens/Generation.antt =====
-- What a check answers after a token is generated (services/tokens.service.ts).
use volatility_services.Prelude.{
  ℕ, ◌≡◌, refl, sym, ap, ◌∙◌, inl, inr, String, Option, none, some, if◌then◌else◌, Option-cases,
  arith,
}
use volatility_services.Prelude.Keys.{symbol_key}
use volatility_services.Tokens.{
  AuthToken, Repository, GenerateParams, CheckParams, expiry_timestamp, create, generate, check,
}
use volatility_services.Tokens.Checks.{is_valid, check-answer, matches_own}

valid_stored :
    (owner : Option String) (at id : ℕ) (e : AuthToken) (fresh : String)
    → is_valid owner at (some (record e { id = some id }))
      ≡ is_valid owner at (some (record e { id = some id; token = fresh }))
valid_stored none at id e fresh = refl
valid_stored (some o) at id e fresh = refl

pub some_pair :
    {A B : Type 0} (o : Option (A × B)) (a c : A) (b d : B)
    → o ≡ some (a, b)
    → o ≡ some (c, d)
    → (a ≡ c) × (b ≡ d)
some_pair o a c b d h k = (ground arith, ground arith)

module _ {S : Type 0} (secure : String → String) (db : Repository S) where
  generate-none :
      (p : GenerateParams) (now : ℕ) (fresh : String) (s : S)
      → db.insert (create secure db p now fresh) s ≡ none
      → generate secure db p now fresh s ≡ none
  unfolding generate
  generate-none p now fresh s h = rw (generate, h) refl

  generate-some :
      (p : GenerateParams) (now id : ℕ) (fresh : String) (s s' : S)
      → db.insert (create secure db p now fresh) s ≡ some (id, s')
      → generate secure db p now fresh s
        ≡ some (record (create secure db p now fresh) { id = some id; token = fresh }, s')
  unfolding generate
  generate-some p now id fresh s s' h = rw (generate, h) refl

  check_created :
      (p : GenerateParams) (q : CheckParams) (now at id : ℕ) (fresh : String) (s s' : S)
      → db.insert (create secure db p now fresh) s ≡ some (id, s')
      → q.type ≡ p.type
      → q.token ≡ fresh
      → (check secure db q at s').0
        ≡ is_valid q.owner at
            (some (record (create secure db p now fresh) { id = some id; token = fresh }))
  unfolding create
  check_created p q now at id fresh s s' h t k =
      let e = create secure db p now fresh in
      check-answer secure db q at s'
      ∙ ap (λ u. is_valid q.owner at (db.find_one_by u (secure q.token) s')) t
      ∙ ap (λ u. is_valid q.owner at (db.find_one_by p.type (secure u) s')) k
      ∙ ap (is_valid q.owner at) (db.inserted e s s' id h p.type (secure fresh))
      ∙ ap
          (λ b. is_valid q.owner at (
            if b then some (record e { id = some id }) else db.find_one_by p.type (secure fresh) s))
          (matches_own e)
      ∙ valid_stored q.owner at id e fresh

  pub check-generate :
      (p : GenerateParams) (q : CheckParams) (now at : ℕ) (fresh : String) (s s' : S)
      (r : AuthToken)
      → generate secure db p now fresh s ≡ some (r, s')
      → q.type ≡ p.type
      → q.token ≡ fresh
      → ((check secure db q at s').0 ≡ is_valid q.owner at (some r))
        × (r.token ≡ fresh)
        × (r.owner ≡ p.owner)
        × (r.expiry ≡ expiry_timestamp p.expire_in_num_days now)
  unfolding create
  check-generate p q now at fresh s s' r made t k =
      elim (Option-cases (db.insert (create secure db p now fresh) s)) [
        | inl h ↦
            let gone = sym (generate-none p now fresh s h) ∙ made in absurd (ground (arith, gone))
        | inr ((id, s1), h) ↦
            let e = create secure db p now fresh in
            let (same, state) =
              some_pair (generate secure db p now fresh s)
                (record e { id = some id; token = fresh }) r s1 s'
                (generate-some p now id fresh s s1 h) made in
            (
              ap (λ x. (check secure db q at x).0) (sym state)
                  ∙ check_created p q now at id fresh s s1 h t k
                  ∙ ap (λ x. is_valid q.owner at (some x)) same,
              ap (λ (x : AuthToken). x.token) (sym same),
              ap (λ (x : AuthToken). x.owner) (sym same),
              ap (λ (x : AuthToken). x.expiry) (sym same),
            )
      ]
