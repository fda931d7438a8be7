-- ===== src/Tokens/Removal.antt =====
-- What a check answers after a removal (services/tokens.service.ts).
use volatility_services.Prelude.{
  ℕ, ◌≡◌, refl, sym, ap, ◌∙◌, inl, inr, String, Bool, true, false, ◌&&◌, arith, none, some,
  if◌then◌else◌, Bool-cases, Option-cases,
}
use volatility_services.Prelude.Keys.{symbol_key}
use volatility_services.Tokens.{
  TokenType, AuthToken, same_type, matches, Repository, CheckParams, check, remove,
}
use volatility_services.Tokens.Checks.{is_valid, check-answer, matches_both}

module _ {S : Type 0} (secure : String → String) (db : Repository S) where
  remove-none :
      (t : TokenType) (k : String) (s : S)
      → db.find_one_by t (secure k) s ≡ none
      → remove secure db t k s ≡ s
  unfolding remove
  remove-none t k s h = rw (remove, h) refl

  remove-some :
      (t : TokenType) (k : String) (s : S) (e : AuthToken)
      → db.find_one_by t (secure k) s ≡ some e
      → remove secure db t k s ≡ db.delete e s
  unfolding remove
  remove-some t k s e h = rw (remove, h) refl

  find-removed :
      (t : TokenType) (k : String) (s : S)
      → db.find_one_by t (secure k) (remove secure db t k s) ≡ none
  find-removed t k s = elim (Option-cases (db.find_one_by t (secure k) s)) [
    | inl h ↦ ap (db.find_one_by t (secure k)) (remove-none t k s h) ∙ h
    | inr (e, h) ↦
        ap (db.find_one_by t (secure k)) (remove-some t k s e h)
        ∙ db.deleted e s t (secure k)
        ∙ ap (λ b. if b then none else db.find_one_by t (secure k) s) (db.found t (secure k) s e h)
  ]

  -- The removal leaves the entity of any other type or hash.
  find-other :
      (t u : TokenType) (k : String) (token : String) (s : S)
      → ¬ ((u ≡ t) × (token ≡ secure k))
      → db.find_one_by u token (remove secure db t k s) ≡ db.find_one_by u token s
  find-other t u k token s other = elim (Option-cases (db.find_one_by t (secure k) s)) [
    | inl h ↦ ap (db.find_one_by u token) (remove-none t k s h)
    | inr (e, h) ↦
        ap (db.find_one_by u token) (remove-some t k s e h)
        ∙ db.deleted e s u token
        ∙ elim (Bool-cases (matches u token e)) [
          | inl m ↦
              absurd (other (matches_both u t token (secure k) e m (db.found t (secure k) s e h)))
          | inr m ↦ ap (λ b. if b then none else db.find_one_by u token s) m
        ]
  ]

  abbrev pub is_removed : TokenType → String → CheckParams → Bool
  is_removed t k q = same_type q.type t && symbol_key.same (secure q.token) (secure k)

  removed_both :
      (t : TokenType) (k : String) (q : CheckParams)
      → is_removed t k q ≡ true
      → (q.type ≡ t) × (secure q.token ≡ secure k)
  removed_both t k q h =
      (ground arith, ground (arith, symbol_key.same_iff (secure q.token) (secure k)))

  both_removed :
      (t : TokenType) (k : String) (q : CheckParams)
      → is_removed t k q ≡ false
      → ¬ ((q.type ≡ t) × (secure q.token ≡ secure k))
  both_removed t k q h (a, b) =
      absurd (ground (arith, (symbol_key.same_iff (secure q.token) (secure k)).1 b))

  check-removed :
      (t : TokenType) (k : String) (s : S) (q : CheckParams) (at : ℕ)
      → q.type ≡ t
      → secure q.token ≡ secure k
      → (check secure db q at (remove secure db t k s)).0 ≡ false
  check-removed t k s q at same same' =
      check-answer secure db q at (remove secure db t k s)
      ∙ ap (λ u. is_valid q.owner at (db.find_one_by u (secure q.token) (remove secure db t k s)))
          same
      ∙ ap (λ l. is_valid q.owner at (db.find_one_by t l (remove secure db t k s))) same'
      ∙ ap (is_valid q.owner at) (find-removed t k s)

  -- After a removal a check of the token's type and hash fails, and every other check answers as it did
  -- before.
  pub check-remove :
      (t : TokenType) (k : String) (s : S) (q : CheckParams) (at : ℕ)
      → (check secure db q at (remove secure db t k s)).0
        ≡ (if is_removed t k q then false else (check secure db q at s).0)
  check-remove t k s q at = elim (Bool-cases (is_removed t k q)) [
    | inl h ↦ let (type, hash) = removed_both t k q h in rw h (check-removed t k s q at type hash)
    | inr h ↦ rw h (
        check-answer secure db q at (remove secure db t k s)
        ∙ ap (is_valid q.owner at) (find-other t q.type k (secure q.token) s (both_removed t k q h))
        ∙ sym (check-answer secure db q at s))
  ]
