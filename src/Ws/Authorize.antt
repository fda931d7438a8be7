-- ===== src/Ws/Authorize.antt =====
-- Authorization in services/ws.service.ts: the action `authorize`, `handleAuthorize` for a socket, and
-- `handleAuthorize2` for the action mfiv. `tokens_check` is the call of tokens.check for a key of type
-- api-key; `query_key` the apiKey that `parseQueryString` reads.
mod Tests
use volatility_services.Prelude.{
  ℕ, zero, suc, ◌+◌, ◌≡◌, ◌≢◌, refl, sym, ap, ◌∙◌, String, Bool, true, false, Option, none, some,
  Result, ok, err, nat_beq, not, ◌&&◌, if◌then◌else◌, Bool-cases, inl, inr, arith,
}
use Prim.Native.Char.{code, Char}
use volatility_services.Prelude.Strings.{is_empty, starts_with, slice, append}
use volatility_services.Prelude.Keys.{symbol_key}
use volatility_services.Tokens.{
  AuthToken, Repository, GenerateParams, CheckParams, api_key, expiry_timestamp, is_expired,
  generate, check,
}
use volatility_services.Tokens.Checks.{is_valid}
use volatility_services.Tokens.Generation.{check-generate}

pub record HttpRequest : Type 0 where
  -- `headers.authorization`
  pub authorization : Option String
  pub query : String

pub data AuthError : Type 0 where
  no_authorization_method forbidden : AuthError

abbrev pub or_blank : Option String → String
or_blank none = ""
or_blank (some s) = s

module _ {S : Type 0} (query_key : String → Option String)
    (tokens_check : String → S → Bool × S) where
  -- The key of the header and, without a header, that of the query; "" where there is none.
  unfoldable pub api_key_of : HttpRequest → String
  unfolding starts_with slice
  api_key_of req =
      let header = or_blank req.authorization in
      if is_empty header
      then or_blank (query_key req.query)
      else if starts_with "Bearer " header
      then slice 7 header
      else ""

  unfoldable pub check_key : String → S → Result AuthError Unit × S
  check_key key s =
      if (tokens_check key s).0
      then (ok tt, (tokens_check key s).1)
      else (err forbidden, (tokens_check key s).1)

  -- The action `authorize`
  unfoldable pub authorize : HttpRequest → S → Result AuthError Unit × S
  unfolding api_key_of check_key
  authorize req s =
      if is_empty (api_key_of req)
      then (err no_authorization_method, s)
      else check_key (api_key_of req) s

  -- Its `catch` turns every error into the same one.
  unfoldable pub handle_authorize : HttpRequest → S → Result AuthError Unit × S
  unfolding authorize
  handle_authorize req s = elim (authorize req s).0 [
    | ok u ↦ (ok u, (authorize req s).1)
    | err e ↦ (err forbidden, (authorize req s).1)
  ]

  unfoldable pub handle_authorize2 : String → S → Result AuthError Unit × S
  unfolding check_key
  handle_authorize2 key s = check_key key s

-- The authorization of a socket with the tokens service behind it.
abbrev pub with_tokens : {S : Type 0} → (String → String) → Repository S → ℕ → String → S → Bool × S
with_tokens secure db now key s =
    check secure db (record { type = api_key; token = key; owner = none }) now s

abbrev pub succeeds : Result AuthError Unit → Bool
succeeds (ok u) = true
succeeds (err e) = false

abbrev pub bearer : String → HttpRequest
bearer key = record { authorization = some (append "Bearer " key); query = "" }

same_success :
    {S : Type 0} (r : Result AuthError Unit) (s : S)
    → succeeds
        (elim r as (λ _. Result AuthError Unit × S) [
          | ok u ↦ (ok u, s)
          | err e ↦ (err forbidden, s)
        ]).0
      ≡ succeeds r
same_success (ok u) s = refl
same_success (err e) s = refl

abbrev answer : {S : Type 0} → Bool × S → Result AuthError Unit × S
answer x = if x.0 then (ok tt, x.1) else (err forbidden, x.1)

abbrev choice : {S : Type 0} → Bool → S → Bool × S → Result AuthError Unit × S
choice b s x = if b then (err no_authorization_method, s) else answer x

checked : {S : Type 0} (x : Bool × S) → succeeds (answer x).0 ≡ x.0
checked (true, s) = refl
checked (false, s) = refl

module _ {S : Type 0} (query_key : String → Option String) (secure : String → String)
    (db : Repository S) where
  bearer-key :
      (now : ℕ) (key : String) → api_key_of query_key (with_tokens secure db now) (bearer key) ≡ key
  unfolding api_key_of starts_with slice append
  bearer-key now key = refl

  succeeds-handle_authorize :
      (now : ℕ) (req : HttpRequest) (s : S)
      → succeeds (handle_authorize query_key (with_tokens secure db now) req s).0
        ≡ succeeds (authorize query_key (with_tokens secure db now) req s).0
  unfolding handle_authorize
  succeeds-handle_authorize now req s =
      same_success (authorize query_key (with_tokens secure db now) req s).0
        (authorize query_key (with_tokens secure db now) req s).1

  succeeds-authorize :
      (now : ℕ) (req : HttpRequest) (s : S)
      → is_empty (api_key_of query_key (with_tokens secure db now) req) ≡ false
      → succeeds (authorize query_key (with_tokens secure db now) req s).0
        ≡ (with_tokens secure db now (api_key_of query_key (with_tokens secure db now) req) s).0
  unfolding authorize check_key
  succeeds-authorize now req s h =
      ap
        (λ b.
          succeeds
            (choice b s (
              with_tokens secure db now (api_key_of query_key (with_tokens secure db now) req)
                s)).0)
        h
      ∙ checked (with_tokens secure db now (api_key_of query_key (with_tokens secure db now) req) s)

  -- A request with the header "Bearer " and a token that was generated as an api-key is authorized at
  -- exactly the times that are not later than the token's expiry.
  pub authorize-generate :
      (p : GenerateParams) (now at : ℕ) (fresh : String) (s s' : S) (r : AuthToken)
      → p.type ≡ api_key
      → is_empty fresh ≡ false
      → generate secure db p now fresh s ≡ some (r, s')
      → (succeeds (authorize query_key (with_tokens secure db at) (bearer fresh) s').0
          ≡ not (is_expired (expiry_timestamp p.expire_in_num_days now) at))
        × (succeeds (handle_authorize query_key (with_tokens secure db at) (bearer fresh) s').0
            ≡ not (is_expired (expiry_timestamp p.expire_in_num_days now) at))
  authorize-generate p now at fresh s s' r api full made =
      let key = bearer-key at fresh in
      let (valid, _, _, expiry) =
        check-generate secure db p (record { type = api_key; token = fresh; owner = none }) now at
          fresh s s' r made (sym api) refl in
      let checked_key =
        succeeds-authorize at (bearer fresh) s' (ap is_empty key ∙ full)
        ∙ ap (λ k. (with_tokens secure db at k s').0) key
        ∙ valid
        ∙ ap (λ e. not (is_expired e at)) expiry in
      (checked_key, succeeds-handle_authorize at (bearer fresh) s' ∙ checked_key)
