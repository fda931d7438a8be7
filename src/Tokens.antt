-- ===== src/Tokens.antt =====
-- services/tokens.service.ts: the tokens by which a client is authorized. The table auth_tokens is a
-- `Repository` (TypeORM on a database), the HMAC a function `secure`, and the random text of a new
-- token an argument. `S` is the state of the table.
pub mod Checks
pub mod Removal
pub mod Generation
pub mod Table
mod Tests
use volatility_services.Prelude.{
  ℕ, ◌+◌, ◌*◌, ◌≡◌, String, Bool, true, false, ◌&&◌, ◌||◌, Option, none, some, List, [], ◌∷◌, ltb,
  if◌then◌else◌,
}
use volatility_services.Prelude.Keys.{symbol_key}
use volatility_services.TimePeriod.{milliseconds_per_day}

-- TOKEN_TYPES
pub data TokenType : Type 0 where
  verification passwordless password_reset api_key : TokenType

abbrev pub same_type : TokenType → TokenType → Bool
same_type verification verification = true
same_type passwordless passwordless = true
same_type password_reset password_reset = true
same_type api_key api_key = true
same_type _ _ = false

pub record AuthToken : Type 0 where
  -- undefined until it is saved
  pub id : Option ℕ
  pub type : TokenType
  pub owner : String
  pub token : String
  pub expiry : Option ℕ
  pub last_used_at : Option ℕ

abbrev pub matches : TokenType → String → AuthToken → Bool
matches type token e = same_type e.type type && symbol_key.same e.token token

-- What the service relies on of the table, in which a token is unique.
pub record Repository (S : Type 0) : Type 0 where
  -- `findOneBy(AuthToken, { type, token })`
  pub find_one_by : TokenType → String → S → Option AuthToken
  -- `save` of a new entity, with the id that it gets; `none` where the token exists.
  pub insert : AuthToken → S → Option (ℕ × S)
  -- `save` of an entity that was found.
  pub update : AuthToken → S → S
  -- `remove([entity])`
  pub delete : AuthToken → S → S
  pub found :
      (type : TokenType) (token : String) (s : S) (e : AuthToken)
      → find_one_by type token s ≡ some e
      → matches type token e ≡ true
  pub inserted :
      (e : AuthToken) (s s' : S) (id : ℕ)
      → insert e s ≡ some (id, s')
      → (type : TokenType) (token : String)
      → find_one_by type token s' ≡ (
          if matches type token e
          then some (record e { id = some id })
          else find_one_by type token s)
  pub updated :
      (e : AuthToken) (s : S) (type : TokenType) (token : String)
      → find_one_by type token (update e s)
        ≡ (if matches type token e then some e else find_one_by type token s)
  pub deleted :
      (e : AuthToken) (s : S) (type : TokenType) (token : String)
      → find_one_by type token (delete e s)
        ≡ (if matches type token e then none else find_one_by type token s)

-- The parameters after their defaults.
pub record GenerateParams : Type 0 where
  pub type : TokenType
  pub expire_in_num_days : Option ℕ
  pub expiry : Option ℕ
  pub owner : String

pub record CheckParams : Type 0 where
  pub type : TokenType
  pub token : String
  pub owner : Option String

-- `entity.expiry && entity.expiry < new Date()`
abbrev pub is_expired : Option ℕ → ℕ → Bool
is_expired none now = false
is_expired (some expiry) now = ltb expiry now

-- `!owner || entity.owner === owner`
abbrev pub owner_matches : Option String → AuthToken → Bool
owner_matches none e = true
owner_matches (some owner) e = symbol_key.same owner "" || symbol_key.same e.owner owner

-- `Date.now() + expireInNumDays * MILLISECONDS_PER_DAY`
abbrev pub expiry_timestamp : Option ℕ → ℕ → Option ℕ
expiry_timestamp none now = none
expiry_timestamp (some days) now = some (now + days * milliseconds_per_day)

module _ {S : Type 0} (secure : String → String) (db : Repository S) where
  -- The entity that is saved: its expiry replaces that of the parameters.
  unfoldable pub create : GenerateParams → ℕ → String → AuthToken
  create params now fresh = record {
    id = none;
    type = params.type;
    owner = params.owner;
    token = secure fresh;
    expiry = expiry_timestamp params.expire_in_num_days now;
    last_used_at = none;
  }

  -- The saved entity with the token before it was hashed, and `none` where `save` throws.
  unfoldable pub generate : GenerateParams → ℕ → String → S → Option (AuthToken × S)
  unfolding create
  generate params now fresh s = elim (db.insert (create params now fresh) s) [
    | none ↦ none
    | some (id, s') ↦ some (record (create params now fresh) { id = some id; token = fresh }, s')
  ]

  unfoldable pub check : CheckParams → ℕ → S → Bool × S
  check params now s = elim (db.find_one_by params.type (secure params.token) s) [
    | none ↦ (false, s)
    | some entity ↦
        if owner_matches params.owner entity
        then if is_expired entity.expiry now
          then (false, s)
          else (true, db.update (record entity { last_used_at = some now }) s)
        else (false, s)
  ]

  unfoldable pub remove : TokenType → String → S → S
  remove type token s = elim (db.find_one_by type (secure token) s) [
    | none ↦ s
    | some entity ↦ db.delete entity s
  ]

  unfoldable pub remove_all : List AuthToken → S → S
  remove_all [] s = s
  remove_all (e ∷ es) s = remove_all es (db.delete e s)

  -- The entities are those that the query on `expiry` answers, `none` where it throws.
  unfoldable pub clear_expired : (S → Option (List AuthToken)) → S → Option S
  unfolding remove_all
  clear_expired query s = elim (query s) [
    | none ↦ none
    | some entities ↦ some (remove_all entities s)
  ]
