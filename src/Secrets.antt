-- ===== src/Secrets.antt =====
-- src/clients/secrets_client.ts with src/lib/errors/secret_error.ts: the client that reads secrets out of the
-- environment. `pick` of lodash is a parameter.
pub mod Example
use volatility_services.Prelude.{ℕ, ◌≡◌, refl, ◌∙◌, ap, String, Option, none, some, List, [], ◌∷◌}
use volatility_services.Prelude.{AnyOf}
use volatility_services.Prelude.Dict.{Dict, get}
use volatility_services.Prelude.Keys.{symbol_key}
use volatility_services.Errors.{Class, Value, moleculer}
use volatility_services.Async.{Settled, fulfilled, rejected}

-- The variables of the environment that the client looks at; `none` is undefined.
pub record Environment : Type 0 where
  pub tardis_api_key : Option String
  pub infura_proj_id : Option String
  pub etherscan_api_key : Option String
  pub new_relic_license_key : Option String
  pub aws_secret_manager_secret_name : Option String

abbrev pub Secrets : Type 0
Secrets = Dict String (Option String)

abbrev defined : Option (Option String) → Option String
defined none = none
defined (some value) = value

-- `secrets.KEY`
abbrev pub secret : String → Secrets → Option String
secret key secrets = defined (get key secrets)

-- The documented behaviour of `_.pick`: an object's value at a key that is picked.
pub record Lodash : Type 0 where
  pub pick : Secrets → List String → Secrets
  pub pick_get :
      (secrets : Secrets) (names : List String) (key : String)
      → AnyOf (λ name. name ≡ key) names
      → get key (pick secrets names) ≡ get key secrets

-- PrivateClient
pub record SecretClient : Type 0 where
  pub data_source : Settled Secrets
  pub secret_name : String

abbrev secret_name_of : Option String → String → String
secret_name_of none otherwise = otherwise
secret_name_of (some name) otherwise = name

abbrev pub all_secrets : Environment → Secrets
all_secrets env =
    ("TARDIS_API_KEY", env.tardis_api_key)
    ∷ ("INFURA_PROJ_ID", env.infura_proj_id)
    ∷ ("ETHERSCAN_API_KEY", env.etherscan_api_key)
    ∷ ("NEW_RELIC_LICENSE_KEY", env.new_relic_license_key)
    ∷ ("FLEEK_ID", some "")
    ∷ ("FLEEK_SECRET", some "")
    ∷ []

-- The client that is made without arguments.
unfoldable pub default_client : Environment → SecretClient
default_client env = record {
  data_source = fulfilled (all_secrets env);
  secret_name = secret_name_of env.aws_secret_manager_secret_name "API_Keys";
}

-- `SecretClientError.from`, of the class and the identity of the new error; the error that it wraps is left
-- out of its data.
abbrev pub secret_client_error : Class → ℕ → String → Value
secret_client_error class id secret_name = moleculer (record {
  id = id;
  class = class;
  message = some "AWS Secret Manager Error";
  code = 500;
  type = "VG_ENVIRONMENT_CONFIG_ERROR";
  payload = ("secret", some secret_name) ∷ [];
})

unfoldable pub require_read : Lodash → Class → ℕ → SecretClient → List String → Settled Secrets
require_read lodash class id client names = elim client.data_source [
  | fulfilled secrets ↦ fulfilled (lodash.pick secrets names)
  | rejected v ↦ rejected (secret_client_error class id client.secret_name)
]

-- What reading takes: lodash, the class and the identity of the error made when it fails, the environment.
pub record Reading : Type 0 where
  pub lodash : Lodash
  pub class : Class
  pub id : ℕ
  pub env : Environment

-- `SecretsClient().requireRead(...)`
unfoldable pub require_read_default : Reading → List String → Settled Secrets
unfolding require_read default_client
require_read_default r names = require_read r.lodash r.class r.id (default_client r.env) names

-- A client made without arguments never rejects, and what it reads has the environment's value at each name
-- that was asked for.
pub require_read_default-fulfilled :
    (r : Reading) (names : List String)
    → (secrets : Secrets) × (require_read_default r names ≡ fulfilled secrets)
      × ((key : String)
          → AnyOf (λ name. name ≡ key) names
          → secret key secrets ≡ secret key (all_secrets r.env))
unfolding require_read_default
require_read_default-fulfilled r names = (
  r.lodash.pick (all_secrets r.env) names,
  refl,
  λ key h. ap defined (r.lodash.pick_get (all_secrets r.env) names key h),
)
