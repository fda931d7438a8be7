-- ===== src/Secrets/Example.antt =====
-- lodash's `pick` by clauses, and an environment.
use volatility_services.Prelude.{
  ◌≡◌, refl, inl, inr, String, Bool, true, false, none, some, List, [], ◌∷◌, AnyOf, if◌then◌else◌,
  arith,
}
use volatility_services.Prelude.Dict.{get}
use volatility_services.Prelude.Keys.{symbol_key}
use volatility_services.Errors.{other_class}
use volatility_services.Secrets.{Secrets, Reading}

abbrev pub contains : String → List String → Bool
contains key [] = false
contains key (name ∷ names) = if symbol_key.same name key then true else contains key names

abbrev pub pick : Secrets → List String → Secrets
pick [] names = []
pick ((key, value) ∷ secrets) names =
    let rest = pick secrets names in if contains key names then (key, value) ∷ rest else rest

pub contains-AnyOf :
    (key : String) (names : List String)
    → AnyOf (λ name. name ≡ key) names
    → contains key names ≡ true
contains-AnyOf key [] h = elim h [ ]
contains-AnyOf key (name ∷ names) (inl e) = ground (arith, symbol_key.same_iff name key)
contains-AnyOf key (name ∷ names) (inr h) = ground (arith, contains-AnyOf key names h)

pub get-pick :
    (secrets : Secrets) (names : List String) (key : String)
    → contains key names ≡ true
    → get key (pick secrets names) ≡ get key secrets
get-pick [] names key h = refl
get-pick ((j, value) ∷ secrets) names key h =
    ground (arith, symbol_key.same_iff j key, get-pick secrets names key h)

abbrev pub reading : Reading
reading = record {
  lodash = record {
    pick = pick;
    pick_get = λ secrets names key h. get-pick secrets names key (contains-AnyOf key names h);
  };
  class = other_class 1;
  id = 1;
  env = record {
    tardis_api_key = none;
    infura_proj_id = some "project";
    etherscan_api_key = some "key";
    new_relic_license_key = none;
    aws_secret_manager_secret_name = none;
  };
}
