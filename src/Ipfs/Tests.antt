-- ===== src/Ipfs/Tests.antt =====
-- A store whose transaction is refused as one that is there already.
use volatility_services.Prelude.{◌≡◌, refl, String, true, false, none}
use volatility_services.Errors.{moleculer_error, instance_of}
use volatility_services.Errors.Example.{classes, duplicate}
use volatility_services.Async.{fulfilled, rejected}
use volatility_services.Async.Example.{neverthrow}
use volatility_services.Secrets.{require_read, require_read_default, default_client}
use volatility_services.Secrets.Example.{reading}
use volatility_services.Ipfs.{StoreParams, Services, async_default_client, store, store_action}
use volatility_services.Ipfs.Stores.{Answers, store_action-Answers}

abbrev services : Services String String
services = record {
  fleek_upload =
      λ config key data_buffer. fulfilled (record { hash = data_buffer; public_url = key });
  save = λ transaction. rejected duplicate;
}

abbrev params : StoreParams String String
params = record { key = "evidence.json"; data_buffer = "{}"; metadata = "application/json" }

store_action-Answers_example :
    Answers services "bucket" params
      (store_action services neverthrow classes 1 reading true "bucket" params)
    × (store_action services neverthrow classes 1 reading false "bucket" params
        ≡ fulfilled (record { hash = ""; key = ""; metadata = none }))
store_action-Answers_example =
    store_action-Answers services neverthrow "bucket" params classes 1 reading

store_action-refused :
    store_action services neverthrow classes 1 reading true "bucket" params ≡ rejected duplicate
unfolding store_action store async_default_client require_read_default require_read default_client
store_action-refused = refl

-- What it rejects with is no error of moleculer's.
duplicate-class : instance_of classes duplicate moleculer_error ≡ false
unfolding instance_of
duplicate-class = refl
