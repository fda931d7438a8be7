-- ===== src/Ipfs.antt =====
-- services/ipfs.service.ts with src/clients/ipfs_client.ts and src/datasources/fleek.ts: the action store
-- uploads a file to Fleek and saves the transaction. `D` is the type of the files' contents, `M` of their
-- metadata. Fleek and the repository are parameters, whose promises are settled either way.
pub mod Stores
mod Tests
use volatility_services.Prelude.{
  ℕ, ◌≡◌, String, Bool, true, false, Option, none, some, List, [], ◌∷◌, Result, ok, err,
  if◌then◌else◌,
}
use volatility_services.Errors.{Value, Classes, handle_as_moleculer_error}
use volatility_services.Secrets.{Secrets, Reading, require_read_default, secret}
use volatility_services.Async.{Settled, fulfilled, rejected, Outcome, ResultAsync}

pub record StoreParams (D M : Type 0) : Type 0 where
  pub key : String
  pub data_buffer : D
  pub metadata : M

-- IpfsClientConfig
pub record Config : Type 0 where
  pub bucket : String
  pub api_key : Option String
  pub api_secret : Option String

pub record UploadResponse : Type 0 where
  pub hash : String
  pub public_url : String

pub record FleekTransaction (M : Type 0) : Type 0 where
  pub hash : String
  pub key : String
  pub metadata : M

-- What the action answers with; a saved transaction is answered whole, with its metadata.
pub record StoreResponse (M : Type 0) : Type 0 where
  pub hash : String
  pub key : String
  pub metadata : Option M

-- Fleek and the repository.
pub record Services (D M : Type 0) : Type 0 where
  pub fleek_upload : Config → String → D → Settled UploadResponse
  pub save : FleekTransaction M → Settled (FleekTransaction M)

abbrev pub configured : String → Settled Secrets → Settled Config
configured bucket (rejected v) = rejected v
configured bucket (fulfilled credentials) = fulfilled (record {
  bucket = bucket;
  api_key = secret "FLEEK_ID" credentials;
  api_secret = secret "FLEEK_SECRET" credentials;
})

-- `IpfsClient.AsyncDefaultClient(bucket)`: the configuration that `provideFleekUpload` gets.
unfoldable pub async_default_client : Reading → String → Settled Config
async_default_client r bucket =
    configured bucket (require_read_default r ("FLEEK_ID" ∷ "FLEEK_SECRET" ∷ []))

module _ {D M : Type 0} (s : Services D M) where
  -- `buildResource`
  abbrev pub build_resource : StoreParams D M → UploadResponse → FleekTransaction M
  build_resource params output = record {
    hash = output.hash;
    key = output.public_url;
    metadata = params.metadata;
  }

  -- The chain of `map`; `id` is the identity of an error that is made of another one.
  unfoldable pub store :
      ResultAsync → Classes → ℕ → Reading → String → StoreParams D M → Outcome (FleekTransaction M)
  store async classes id r bucket params =
      let client : Outcome Config =
        async.from_promise Config (async_default_client r bucket)
          (handle_as_moleculer_error classes id) in
      let output : Outcome UploadResponse =
        async.map Config UploadResponse
          (λ config. s.fleek_upload config params.key params.data_buffer) client in
      let resource : Outcome (FleekTransaction M) =
        async.map UploadResponse (FleekTransaction M)
          (λ response. fulfilled (build_resource params response)) output in
      async.map (FleekTransaction M) (FleekTransaction M) s.save resource

  abbrev pub response : FleekTransaction M → StoreResponse M
  response t = record { hash = t.hash; key = t.key; metadata = some t.metadata }

  -- The await of a result: its error is thrown.
  abbrev pub answer : Outcome (FleekTransaction M) → Settled (StoreResponse M)
  answer (fulfilled (ok t)) = fulfilled (response t)
  answer (fulfilled (err v)) = rejected v
  answer (rejected v) = rejected v

  unfoldable pub store_action :
      ResultAsync
      → Classes
      → ℕ
      → Reading
      → Bool
      → String
      → StoreParams D M
      → Settled (StoreResponse M)
  unfolding store
  store_action async classes id r ipfs_enabled bucket params =
      if ipfs_enabled
      then answer (store async classes id r bucket params)
      else fulfilled (record { hash = ""; key = ""; metadata = none })
