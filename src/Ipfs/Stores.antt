-- ===== src/Ipfs/Stores.antt =====
-- What the action store of services/ipfs.service.ts answers with.
use volatility_services.Prelude.{
  ℕ, ◌≡◌, refl, ap, ◌∙◌, inl, inr, String, true, false, none, some, [], ◌∷◌, ok,
}
use volatility_services.Errors.{Value, Classes, handle_as_moleculer_error}
use volatility_services.Async.{Settled, fulfilled, rejected, Outcome, ResultAsync, Settled-cases}
use volatility_services.Secrets.{Reading, require_read_default-fulfilled}
use volatility_services.Ipfs.{
  StoreParams, Config, UploadResponse, FleekTransaction, StoreResponse, Services, configured,
  async_default_client, build_resource, store, response, answer, store_action,
}

module _ {D M : Type 0} (s : Services D M) where
  -- The client never has any credentials.
  abbrev config_of : String → Config
  config_of bucket = record { bucket = bucket; api_key = some ""; api_secret = some "" }

  -- How an enabled store ends, of the parts it uses in their order.
  pub data Answers (bucket : String) (params : StoreParams D M)
      : Settled (StoreResponse M) → Type 0 where
    not_uploaded :
        (v : Value)
        → s.fleek_upload (config_of bucket) params.key params.data_buffer ≡ rejected v
        → Answers bucket params (rejected v)
    not_saved :
        (u : UploadResponse) (v : Value)
        → s.fleek_upload (config_of bucket) params.key params.data_buffer ≡ fulfilled u
        → s.save (build_resource s params u) ≡ rejected v
        → Answers bucket params (rejected v)
    saved :
        (u : UploadResponse) (t : FleekTransaction M)
        → s.fleek_upload (config_of bucket) params.key params.data_buffer ≡ fulfilled u
        → s.save (build_resource s params u) ≡ fulfilled t
        → Answers bucket params (fulfilled (response s t))

  module _ (async : ResultAsync) (bucket : String) (params : StoreParams D M) where
    abbrev upload : Config → Settled UploadResponse
    upload config = s.fleek_upload config params.key params.data_buffer

    -- What follows the client.
    abbrev uploaded : Outcome Config → Outcome UploadResponse
    uploaded client = async.map Config UploadResponse upload client

    abbrev resource : Outcome UploadResponse → Outcome (FleekTransaction M)
    resource output =
        async.map UploadResponse (FleekTransaction M) (λ r. fulfilled (build_resource s params r))
          output

    abbrev persisted : Outcome (FleekTransaction M) → Outcome (FleekTransaction M)
    persisted transaction = async.map (FleekTransaction M) (FleekTransaction M) s.save transaction

    abbrev rest : Outcome Config → Settled (StoreResponse M)
    rest client = answer s (persisted (resource (uploaded client)))

    resource-rejected : (v : Value) → answer s (persisted (resource (rejected v))) ≡ rejected v
    resource-rejected v =
        rw
          (
            async.map_rejected UploadResponse (FleekTransaction M) v
                (λ r. fulfilled (build_resource s params r)),
            async.map_rejected (FleekTransaction M) (FleekTransaction M) v s.save,
          )
          refl

    rest-not_uploaded :
        (c : Config) (v : Value) → upload c ≡ rejected v → rest (fulfilled (ok c)) ≡ rejected v
    rest-not_uploaded c v e =
        ap (λ x. answer s (persisted (resource x)))
          (async.map_rejects Config UploadResponse c v upload e)
        ∙ resource-rejected v

    rest-uploaded :
        (c : Config) (u : UploadResponse)
        → upload c ≡ fulfilled u
        → rest (fulfilled (ok c))
          ≡ answer s (persisted (fulfilled (ok (build_resource s params u))))
    rest-uploaded c u e =
        rw
          (
            async.map_fulfilled Config UploadResponse c u upload e,
            async.map_fulfilled UploadResponse (FleekTransaction M) u (build_resource s params u)
                (λ r. fulfilled (build_resource s params r)) refl,
          )
          refl

    rest-not_saved :
        (c : Config) (u : UploadResponse) (v : Value)
        → upload c ≡ fulfilled u
        → s.save (build_resource s params u) ≡ rejected v
        → rest (fulfilled (ok c)) ≡ rejected v
    rest-not_saved c u v e f =
        rest-uploaded c u e
        ∙ ap (answer s) (
            async.map_rejects (FleekTransaction M) (FleekTransaction M) (build_resource s params u)
              v s.save f)

    rest-saved :
        (c : Config) (u : UploadResponse) (t : FleekTransaction M)
        → upload c ≡ fulfilled u
        → s.save (build_resource s params u) ≡ fulfilled t
        → rest (fulfilled (ok c)) ≡ fulfilled (response s t)
    rest-saved c u t e f =
        rest-uploaded c u e
        ∙ ap (answer s) (
            async.map_fulfilled (FleekTransaction M) (FleekTransaction M)
              (build_resource s params u) t s.save f)

    module _ (classes : Classes) (id : ℕ) (r : Reading) where
      abbrev promised : Settled Config → Outcome Config
      promised x = async.from_promise Config x (handle_as_moleculer_error classes id)

      client-config : async_default_client r bucket ≡ fulfilled (config_of bucket)
      unfolding async_default_client
      client-config =
          let (credentials, read, at) =
            require_read_default-fulfilled r ("FLEEK_ID" ∷ "FLEEK_SECRET" ∷ []) in
          ap (configured bucket) read
          ∙ rw (at "FLEEK_ID" (inl refl), at "FLEEK_SECRET" (inr (inl refl))) refl

      ends-configured : Answers bucket params (rest (fulfilled (ok (config_of bucket))))
      ends-configured = elim (Settled-cases (upload (config_of bucket))) [
        | inr (v, f) ↦ rw (rest-not_uploaded (config_of bucket) v f) (not_uploaded v f)
        | inl (u, f) ↦ elim (Settled-cases (s.save (build_resource s params u))) [
          | inr (v, g) ↦ rw (rest-not_saved (config_of bucket) u v f g) (not_saved u v f g)
          | inl (t, g) ↦ rw (rest-saved (config_of bucket) u t f g) (saved u t f g)
        ]
      ]

      client_ends : Answers bucket params (rest (promised (async_default_client r bucket)))
      client_ends =
          rw
            (
              client-config,
              async.from_fulfilled Config (config_of bucket) (handle_as_moleculer_error classes id),
            )
            ends-configured

      -- Whatever the environment, an enabled store uploads without any credentials. It answers with the
      -- transaction that was saved; when the upload or the save rejects, it rejects with that same value,
      -- which no handler of errors sees, so that a plain error is not made one of moleculer's. A disabled
      -- one answers with empty names.
      pub store_action-Answers :
          Answers bucket params (store_action s async classes id r true bucket params)
          × (store_action s async classes id r false bucket params
              ≡ fulfilled (record { hash = ""; key = ""; metadata = none }))
      unfolding store_action store
      store_action-Answers = (client_ends, refl)
