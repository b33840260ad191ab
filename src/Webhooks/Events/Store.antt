-- ===== src/Webhooks/Events/Store.antt =====
-- `WebhookEventStore.build_event`.
use fast_api_boilerplate.Base.{
  ℕ, Bool, true, Option, none, some, String, [], ◌∷◌, ◌++◌, if◌then◌else◌,
}
use fast_api_boilerplate.Base.Dict.{Dict, lookup, insert}
use fast_api_boilerplate.Webhooks.Events.{
  JsonValues, Codec, WebhookIngestionRequest, WebhookSignatureVerificationResult, WebhookEvent,
  WebhookEventPersistenceRequest, or_time, nonempty, dict_of, update, copy_mapping,
}
use fast_api_boilerplate.Webhooks.Events.Media.{charset}

module _ {J : Type 0} (json : JsonValues J) where
  abbrev pub entry_of : String → Option String → Dict J
  entry_of key none = []
  entry_of key (some value) = (key, json.text value) ∷ []

  abbrev time_entry : String → Option ℕ → Dict J
  time_entry key none = []
  time_entry key (some time) = (key, json.number time) ∷ []

  unfoldable pub build_signature_metadata :
      Option WebhookSignatureVerificationResult → Option (Dict J)
  build_signature_metadata none = none
  build_signature_metadata (some verification) = some (
      ("verified_at", json.number verification.verified_at)
        ∷ entry_of "algorithm" verification.algorithm
      ++ entry_of "key_id" verification.key_id
      ++ time_entry "signed_at" verification.signed_at)

  -- The mapping that stands under a key, or an empty one.
  unfoldable pub mapping_at : String → Dict J → Dict J
  mapping_at key entries = elim (lookup key entries) [
    | none ↦ []
    | some value ↦ dict_of (json.as_object value)
  ]

  add_signature : Option (Dict J) → Option (Dict J) → Option (Dict J)
  add_signature metadata none = metadata
  add_signature metadata (some signature) =
      let combined = dict_of metadata in
      nonempty (
        insert "signature" (json.object (update (mapping_at "signature" combined) signature))
          combined)

  module _ {B : Type 0} (codec : Codec B) where
    unfoldable pub build_processing_metadata : WebhookEventPersistenceRequest B J → Option (Dict J)
    unfolding add_signature
    build_processing_metadata payload =
        add_signature (copy_mapping payload.processing_metadata)
          (build_signature_metadata payload.signature_verification)

    unfoldable pub resolve_signature_verified : WebhookEventPersistenceRequest B J → Option Bool
    resolve_signature_verified payload = elim (payload.signature_verified) [
      | some verified ↦ some verified
      | none ↦ elim (payload.signature_verification) [ some result ↦ some true | none ↦ none ]
    ]

    -- `request.text(errors="replace")`
    abbrev pub body_text : WebhookIngestionRequest B → Option String
    body_text request =
        codec.decode
          (elim (charset request.content_type) [ none ↦ "utf-8" | some encoding ↦ encoding ])
          request.raw_body

    abbrev pub rendered : Option String → Option (Option String)
    rendered none = none
    rendered (some text) = some (some text)

    -- `none` is the `LookupError` of a charset that is not known.
    unfoldable pub render_raw_payload : WebhookEventPersistenceRequest B J → Option (Option String)
    render_raw_payload payload =
        if payload.store_raw_payload
        then elim (payload.raw_payload_text) [
          | some text ↦ some (some text)
          | none ↦ rendered (body_text payload.webhook_request)
        ]
        else some none

    -- `id` is the key that the flush gives to the row.
    unfoldable pub event_with :
        ℕ → ℕ → WebhookEventPersistenceRequest B J → Option String → WebhookEvent J
    event_with id now payload raw_payload = record {
      id = id;
      source = payload.source;
      endpoint_key = payload.endpoint_key;
      event_type = payload.event_type;
      status = payload.status;
      delivery_id = payload.delivery_id;
      event_id = payload.event_id;
      signature_verified = resolve_signature_verified payload;
      payload_content_type = payload.webhook_request.content_type;
      payload_sha256 = some (codec.sha256 payload.webhook_request.raw_body);
      payload_size_bytes = some (codec.size payload.webhook_request.raw_body);
      received_at = or_time payload.received_at now;
      acknowledged_at = none;
      processed_at = none;
      raw_payload = raw_payload;
      normalized_payload = copy_mapping payload.normalized_payload;
      processing_metadata = build_processing_metadata payload;
      processing_error = none;
    }

    -- Where the body cannot be rendered, no event is built.
    unfoldable pub event_if :
        ℕ
        → ℕ
        → WebhookEventPersistenceRequest B J
        → Option (Option String)
        → Option (WebhookEvent J)
    event_if id now payload none = none
    event_if id now payload (some raw_payload) = some (event_with id now payload raw_payload)

    unfoldable pub build_event :
        ℕ → ℕ → WebhookEventPersistenceRequest B J → Option (WebhookEvent J)
    build_event id now payload = event_if id now payload (render_raw_payload payload)
