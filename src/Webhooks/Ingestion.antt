-- ===== src/Webhooks/Ingestion.antt =====
-- src/app/webhooks/ingestion.py: `ingest_webhook_event`, from the signature to the queue, and the
-- validator that it uses by default. The verifier, the validator and the enqueuer act on a world `W`;
-- the rows of the session are apart from it, the row of the event first.
pub mod Steps
pub mod Recorded
pub mod Redelivery
use fast_api_boilerplate.Base.{
  ℕ, Bool, true, false, Option, none, some, String, List, [], ◌∷◌, ◌++◌, str_eq, if◌then◌else◌,
}
use fast_api_boilerplate.Base.Dict.{Dict, lookup, insert}
use fast_api_boilerplate.Base.Strings.{strip}
use fast_api_boilerplate.Webhooks.Events.{
  JsonValues, Codec, WebhookIngestionRequest, WebhookSignatureVerificationResult, WebhookEvent,
  WebhookEventStatus, WebhookEventPersistenceRequest, nonempty, dict_of, update, mark_acknowledged,
  mark_failed, mark_enqueued,
}
use fast_api_boilerplate.Webhooks.Events.Store.{build_event, mapping_at, entry_of}
use fast_api_boilerplate.Webhooks.Replay.{
  WebhookValidatedEvent, WebhookReplayProtectionRequest, WebhookReplayProtectionResult,
  WebhookReplayKeyKind, by_delivery_id, by_event_id, by_payload_sha256, WebhookReplayMatch,
  ReplayCheck, passed, replay_detected, fingerprint_mismatch, replay_protection_request, protect,
}

-- `WebhookValidatedEvent(...)`: `none` is a `ValueError`.
unfoldable pub validated_event :
    {J : Type 0} → WebhookValidatedEvent J → Option (WebhookValidatedEvent J)
validated_event event = if str_eq (strip event.event_type) "" then none else some event

pub record WebhookEventEnqueueRequest (B J : Type 0) : Type 0 where
  pub source : String
  pub endpoint_key : String
  pub webhook_request : WebhookIngestionRequest B
  pub persisted_event : WebhookEvent J
  pub validated_event : WebhookValidatedEvent J
  pub signature_verification : Option WebhookSignatureVerificationResult
  pub replay_protection : Option WebhookReplayProtectionResult
  pub correlation_id : Option String

pub record WebhookEventEnqueueResult (J : Type 0) : Type 0 where
  pub job_name : Option String
  pub queue_name : Option String
  pub job_id : Option String
  pub processing_metadata : Option (Dict J)

pub record WebhookIngestionResult (J : Type 0) : Type 0 where
  pub persisted_event : WebhookEvent J
  pub validated_event : WebhookValidatedEvent J
  pub signature_verification : Option WebhookSignatureVerificationResult
  pub enqueue_result : Option (WebhookEventEnqueueResult J)
  pub correlation_id : Option String
  pub replay_protection : Option WebhookReplayProtectionResult

-- What awaiting the enqueuer does; an exception has a text and a class name.
pub data EnqueueRun (J : Type 0) : Type 0 where
  returned : Option (WebhookEventEnqueueResult J) → EnqueueRun J
  raised : String → String → EnqueueRun J

-- The arguments of `ingest_webhook_event`, the settings resolved. A verifier or validator that raises
-- is `none`.
pub record Ingestion (B J W : Type 0) : Type 0 where
  pub source : String
  pub endpoint_key : String
  pub signature_verification_enabled : Bool
  pub replay_protection_enabled : Bool
  pub replay_window_seconds : ℕ
  pub store_raw_payload : Bool
  pub processing_metadata : Option (Dict J)
  pub verifier :
      Option (WebhookIngestionRequest B → W → Option WebhookSignatureVerificationResult × W)
  pub event_validator :
      WebhookIngestionRequest B
      → Option WebhookSignatureVerificationResult
      → W
      → Option (WebhookValidatedEvent J) × W
  pub enqueuer : WebhookEventEnqueueRequest B J → W → EnqueueRun J × W

-- What awaiting `ingest_webhook_event` does. All but the first and the last are
-- exceptions that it raises before the event is stored.
pub data IngestionOutcome (J : Type 0) : Type 0 where
  ingested : WebhookIngestionResult J → IngestionOutcome J
  not_verified verifier_required not_validated bad_replay_request : IngestionOutcome J
  replayed : ReplayCheck → IngestionOutcome J
  unknown_charset : IngestionOutcome J
  enqueue_failed : IngestionOutcome J

unfoldable pub format_exception_message : String → String → String
format_exception_message message class_name =
    if str_eq (strip message) "" then class_name else strip message

module _ {J : Type 0} (json : JsonValues J) where
  -- `payload` is the body as JSON, with its object if it is one; `as_text` is for a text, and `show`
  -- is Python's `str`.
  unfoldable pub validate_json_webhook_event :
      (J → Option String)
      → (J → String)
      → Option (Option (Dict J))
      → Option (WebhookValidatedEvent J)
  validate_json_webhook_event as_text show none = none
  validate_json_webhook_event as_text show (some none) = none
  validate_json_webhook_event as_text show (some (some payload)) = elim (lookup "type" payload) [
    | none ↦ none
    | some raw ↦ elim (as_text raw) [
      | none ↦ none
      | some event_type ↦ validated_event (record {
        event_type = strip event_type;
        event_id = elim (lookup "id" payload) [
          | none ↦ none
          | some id ↦ if str_eq (strip (show id)) "" then none else some (strip (show id))
        ];
        delivery_id = none;
        normalized_payload = some payload;
        processing_metadata = none;
      })
    ]
  ]

  abbrev kind_text : WebhookReplayKeyKind → String
  kind_text by_delivery_id = "delivery_id"
  kind_text by_event_id = "event_id"
  kind_text by_payload_sha256 = "payload_sha256"

  unfoldable pub as_processing_metadata : WebhookReplayProtectionResult → Dict J
  as_processing_metadata checked =
      (
        "replay_protection",
        json.object (
            (("checked_at", json.number checked.checked_at)
              ∷ ("key_kind", json.text (kind_text checked.key_kind))
              ∷ ("key_value", json.text checked.key_value)
              ∷ ("payload_sha256", json.text checked.payload_sha256)
              ∷ ("window_seconds", json.number checked.replay_window_seconds)
              ∷ [])
            ++ entry_of json "delivery_id" checked.delivery_id
            ++ entry_of json "event_id" checked.event_id),
      )
      ∷ []

  unfoldable pub merge_mappings : List (Option (Dict J)) → Dict J → Dict J
  merge_mappings [] merged = merged
  merge_mappings (entries ∷ mappings) merged =
      merge_mappings mappings (update merged (dict_of entries))

  unfoldable pub merge_metadata : List (Option (Dict J)) → Option (Dict J)
  merge_metadata mappings = nonempty (merge_mappings mappings [])

  -- `dict.pop(key)`
  unfoldable pub remove_key : String → Dict J → Dict J
  remove_key key [] = []
  remove_key key ((other, value) ∷ entries) =
      let rest = remove_key key entries in if str_eq other key then rest else (other, value) ∷ rest

  unfoldable pub build_enqueue_processing_metadata : Option (WebhookEventEnqueueResult J) → Dict J
  build_enqueue_processing_metadata none =
      ("enqueue", json.object (("status", json.text "queued") ∷ [])) ∷ []
  build_enqueue_processing_metadata (some result) =
      let own =
        entry_of json "job_name" result.job_name
        ++ entry_of json "queue_name" result.queue_name
        ++ entry_of json "job_id" result.job_id
        ++ ("status", json.text "queued") ∷ [] in
      let additional = dict_of result.processing_metadata in
      insert "enqueue" (json.object (update (mapping_at json "enqueue" additional) own))
        (remove_key "enqueue" additional)
