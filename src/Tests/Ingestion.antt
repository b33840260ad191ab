-- ===== src/Tests/Ingestion.antt =====
-- Runs of the ingestion of webhooks. Values of JSON and bodies are texts; the world counts the calls of
-- the enqueuer, which raises.
use fast_api_boilerplate.Base.{ℕ, ◌+◌, ◌≡◌, refl, true, false, none, some, String, [], ◌∷◌, arith}
use fast_api_boilerplate.Base.Dict.{insert}
use fast_api_boilerplate.Webhooks.Events.{
  JsonValues, Codec, WebhookIngestionRequest, WebhookEvent, WebhookEventStatus, mark_acknowledged,
  mark_failed, set_status, merge_processing_metadata, update, copy_mapping,
}
use fast_api_boilerplate.Webhooks.Events.Store.{
  build_event, event_if, event_with, build_processing_metadata, build_signature_metadata,
  resolve_signature_verified, render_raw_payload,
}
use fast_api_boilerplate.Webhooks.Replay.{
  WebhookValidatedEvent, replay_protection_request, protect, protect_found, find_existing_event,
  pass, primary_key_kind, primary_key_value,
}
use fast_api_boilerplate.Webhooks.Ingestion.{
  Ingestion, raised, unknown_charset, format_exception_message, as_processing_metadata,
  merge_metadata, merge_mappings,
}
use fast_api_boilerplate.Webhooks.Ingestion.Steps.{
  IngestionState, finish, persistence_request, store_and_enqueue, enqueue_persisted, replay_request,
  after_replay, check_replay, after_validation, verify_first, ingest_webhook_event,
}
use fast_api_boilerplate.Webhooks.Ingestion.Recorded.{IsRowOf, Recorded, Refused}
use fast_api_boilerplate.Webhooks.Ingestion.Redelivery.{ingest_webhook_event-redelivered}
use fast_api_boilerplate.Base.Strings.{strip, strip_end, strip_start, is_space, push_stripped}

abbrev json : JsonValues String
json = record {
  text = λ s. s;
  number = λ n. "number";
  object = λ d. "object";
  as_object = λ j. none;
}

abbrev codec : Codec String
codec = record { sha256 = λ b. b; size = λ b. 4; decode = λ encoding b. some b }

abbrev paid : WebhookValidatedEvent String
paid = record {
  event_type = "invoice.paid";
  event_id = none;
  delivery_id = some "d1";
  normalized_payload = none;
  processing_metadata = none;
}

abbrev stripe : Ingestion String String ℕ
stripe = record {
  source = "stripe";
  endpoint_key = "billing";
  signature_verification_enabled = false;
  replay_protection_enabled = true;
  replay_window_seconds = 300;
  store_raw_payload = false;
  processing_metadata = none;
  verifier = none;
  event_validator = λ request verification w. (some paid, w);
  enqueuer = λ request w. (raised "queue is down" "ConnectionError", w + 1);
}

abbrev body : WebhookIngestionRequest String
body = record { raw_body = "{..}"; content_type = none }

abbrev empty : IngestionState String ℕ
empty = record { rows = []; world = 0 }

-- The row of a delivery that could not be enqueued.
abbrev stored : WebhookEvent String
stored = record {
  id = 1;
  source = "stripe";
  endpoint_key = "billing";
  event_type = "invoice.paid";
  status = WebhookEventStatus.failed;
  delivery_id = some "d1";
  event_id = none;
  signature_verified = none;
  payload_content_type = none;
  payload_sha256 = some "{..}";
  payload_size_bytes = some 4;
  received_at = 100;
  acknowledged_at = some 100;
  processed_at = some 100;
  raw_payload = none;
  normalized_payload = none;
  processing_metadata = some (("replay_protection", "object") ∷ ("enqueue", "object") ∷ []);
  processing_error = some "queue is down";
}

first_delivery : (ingest_webhook_event json codec stripe body none 1 100 empty).1.rows ≡ stored ∷ []
unfolding ingest_webhook_event verify_first after_validation check_replay after_replay
    store_and_enqueue replay_request replay_protection_request protect protect_found
    find_existing_event pass primary_key_kind primary_key_value finish persistence_request
    build_event event_if event_with enqueue_persisted mark_acknowledged mark_failed set_status
    merge_processing_metadata update copy_mapping build_processing_metadata build_signature_metadata
    resolve_signature_verified render_raw_payload format_exception_message as_processing_metadata
    merge_metadata merge_mappings insert strip strip_end strip_start is_space push_stripped
first_delivery = refl

IsRowOf-stored : IsRowOf json codec stripe body none 1 100 stored paid
IsRowOf-stored = record {
  has_id = refl;
  has_source = refl;
  has_endpoint = refl;
  has_type = refl;
  has_delivery = refl;
  has_event = refl;
  has_digest = refl;
  is_received = refl;
  is_acknowledged = refl;
}

same_event : (other : WebhookValidatedEvent String) → some paid ≡ some other → other ≡ paid
same_event other h = cc h

-- Another delivery came in between.
abbrev newer : WebhookEvent String
newer = record stored { id = 2; delivery_id = some "d2"; received_at = 180 }

ingest_webhook_event-redelivered_example :
    Refused
      (ingest_webhook_event json codec stripe body none 3 250
        (record { rows = newer ∷ stored ∷ []; world = 1 })).0
    × ((ingest_webhook_event json codec stripe body none 3 250
          (record { rows = newer ∷ stored ∷ []; world = 1 })).1.rows
        ≡ newer ∷ stored ∷ [])
ingest_webhook_event-redelivered_example =
    ingest_webhook_event-redelivered json codec stripe body none 1 3 100 250 stored paid
      (newer ∷ []) [] 1 IsRowOf-stored (λ verification v other. same_event other) refl (omega arith)

-- A body that is to be stored, in a charset that Python does not know.
abbrev undecodable : Codec String
undecodable = record codec { decode = λ encoding b. none }

not_stored :
    ingest_webhook_event json undecodable
      (record stripe { store_raw_payload = true })
      body
      none
      1
      100
      empty
    ≡ (unknown_charset, empty)
unfolding ingest_webhook_event verify_first after_validation check_replay after_replay
    store_and_enqueue replay_request replay_protection_request protect protect_found
    find_existing_event pass primary_key_kind primary_key_value persistence_request build_event
    event_if enqueue_persisted render_raw_payload strip strip_end strip_start is_space push_stripped
not_stored = refl
