-- ===== src/Webhooks/Ingestion/Steps.antt =====
-- The steps of `ingest_webhook_event`, in their order.
use fast_api_boilerplate.Base.{ℕ, Option, none, some, String, List, [], ◌∷◌, if◌then◌else◌}
use fast_api_boilerplate.Webhooks.Events.{
  JsonValues, Codec, WebhookIngestionRequest, WebhookSignatureVerificationResult, WebhookEvent,
  WebhookEventStatus, WebhookEventPersistenceRequest, mark_acknowledged, mark_failed, mark_enqueued,
}
use fast_api_boilerplate.Webhooks.Events.Store.{build_event}
use fast_api_boilerplate.Webhooks.Replay.{
  WebhookValidatedEvent, WebhookReplayProtectionRequest, WebhookReplayProtectionResult, ReplayCheck,
  passed, replay_protection_request, protect,
}
use fast_api_boilerplate.Webhooks.Ingestion.{
  Ingestion, IngestionOutcome, ingested, not_verified, verifier_required, not_validated,
  bad_replay_request, replayed, unknown_charset, enqueue_failed, EnqueueRun, returned, raised,
  WebhookEventEnqueueRequest, format_exception_message, as_processing_metadata, merge_metadata,
  build_enqueue_processing_metadata,
}

-- The session's rows and the world.
pub record IngestionState (J W : Type 0) : Type 0 where
  pub rows : List (WebhookEvent J)
  pub world : W

module _ {B J W : Type 0} (json : JsonValues J) (codec : Codec B) (i : Ingestion B J W)
    (webhook_request : WebhookIngestionRequest B) (correlation_id : Option String)
    (id now : ℕ) where
  -- The row after its marking takes the place of the row that was added.
  unfoldable pub finish :
      WebhookEvent J
      → WebhookEventEnqueueRequest B J
      → List (WebhookEvent J)
      → EnqueueRun J × W
      → IngestionOutcome J × IngestionState J W
  finish event request rows (returned result, w) =
      let marked = mark_enqueued event (some (build_enqueue_processing_metadata json result)) in
      (
        ingested (record {
          persisted_event = marked;
          validated_event = request.validated_event;
          signature_verification = request.signature_verification;
          enqueue_result = result;
          correlation_id = correlation_id;
          replay_protection = request.replay_protection;
        }),
        record { rows = marked ∷ rows; world = w },
      )
  finish event request rows (raised message class_name, w) =
      let failure = ("enqueue", json.object (("status", json.text "failed") ∷ [])) ∷ [] in
      (
        enqueue_failed,
        record {
          rows =
              mark_failed now event none (some (format_exception_message message class_name))
                (some failure)
              ∷ rows;
          world = w;
        },
      )

  unfoldable pub persistence_request :
      Option WebhookSignatureVerificationResult
      → WebhookValidatedEvent J
      → Option WebhookReplayProtectionResult
      → WebhookEventPersistenceRequest B J
  persistence_request verification event replay = record {
    source = i.source;
    endpoint_key = i.endpoint_key;
    event_type = event.event_type;
    webhook_request = webhook_request;
    delivery_id = event.delivery_id;
    event_id = event.event_id;
    normalized_payload = event.normalized_payload;
    processing_metadata = merge_metadata json (
        i.processing_metadata
        ∷ event.processing_metadata
        ∷ (elim correlation_id [
          | none ↦ none
          | some correlation ↦ some (("correlation_id", json.text correlation) ∷ [])
        ])
        ∷ (elim replay [ none ↦ none | some checked ↦ some (as_processing_metadata json checked) ])
        ∷ []);
    signature_verification = verification;
    signature_verified = none;
    status = WebhookEventStatus.received;
    store_raw_payload = i.store_raw_payload;
    raw_payload_text = none;
    received_at = none;
  }

  -- From the call of `build_event` on: an event that cannot be built raises before it is added to the
  -- session.
  unfoldable pub enqueue_persisted :
      Option WebhookSignatureVerificationResult
      → WebhookValidatedEvent J
      → Option WebhookReplayProtectionResult
      → IngestionState J W
      → Option (WebhookEvent J)
      → IngestionOutcome J × IngestionState J W
  enqueue_persisted verification event replay state none = (unknown_charset, state)
  enqueue_persisted verification event replay state (some persisted) =
      let acknowledged = mark_acknowledged now persisted none none in
      let request : WebhookEventEnqueueRequest B J = record {
        source = i.source;
        endpoint_key = i.endpoint_key;
        webhook_request = webhook_request;
        persisted_event = acknowledged;
        validated_event = event;
        signature_verification = verification;
        replay_protection = replay;
        correlation_id = correlation_id;
      } in
      finish acknowledged request state.rows (i.enqueuer request state.world)

  -- From `persist` on. `id` is the key that the flush gives to the row.
  unfoldable pub store_and_enqueue :
      Option WebhookSignatureVerificationResult
      → WebhookValidatedEvent J
      → Option WebhookReplayProtectionResult
      → IngestionState J W
      → IngestionOutcome J × IngestionState J W
  store_and_enqueue verification event replay state =
      enqueue_persisted verification event replay state
        (build_event json codec id now (persistence_request verification event replay))

  unfoldable pub replay_request : WebhookValidatedEvent J → WebhookReplayProtectionRequest B J
  replay_request event = record {
    source = i.source;
    endpoint_key = i.endpoint_key;
    webhook_request = webhook_request;
    validated_event = event;
    replay_window_seconds = i.replay_window_seconds;
    checked_at = now;
  }

  unfoldable pub after_replay :
      Option WebhookSignatureVerificationResult
      → WebhookValidatedEvent J
      → IngestionState J W
      → ReplayCheck
      → IngestionOutcome J × IngestionState J W
  after_replay verification event state (passed checked) =
      store_and_enqueue verification event (some checked) state
  after_replay verification event state refused = (replayed refused, state)

  unfoldable pub check_replay :
      Option WebhookSignatureVerificationResult
      → WebhookValidatedEvent J
      → IngestionState J W
      → Option (WebhookReplayProtectionRequest B J)
      → IngestionOutcome J × IngestionState J W
  check_replay verification event state none = (bad_replay_request, state)
  check_replay verification event state (some request) =
      after_replay verification event state (protect codec request state.rows)

  unfoldable pub after_validation :
      Option WebhookSignatureVerificationResult
      → List (WebhookEvent J)
      → Option (WebhookValidatedEvent J) × W
      → IngestionOutcome J × IngestionState J W
  after_validation verification rows (none, w) = (not_validated, record { rows = rows; world = w })
  after_validation verification rows (some event, w) =
      let state : IngestionState J W = record { rows = rows; world = w } in
      if i.replay_protection_enabled
      then check_replay verification event state (replay_protection_request (replay_request event))
      else store_and_enqueue verification event none state

  unfoldable pub after_verification :
      List (WebhookEvent J)
      → Option WebhookSignatureVerificationResult × W
      → IngestionOutcome J × IngestionState J W
  after_verification rows (none, w) = (not_verified, record { rows = rows; world = w })
  after_verification rows (some verification, w) =
      after_validation (some verification) rows
        (i.event_validator webhook_request (some verification) w)

  unfoldable pub verify_first :
      Option (WebhookIngestionRequest B → W → Option WebhookSignatureVerificationResult × W)
      → IngestionState J W
      → IngestionOutcome J × IngestionState J W
  verify_first (some verify) state =
      after_verification state.rows (verify webhook_request state.world)
  verify_first none state =
      if i.signature_verification_enabled
      then (verifier_required, state)
      else after_validation none state.rows (i.event_validator webhook_request none state.world)

  unfoldable pub ingest_webhook_event : IngestionState J W → IngestionOutcome J × IngestionState J W
  ingest_webhook_event state = verify_first i.verifier state
