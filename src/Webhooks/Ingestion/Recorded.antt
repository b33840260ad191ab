-- ===== src/Webhooks/Ingestion/Recorded.antt =====
-- Which row an ingestion leaves in the table, if it leaves one.
use fast_api_boilerplate.Base.{ℕ, ◌≡◌, Option, some, String, List, ◌∷◌}
use fast_api_boilerplate.Webhooks.Events.{
  JsonValues, Codec, WebhookIngestionRequest, WebhookSignatureVerificationResult, WebhookEvent,
  WebhookEventStatus,
}
use fast_api_boilerplate.Webhooks.Replay.{WebhookValidatedEvent, ReplayCheck}
use fast_api_boilerplate.Webhooks.Ingestion.{
  Ingestion, IngestionOutcome, ingested, not_verified, verifier_required, not_validated,
  bad_replay_request, replayed, unknown_charset, enqueue_failed, WebhookIngestionResult,
}
use fast_api_boilerplate.Webhooks.Ingestion.Steps.{IngestionState}

-- The outcome of an ingestion, with the status of its row.
pub data Ends {J : Type 0} : IngestionOutcome J → WebhookEventStatus → Type 0 where
  queued : (result : WebhookIngestionResult J) → Ends (ingested result) WebhookEventStatus.enqueued
  unqueued : Ends enqueue_failed WebhookEventStatus.failed

-- An exception before the event is stored.
pub data Refused {J : Type 0} : IngestionOutcome J → Type 0 where
  unverified : Refused not_verified
  no_verifier : Refused verifier_required
  invalid : Refused not_validated
  bad_request : Refused bad_replay_request
  seen : (check : ReplayCheck) → Refused (replayed check)
  undecoded : Refused unknown_charset

module _ {B J W : Type 0} (json : JsonValues J) (codec : Codec B) (i : Ingestion B J W)
    (webhook_request : WebhookIngestionRequest B) (correlation_id : Option String)
    (id now : ℕ) where
  -- The row of an event: what was sent, for whom, and when it was stored and acknowledged.
  pub record IsRowOf (row : WebhookEvent J) (event : WebhookValidatedEvent J) : Type 0 where
    pub has_id : row.id ≡ id
    pub has_source : row.source ≡ i.source
    pub has_endpoint : row.endpoint_key ≡ i.endpoint_key
    pub has_type : row.event_type ≡ event.event_type
    pub has_delivery : row.delivery_id ≡ event.delivery_id
    pub has_event : row.event_id ≡ event.event_id
    pub has_digest : row.payload_sha256 ≡ some (codec.sha256 webhook_request.raw_body)
    pub is_received : row.received_at ≡ now
    pub is_acknowledged : row.acknowledged_at ≡ some now

  -- The validator has returned this event for the request.
  pub record Validated (event : WebhookValidatedEvent J) : Type 0 where
    pub verification : Option WebhookSignatureVerificationResult
    pub world : W
    pub returns : (i.event_validator webhook_request verification world).0 ≡ some event

  -- An ingestion is refused and leaves the rows alone, or it leaves one new row.
  pub data Recorded (rows : List (WebhookEvent J)) (r : IngestionOutcome J × IngestionState J W)
      : Type 0 where
    refused : Refused r.0 → r.1.rows ≡ rows → Recorded rows r
    recorded :
        (row : WebhookEvent J) (event : WebhookValidatedEvent J)
        → Validated event
        → r.1.rows ≡ row ∷ rows
        → IsRowOf row event
        → Ends r.0 row.status
        → Recorded rows r
