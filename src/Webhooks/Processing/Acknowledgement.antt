-- ===== src/Webhooks/Processing/Acknowledgement.antt =====
-- src/app/webhooks/processing.py: the acknowledgement that the route returns, and the snapshot of a
-- stored payload. A result is built at the time `now`.
use fast_api_boilerplate.Base.{ℕ, ◌≡◌, Bool, Option, none, some, String, [], ◌∷◌, is_some}
use fast_api_boilerplate.Base.Dict.{Dict, lookup}
use fast_api_boilerplate.Base.Payloads.{
  Value, int_value, str_value, Payload, get, entry, text_value, written,
}
use fast_api_boilerplate.Webhooks.Events.{WebhookEvent, nonempty}

pub data WebhookAcknowledgementPolicy : Type 0 where
  immediate deferred : WebhookAcknowledgementPolicy

pub record WebhookAcknowledgementResult : Type 0 where
  pub status : String
  pub event_id : Option ℕ
  pub correlation_id : Option String
  pub policy : WebhookAcknowledgementPolicy
  pub acknowledged_at : ℕ

module _ {J T : Type 0} where
  abbrev id_value : Option ℕ → Option (Value J T)
  id_value none = none
  id_value (some id) = some (int_value id)

  unfoldable pub as_response_body : WebhookAcknowledgementResult → Payload J T
  as_response_body result =
      ("status", some (str_value result.status))
      ∷ entry "event_id" (id_value result.event_id)
          (entry "correlation_id" (text_value result.correlation_id) [])

unfoldable pub build_webhook_ack_response :
    {J : Type 0}
    → WebhookEvent J
    → Option String
    → WebhookAcknowledgementPolicy
    → ℕ
    → WebhookAcknowledgementResult
build_webhook_ack_response event correlation_id policy now = record {
  status = "accepted";
  event_id = some event.id;
  correlation_id = correlation_id;
  policy = policy;
  acknowledged_at = now;
}

pub record WebhookPayloadSnapshot (J : Type 0) : Type 0 where
  pub raw_payload : Option String
  pub normalized_payload : Option (Dict J)
  pub content_type : Option String
  pub payload_sha256 : Option String
  pub payload_size_bytes : Option ℕ
  pub stored_at : ℕ

module _ {J : Type 0} where
  unfoldable pub has_raw_payload : WebhookPayloadSnapshot J → Bool
  has_raw_payload snapshot = is_some snapshot.raw_payload

  unfoldable pub has_normalized_payload : WebhookPayloadSnapshot J → Bool
  has_normalized_payload snapshot = is_some snapshot.normalized_payload

  -- An empty mapping is no payload here.
  abbrev payload_copy : Option (Dict J) → Option (Dict J)
  payload_copy none = none
  payload_copy (some payload) = nonempty payload

  unfoldable pub build_payload_snapshot : WebhookEvent J → ℕ → WebhookPayloadSnapshot J
  build_payload_snapshot event now = record {
    raw_payload = event.raw_payload;
    normalized_payload = payload_copy event.normalized_payload;
    content_type = event.payload_content_type;
    payload_sha256 = event.payload_sha256;
    payload_size_bytes = event.payload_size_bytes;
    stored_at = now;
  }

module _ {J T : Type 0} where
  get_event_id :
      (event_id correlation_id : Option (Value J T))
      → get "event_id" (entry "event_id" event_id (entry "correlation_id" correlation_id []))
        ≡ event_id
  get_event_id event_id correlation_id = simp written

  get_correlation_id :
      (event_id correlation_id : Option (Value J T))
      → get "correlation_id" (entry "event_id" event_id (entry "correlation_id" correlation_id []))
        ≡ correlation_id
  get_correlation_id event_id correlation_id = simp written

  -- The body of an acknowledgement names the stored row, and the correlation id where there is one.
  pub as_response_body-build_webhook_ack_response :
      (event : WebhookEvent J) (correlation_id : Option String)
      (policy : WebhookAcknowledgementPolicy) (now : ℕ)
      → let body =
          as_response_body {J = J} {T = T}
            (build_webhook_ack_response event correlation_id policy now) in
        (get "event_id" body ≡ some (int_value event.id))
        × (get "correlation_id" body ≡ text_value correlation_id)
  unfolding as_response_body build_webhook_ack_response get lookup
  as_response_body-build_webhook_ack_response event correlation_id policy now =
      (get_event_id _ _, get_correlation_id (some (int_value event.id)) (text_value correlation_id))
