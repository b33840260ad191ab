-- ===== src/Tests/Webhooks.antt =====
-- Runs of the idempotency protection of webhooks, of their retry decision and of their job payload.
use fast_api_boilerplate.Base.{
  ◌<◌, ◌↔◌, ◌⊎◌, true, false, List, ℕ, ◌≡◌, refl, String, none, some, [], ◌∷◌, arith, str_eq,
  if◌then◌else◌,
}
use fast_api_boilerplate.Webhooks.Idempotency.{
  IdempotencyKey, WebhookIdempotencyRequest, WebhookIdempotencyMatch, processing, admitted,
  violation, fingerprint_mismatch, admit, scope, idempotency_key, request_fingerprint, protect,
  record_idempotency_key,
}
use fast_api_boilerplate.Webhooks.Processing.{
  WebhookProcessingAttempt, retry, dead_letter, is_any, remaining_attempts, decide_retry,
}
use fast_api_boilerplate.Base.Payloads.{entry, int_value, str_value, dict_value}
use fast_api_boilerplate.Webhooks.Events.{WebhookEvent, WebhookEventStatus}
use fast_api_boilerplate.Webhooks.Processing.JobRequest.{
  WebhookProcessingJobRequest, as_job_payload, from_job_payload, build_processing_job_request,
}
use fast_api_boilerplate.Webhooks.Processing.JobRequest.RoundTrip.{from_job_payload-as_job_payload}
use fast_api_boilerplate.Webhooks.Processing.Decision.{decide_retry-retry_iff}
use fast_api_boilerplate.Webhooks.Idempotency.Window.{
  SameKey, protect-refuses_recorded, protect-admits_unrecordable,
}

-- A body is its own digest.
abbrev digest : String → String
digest body = body

abbrev request_at : ℕ → WebhookIdempotencyRequest String
request_at now = record {
  source = "stripe";
  endpoint_key = "billing";
  raw_body = "paid";
  event_id = some "evt_1";
  delivery_id = none;
  idempotency_window_seconds = 60;
  checked_at = now;
}

abbrev row : IdempotencyKey
row = record {
  id = 1;
  scope = "webhook:stripe:billing";
  key = "event_id:evt_1";
  status = processing;
  request_fingerprint = some "paid";
  expires_at = some 160;
  first_seen_at = 100;
  last_seen_at = 100;
  hit_count = 1;
}

records : record_idempotency_key digest (request_at 100) 1 [] ≡ some (row ∷ [])
unfolding record_idempotency_key
records = refl

same : (now : ℕ) → SameKey digest (request_at 100) (request_at now)
unfolding scope idempotency_key
same now = record { same_scope = refl; same_idempotency_key = refl }

protect-refuses_recorded_example :
    (m : WebhookIdempotencyMatch) × ((protect digest (request_at 150) (row ∷ [])).0 ≡ (
      if str_eq
        (request_fingerprint digest (request_at 100))
        (request_fingerprint digest (request_at 150))
      then violation m
      else fingerprint_mismatch m))
    × (m.existing_record_id ≡ 1)
    × (m.existing_hit_count ≡ 2)
protect-refuses_recorded_example =
    protect-refuses_recorded digest (request_at 100) (request_at 150) 1 [] (row ∷ []) records
      (same 150) (omega arith)

protect-admits_unrecordable_example :
    (protect digest (request_at 161) (row ∷ [])
      ≡ (admitted (admit digest (request_at 161)), row ∷ []))
    × (record_idempotency_key digest (request_at 161) 2 (row ∷ []) ≡ none)
protect-admits_unrecordable_example =
    protect-admits_unrecordable digest (request_at 100) (request_at 161) 1 2 [] (row ∷ []) records
      (same 161) (omega arith)

-- Errors are their own classes here.
abbrev attempt : WebhookProcessingAttempt
attempt = record { webhook_event_id = 1; attempt_number = 1; max_attempts = 3 }

decide_retry-retry_iff_example :
    let decision = (decide_retry str_eq attempt "timeout" [] ("invalid" ∷ [])).retry_decision in
    ((decision ≡ some retry) ↔ (
      (is_any str_eq "timeout" ("invalid" ∷ []) ≡ false)
      × (0 < remaining_attempts attempt)
      × ((◌≡◌ {A = List String} [] []) ⊎ (is_any {C = String} str_eq "timeout" [] ≡ true))))
    × ((decision ≡ some retry) ⊎ (decision ≡ some dead_letter))
decide_retry-retry_iff_example = decide_retry-retry_iff str_eq attempt "timeout" [] ("invalid" ∷ [])

-- The job payload

abbrev received : WebhookEvent String
received = record {
  id = 7;
  source = "stripe";
  endpoint_key = "billing";
  event_type = "invoice.paid";
  status = WebhookEventStatus.acknowledged;
  delivery_id = some "d1";
  event_id = none;
  signature_verified = none;
  payload_content_type = none;
  payload_sha256 = some "paid";
  payload_size_bytes = some 4;
  received_at = 100;
  acknowledged_at = some 100;
  processed_at = none;
  raw_payload = none;
  normalized_payload = none;
  processing_metadata = none;
  processing_error = none;
}

abbrev job_request : WebhookProcessingJobRequest String ℕ
job_request = build_processing_job_request received (some "c1") (some (("try", "1") ∷ []))

-- No text of this payload is read as a number, and every value is a text where one is needed.
from_job_payload-as_job_payload_example :
    from_job_payload (λ text. none) (λ value. "") (as_job_payload job_request) ≡ some job_request
from_job_payload-as_job_payload_example =
    from_job_payload-as_job_payload (λ text. none) (λ value. "") job_request

writes :
    as_job_payload job_request
    ≡ ("webhook_event_id", some (int_value 7))
      ∷ ("source", some (str_value "stripe"))
      ∷ ("endpoint_key", some (str_value "billing"))
      ∷ ("event_type", some (str_value "invoice.paid"))
      ∷ ("correlation_id", some (str_value "c1"))
      ∷ ("delivery_id", some (str_value "d1"))
      ∷ ("payload_sha256", some (str_value "paid"))
      ∷ ("processing_metadata", some (dict_value (("try", "1") ∷ [])))
      ∷ []
unfolding as_job_payload build_processing_job_request entry
writes = refl
