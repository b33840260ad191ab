-- ===== src/Webhooks/Processing/JobRequest/RoundTrip.antt =====
-- The worker reads the request that was sent.
use fast_api_boilerplate.Base.{ℕ, ◌≡◌, Option, some, String, []}
use fast_api_boilerplate.Base.Dict.{lookup}
use fast_api_boilerplate.Base.Payloads.{Value, Payload, get, entry, written}
use fast_api_boilerplate.Webhooks.Processing.JobRequest.{
  WebhookProcessingJobRequest, as_job_payload, from_job_payload, request_of, required_int,
  required_str,
}

module _ {J T : Type 0} where
  abbrev optional_entries : WebhookProcessingJobRequest J T → Payload J T
  optional_entries request = entry "correlation_id" request.correlation_id (
      entry "delivery_id" request.delivery_id (
        entry "event_id" request.event_id (
          entry "payload_sha256" request.payload_sha256
            (entry "processing_metadata" request.processing_metadata []))))

  get_correlation_id :
      (request : WebhookProcessingJobRequest J T)
      → get "correlation_id" (optional_entries request) ≡ request.correlation_id
  get_correlation_id request = simp written

  get_delivery_id :
      (request : WebhookProcessingJobRequest J T)
      → get "delivery_id" (optional_entries request) ≡ request.delivery_id
  get_delivery_id request = simp written

  get_event_id :
      (request : WebhookProcessingJobRequest J T)
      → get "event_id" (optional_entries request) ≡ request.event_id
  get_event_id request = simp written

  get_payload_sha256 :
      (request : WebhookProcessingJobRequest J T)
      → get "payload_sha256" (optional_entries request) ≡ request.payload_sha256
  get_payload_sha256 request = simp written

  get_processing_metadata :
      (request : WebhookProcessingJobRequest J T)
      → get "processing_metadata" (optional_entries request) ≡ request.processing_metadata
  get_processing_metadata request = simp written

  -- The worker's `from_job_payload` gives back every request that `as_job_payload` has written.
  pub from_job_payload-as_job_payload :
      (parse_int : String → Option ℕ) (show : Option (Value J T) → String)
      (request : WebhookProcessingJobRequest J T)
      → from_job_payload parse_int show (as_job_payload request) ≡ some request
  unfolding from_job_payload as_job_payload required_int required_str request_of get lookup
  from_job_payload-as_job_payload parse_int show request = λ i. some (record {
    webhook_event_id = request.webhook_event_id;
    source = request.source;
    endpoint_key = request.endpoint_key;
    event_type = request.event_type;
    correlation_id = get_correlation_id request i;
    delivery_id = get_delivery_id request i;
    event_id = get_event_id request i;
    payload_sha256 = get_payload_sha256 request i;
    processing_metadata = get_processing_metadata request i;
  })
