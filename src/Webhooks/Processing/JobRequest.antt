-- ===== src/Webhooks/Processing/JobRequest.antt =====
-- src/app/webhooks/processing.py: the request that goes to the worker as a job's payload.
-- `int(text)` is the argument `parse_int`, and `show` is `str` of a value that is no text. An
-- optional field holds whatever value the payload has; `dict(processing_metadata)` is a copy, also of
-- a value that is no dict, which the annotation excludes.
pub mod RoundTrip
use fast_api_boilerplate.Base.{
  ℕ, Bool, true, false, Option, none, some, String, List, [], ◌∷◌, ◌++◌, is_some,
}
use fast_api_boilerplate.Base.Dict.{Dict, lookup}
use fast_api_boilerplate.Base.Payloads.{
  Value, int_value, str_value, dict_value, Payload, get, entry, text_value,
}
use fast_api_boilerplate.Webhooks.Events.{WebhookEvent}

module _ (J T : Type 0) where
  pub record WebhookProcessingJobRequest : Type 0 where
    pub webhook_event_id : ℕ
    pub source : String
    pub endpoint_key : String
    pub event_type : String
    pub correlation_id : Option (Value J T)
    pub delivery_id : Option (Value J T)
    pub event_id : Option (Value J T)
    pub payload_sha256 : Option (Value J T)
    pub processing_metadata : Option (Value J T)

module _ {J T : Type 0} where
  unfoldable pub as_job_payload : WebhookProcessingJobRequest J T → Payload J T
  as_job_payload request =
      ("webhook_event_id", some (int_value request.webhook_event_id))
      ∷ ("source", some (str_value request.source))
      ∷ ("endpoint_key", some (str_value request.endpoint_key))
      ∷ ("event_type", some (str_value request.event_type))
      ∷ entry "correlation_id" request.correlation_id (
          entry "delivery_id" request.delivery_id (
            entry "event_id" request.event_id (
              entry "payload_sha256" request.payload_sha256
                (entry "processing_metadata" request.processing_metadata []))))

  module _ (parse_int : String → Option ℕ) (show : Option (Value J T) → String) where
    abbrev to_int : Option (Value J T) → Option ℕ
    to_int (some (int_value n)) = some n
    to_int (some (str_value s)) = parse_int s
    to_int _ = none

    abbrev to_str : Option (Value J T) → String
    to_str (some (str_value s)) = s
    to_str value = show value

    -- `payload[key]`: `none` is a `KeyError`.
    unfoldable pub required_int : String → Payload J T → Option ℕ
    required_int key payload = elim (lookup key payload) [ none ↦ none | some value ↦ to_int value ]

    unfoldable pub required_str : String → Payload J T → Option String
    required_str key payload = elim (lookup key payload) [
      | none ↦ none
      | some value ↦ some (to_str value)
    ]

    unfoldable pub request_of :
        Option ℕ
        → Option String
        → Option String
        → Option String
        → Payload J T
        → Option (WebhookProcessingJobRequest J T)
    request_of (some webhook_event_id) (some source) (some endpoint_key) (some event_type) payload =
        some (record {
          webhook_event_id = webhook_event_id;
          source = source;
          endpoint_key = endpoint_key;
          event_type = event_type;
          correlation_id = get "correlation_id" payload;
          delivery_id = get "delivery_id" payload;
          event_id = get "event_id" payload;
          payload_sha256 = get "payload_sha256" payload;
          processing_metadata = get "processing_metadata" payload;
        })
    request_of _ _ _ _ payload = none

    unfoldable pub from_job_payload : Payload J T → Option (WebhookProcessingJobRequest J T)
    from_job_payload payload =
        request_of (required_int "webhook_event_id" payload) (required_str "source" payload)
          (required_str "endpoint_key" payload) (required_str "event_type" payload) payload

  abbrev nonempty_object : Option (Dict J) → Option (Value J T)
  nonempty_object (some (item ∷ items)) = some (dict_value (item ∷ items))
  nonempty_object _ = none

  unfoldable pub build_processing_job_request :
      WebhookEvent J → Option String → Option (Dict J) → WebhookProcessingJobRequest J T
  build_processing_job_request event correlation_id extra_metadata = record {
    webhook_event_id = event.id;
    source = event.source;
    endpoint_key = event.endpoint_key;
    event_type = event.event_type;
    correlation_id = text_value correlation_id;
    delivery_id = text_value event.delivery_id;
    event_id = text_value event.event_id;
    payload_sha256 = text_value event.payload_sha256;
    processing_metadata = nonempty_object extra_metadata;
  }
