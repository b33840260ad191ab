-- ===== src/Webhooks/Events.antt =====
-- src/app/webhooks/persistence.py over the columns of src/app/core/db/webhook_event.py, with the
-- request of ingestion.py and the verification result of signatures.py that it reads. A value of
-- JSON is of a type `J`; bodies are of a type `B` with the operations of a codec. Times are numbers.
pub mod Media
pub mod Store
use fast_api_boilerplate.Base.{
  ℕ, Bool, true, false, Option, none, some, String, List, [], ◌∷◌, ◌++◌, ◌==◌, if◌then◌else◌,
}
use fast_api_boilerplate.Base.Dict.{Dict, lookup, insert}

-- What is read of and written to a value of JSON. `as_object` is the test for a mapping.
pub record JsonValues (J : Type 0) : Type 0 where
  pub text : String → J
  pub number : ℕ → J
  pub object : Dict J → J
  pub as_object : J → Option (Dict J)

-- `sha256(body).hexdigest()`, `len(body)` and `body.decode(encoding, errors="replace")`, which raises
-- for an encoding that Python does not know: that is `none`.
pub record Codec (B : Type 0) : Type 0 where
  pub sha256 : B → String
  pub size : B → ℕ
  pub decode : String → B → Option String

pub record WebhookIngestionRequest (B : Type 0) : Type 0 where
  pub raw_body : B
  pub content_type : Option String

pub record WebhookSignatureVerificationResult : Type 0 where
  pub provider : String
  pub endpoint_key : String
  pub verified_at : ℕ
  pub signature : Option String
  pub algorithm : Option String
  pub key_id : Option String
  pub signed_at : Option ℕ

pub data WebhookEventStatus : Type 0 where
  received acknowledged rejected enqueued processed failed : WebhookEventStatus

pub record WebhookEvent (J : Type 0) : Type 0 where
  pub id : ℕ
  pub source : String
  pub endpoint_key : String
  pub event_type : String
  pub status : WebhookEventStatus
  pub delivery_id : Option String
  pub event_id : Option String
  pub signature_verified : Option Bool
  pub payload_content_type : Option String
  pub payload_sha256 : Option String
  pub payload_size_bytes : Option ℕ
  pub received_at : ℕ
  pub acknowledged_at : Option ℕ
  pub processed_at : Option ℕ
  pub raw_payload : Option String
  pub normalized_payload : Option (Dict J)
  pub processing_metadata : Option (Dict J)
  pub processing_error : Option String

-- The status is a member of the enum here; `None` stands where the caller leaves a default.
pub record WebhookEventPersistenceRequest (B J : Type 0) : Type 0 where
  pub source : String
  pub endpoint_key : String
  pub event_type : String
  pub webhook_request : WebhookIngestionRequest B
  pub delivery_id : Option String
  pub event_id : Option String
  pub normalized_payload : Option (Dict J)
  pub processing_metadata : Option (Dict J)
  pub signature_verification : Option WebhookSignatureVerificationResult
  pub signature_verified : Option Bool
  pub status : WebhookEventStatus
  pub store_raw_payload : Bool
  pub raw_payload_text : Option String
  pub received_at : Option ℕ

-- `first or second`, for a time or a mapping that may be `None`.
abbrev pub or_time : Option ℕ → ℕ → ℕ
or_time none now = now
or_time (some time) now = time

-- The keyword arguments of `_set_status`.
pub record StatusChange (J : Type 0) : Type 0 where
  pub acknowledged_at : Option ℕ
  pub processed_at : Option ℕ
  pub processing_error : Option String
  pub normalized_payload : Option (Dict J)
  pub processing_metadata : Option (Dict J)

abbrev pub new_or_old : {A : Type 0} → Option A → Option A → Option A
new_or_old none old = old
new_or_old (some new) old = some new

module _ {J : Type 0} where
  -- `mapping or None`
  abbrev pub nonempty : Dict J → Option (Dict J)
  nonempty [] = none
  nonempty (entry ∷ entries) = some (entry ∷ entries)

  abbrev pub dict_of : Option (Dict J) → Dict J
  dict_of none = []
  dict_of (some entries) = entries

  -- `first.update(second)`
  unfoldable pub update : Dict J → Dict J → Dict J
  update entries [] = entries
  update entries ((key, value) ∷ updates) = update (insert key value entries) updates

  unfoldable pub copy_mapping : Option (Dict J) → Option (Dict J)
  copy_mapping none = none
  copy_mapping (some entries) = nonempty entries

  unfoldable pub merge_processing_metadata : Option (Dict J) → Option (Dict J) → Option (Dict J)
  merge_processing_metadata none none = none
  merge_processing_metadata existing updates =
      nonempty (update (dict_of existing) (dict_of updates))

  -- Where there is neither old nor new metadata, `merge_processing_metadata` is `none` as well.
  unfoldable pub set_status : WebhookEvent J → WebhookEventStatus → StatusChange J → WebhookEvent J
  set_status event status change = record event {
    status = status;
    acknowledged_at = new_or_old change.acknowledged_at event.acknowledged_at;
    processed_at = new_or_old change.processed_at event.processed_at;
    processing_error = new_or_old change.processing_error event.processing_error;
    normalized_payload = new_or_old change.normalized_payload event.normalized_payload;
    processing_metadata =
        merge_processing_metadata event.processing_metadata change.processing_metadata;
  }

  abbrev pub no_change : StatusChange J
  no_change = record {
    acknowledged_at = none;
    processed_at = none;
    processing_error = none;
    normalized_payload = none;
    processing_metadata = none;
  }

  unfoldable pub mark_acknowledged :
      ℕ → WebhookEvent J → Option ℕ → Option (Dict J) → WebhookEvent J
  mark_acknowledged now event at metadata =
      set_status event acknowledged (record no_change {
        acknowledged_at = some (or_time at now);
        processing_metadata = metadata;
      })

  unfoldable pub mark_enqueued : WebhookEvent J → Option (Dict J) → WebhookEvent J
  mark_enqueued event metadata =
      set_status event enqueued (record no_change { processing_metadata = metadata })

  unfoldable pub mark_processed :
      ℕ → WebhookEvent J → Option ℕ → Option (Dict J) → Option (Dict J) → WebhookEvent J
  mark_processed now event at payload metadata = set_status event processed (record no_change {
    processed_at = some (or_time at now);
    normalized_payload = payload;
    processing_metadata = metadata;
  })

  unfoldable pub mark_rejected :
      ℕ → WebhookEvent J → Option ℕ → Option String → Option (Dict J) → WebhookEvent J
  mark_rejected now event at error metadata = set_status event rejected (record no_change {
    processed_at = some (or_time at now);
    processing_error = error;
    processing_metadata = metadata;
  })

  unfoldable pub mark_failed :
      ℕ → WebhookEvent J → Option ℕ → Option String → Option (Dict J) → WebhookEvent J
  mark_failed now event at error metadata = set_status event failed (record no_change {
    processed_at = some (or_time at now);
    processing_error = error;
    processing_metadata = metadata;
  })
