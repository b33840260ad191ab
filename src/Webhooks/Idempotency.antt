-- ===== src/Webhooks/Idempotency.antt =====
-- src/app/webhooks/idempotency.py and the table of src/app/core/db/idempotency_key.py.
-- The session is the list of the table's rows in the order of their insertion; a flush that breaks
-- the constraint `uq_idempotency_key_scope_key` is `none`. `sha256(...).hexdigest()` is the
-- argument `sha256` on bodies of a type `B`. Times and windows are numbers of seconds, and the columns
-- that this code neither reads nor sets are left out.
pub mod Window
use Prim.Native.String.{◌++◌ as append}
use fast_api_boilerplate.Base.{
  ℕ, zero, suc, ◌+◌, Bool, true, false, Option, none, some, String, List, [], ◌∷◌, ◌++◌, ◌==◌, leb,
  ltb, ◌&&◌, ◌||◌, not, str_eq, if◌then◌else◌,
}

pub data IdempotencyKeyStatus : Type 0 where
  received processing completed failed expired : IdempotencyKeyStatus

pub record IdempotencyKey : Type 0 where
  pub id : ℕ
  pub scope : String
  pub key : String
  pub status : IdempotencyKeyStatus
  pub request_fingerprint : Option String
  pub expires_at : Option ℕ
  pub first_seen_at : ℕ
  pub last_seen_at : ℕ
  pub hit_count : ℕ

pub record WebhookIdempotencyRequest (B : Type 0) : Type 0 where
  pub source : String
  pub endpoint_key : String
  pub raw_body : B
  pub event_id : Option String
  pub delivery_id : Option String
  pub idempotency_window_seconds : ℕ
  pub checked_at : ℕ

pub record WebhookIdempotencyResult : Type 0 where
  pub scope : String
  pub idempotency_key : String
  pub request_fingerprint : String
  pub idempotency_window_seconds : ℕ
  pub checked_at : ℕ
  pub event_id : Option String
  pub delivery_id : Option String

pub record WebhookIdempotencyMatch : Type 0 where
  pub scope : String
  pub idempotency_key : String
  pub existing_record_id : ℕ
  pub existing_status : IdempotencyKeyStatus
  pub existing_first_seen_at : ℕ
  pub existing_hit_count : ℕ
  pub request_fingerprint : Option String
  pub candidate_fingerprint : String

pub data Protected : Type 0 where
  admitted : WebhookIdempotencyResult → Protected
  violation fingerprint_mismatch : WebhookIdempotencyMatch → Protected

-- `hit_count or 1`
or_one : ℕ → ℕ
or_one zero = 1
or_one (suc n) = suc n

is_fingerprint_mismatch : WebhookIdempotencyMatch → Bool
is_fingerprint_mismatch m = elim (m.request_fingerprint) [
  | none ↦ false
  | some fingerprint ↦ not (str_eq fingerprint m.candidate_fingerprint)
]

-- A change of the attributes of a loaded row, found by its primary key.
unfoldable pub store : IdempotencyKey → List IdempotencyKey → List IdempotencyKey
store record' [] = []
store record' (row ∷ rows) =
    let rest = store record' rows in if row.id == record'.id then record' ∷ rest else row ∷ rest

module _ {B : Type 0} (sha256 : B → String) where
  unfoldable pub scope : WebhookIdempotencyRequest B → String
  scope payload = append "webhook:" (append payload.source (append ":" payload.endpoint_key))

  unfoldable pub request_fingerprint : WebhookIdempotencyRequest B → String
  request_fingerprint payload = sha256 payload.raw_body

  key_of : Option String → Option String → String → String
  key_of (some event_id) delivery_id fingerprint = append "event_id:" event_id
  key_of none (some delivery_id) fingerprint = append "delivery_id:" delivery_id
  key_of none none fingerprint = append "payload_sha256:" fingerprint

  unfoldable pub idempotency_key : WebhookIdempotencyRequest B → String
  unfolding key_of request_fingerprint
  idempotency_key payload =
      key_of payload.event_id payload.delivery_id (request_fingerprint payload)

  -- `first_seen_at >= checked_at - window` is written with a sum.
  in_window : WebhookIdempotencyRequest B → IdempotencyKey → Bool
  in_window payload row =
      leb payload.checked_at (row.first_seen_at + payload.idempotency_window_seconds)

  same_key : WebhookIdempotencyRequest B → IdempotencyKey → Bool
  unfolding scope idempotency_key
  same_key payload row =
      str_eq row.scope (scope payload) && str_eq row.key (idempotency_key payload)

  -- The selected row with the latest `first_seen_at`.
  find_existing_record : WebhookIdempotencyRequest B → List IdempotencyKey → Option IdempotencyKey
  unfolding same_key in_window
  find_existing_record payload [] = none
  find_existing_record payload (row ∷ rows) =
      let rest = find_existing_record payload rows in
      if same_key payload row && in_window payload row
      then (elim rest [
        | none ↦ some row
        | some other ↦ if ltb row.first_seen_at other.first_seen_at then some other else some row
      ])
      else rest

  build_match : WebhookIdempotencyRequest B → IdempotencyKey → WebhookIdempotencyMatch
  unfolding scope idempotency_key request_fingerprint
  build_match payload row = record {
    scope = scope payload;
    idempotency_key = idempotency_key payload;
    existing_record_id = row.id;
    existing_status = row.status;
    existing_first_seen_at = row.first_seen_at;
    existing_hit_count = row.hit_count;
    request_fingerprint = row.request_fingerprint;
    candidate_fingerprint = request_fingerprint payload;
  }

  pub admit : WebhookIdempotencyRequest B → WebhookIdempotencyResult
  unfolding scope idempotency_key request_fingerprint
  admit payload = record {
    scope = scope payload;
    idempotency_key = idempotency_key payload;
    request_fingerprint = request_fingerprint payload;
    idempotency_window_seconds = payload.idempotency_window_seconds;
    checked_at = payload.checked_at;
    event_id = payload.event_id;
    delivery_id = payload.delivery_id;
  }

  refuse : WebhookIdempotencyRequest B → IdempotencyKey → Protected
  unfolding build_match is_fingerprint_mismatch
  refuse payload row =
      let m = build_match payload row in
      if is_fingerprint_mismatch m then fingerprint_mismatch m else violation m

  protect_found :
      WebhookIdempotencyRequest B
      → Option IdempotencyKey
      → List IdempotencyKey
      → Protected × List IdempotencyKey
  unfolding admit refuse store or_one
  protect_found payload none rows = (admitted (admit payload), rows)
  protect_found payload (some row) rows =
      let touched = record row {
        hit_count = or_one row.hit_count + 1;
        last_seen_at = payload.checked_at;
      } in
      (refuse payload touched, store touched rows)

  unfoldable pub protect :
      WebhookIdempotencyRequest B → List IdempotencyKey → Protected × List IdempotencyKey
  unfolding find_existing_record protect_found
  protect payload rows = protect_found payload (find_existing_record payload rows) rows

  -- Whether a row has the scope and the key of a new one.
  taken : WebhookIdempotencyRequest B → List IdempotencyKey → Bool
  unfolding same_key
  taken payload [] = false
  taken payload (row ∷ rows) = same_key payload row || taken payload rows

  new_record : WebhookIdempotencyRequest B → ℕ → IdempotencyKey
  unfolding scope idempotency_key request_fingerprint
  new_record payload id = record {
    id = id;
    scope = scope payload;
    key = idempotency_key payload;
    status = processing;
    request_fingerprint = some (request_fingerprint payload);
    expires_at = some (payload.checked_at + payload.idempotency_window_seconds);
    first_seen_at = payload.checked_at;
    last_seen_at = payload.checked_at;
    hit_count = 1;
  }

  -- `id` is the primary key that the database gives out.
  unfoldable pub record_idempotency_key :
      WebhookIdempotencyRequest B → ℕ → List IdempotencyKey → Option (List IdempotencyKey)
  unfolding taken new_record
  record_idempotency_key payload id rows =
      if taken payload rows then none else some (rows ++ (new_record payload id ∷ []))
