-- ===== src/Webhooks/Replay.antt =====
-- src/app/webhooks/replay.py. The session is the list of the table's rows.
pub mod Refusal
use fast_api_boilerplate.Base.{
  ℕ, ◌+◌, Bool, true, false, Option, none, some, String, List, [], ◌∷◌, ◌++◌, ◌==◌, leb, ltb, ◌&&◌,
  ◌||◌, not, str_eq, if◌then◌else◌,
}
use fast_api_boilerplate.Base.Dict.{Dict}
use fast_api_boilerplate.Base.Strings.{strip}
use fast_api_boilerplate.Webhooks.Events.{
  JsonValues, Codec, WebhookIngestionRequest, WebhookEvent, WebhookEventStatus,
}

pub data WebhookReplayKeyKind : Type 0 where
  by_delivery_id by_event_id by_payload_sha256 : WebhookReplayKeyKind

pub record WebhookValidatedEvent (J : Type 0) : Type 0 where
  pub event_type : String
  pub event_id : Option String
  pub delivery_id : Option String
  pub normalized_payload : Option (Dict J)
  pub processing_metadata : Option (Dict J)

pub record WebhookReplayProtectionRequest (B J : Type 0) : Type 0 where
  pub source : String
  pub endpoint_key : String
  pub webhook_request : WebhookIngestionRequest B
  pub validated_event : WebhookValidatedEvent J
  pub replay_window_seconds : ℕ
  pub checked_at : ℕ

-- `__post_init__`: `none` is a `ValueError`.
unfoldable pub replay_protection_request :
    {B J : Type 0}
    → WebhookReplayProtectionRequest B J
    → Option (WebhookReplayProtectionRequest B J)
replay_protection_request payload =
    if str_eq (strip payload.source) ""
    then none
    else if str_eq (strip payload.endpoint_key) ""
    then none
    else if ltb payload.replay_window_seconds 1
    then none
    else some payload

pub record WebhookReplayProtectionResult : Type 0 where
  pub source : String
  pub endpoint_key : String
  pub event_type : String
  pub key_kind : WebhookReplayKeyKind
  pub key_value : String
  pub payload_sha256 : String
  pub replay_window_seconds : ℕ
  pub checked_at : ℕ
  pub delivery_id : Option String
  pub event_id : Option String

pub record WebhookReplayMatch : Type 0 where
  pub source : String
  pub endpoint_key : String
  pub matched_on : List WebhookReplayKeyKind
  pub existing_event_id : ℕ
  pub existing_status : WebhookEventStatus
  pub existing_received_at : ℕ
  pub existing_payload_sha256 : Option String
  pub candidate_payload_sha256 : String
  pub delivery_id : Option String
  pub event_id : Option String

-- What `protect` does: it returns, or raises one of the two errors.
pub data ReplayCheck : Type 0 where
  passed : WebhookReplayProtectionResult → ReplayCheck
  replay_detected fingerprint_mismatch : WebhookReplayMatch → ReplayCheck

-- An identifier that is there, and equal to a column.
abbrev pub is_same : Option String → Option String → Bool
is_same (some value) (some column) = str_eq column value
is_same _ _ = false

unfoldable pub primary_key_kind : Option String → Option String → WebhookReplayKeyKind
primary_key_kind (some delivery_id) event_id = by_delivery_id
primary_key_kind none (some event_id) = by_event_id
primary_key_kind none none = by_payload_sha256

abbrev pub or_digest : String → String → String
or_digest value digest = if str_eq value "" then digest else value

unfoldable pub primary_key_value : Option String → Option String → String → String
primary_key_value (some delivery_id) event_id digest = or_digest delivery_id digest
primary_key_value none (some event_id) digest = or_digest event_id digest
primary_key_value none none digest = digest

abbrev is_payload : WebhookReplayKeyKind → Bool
is_payload by_payload_sha256 = true
is_payload _ = false

unfoldable pub on_payload : List WebhookReplayKeyKind → Bool
on_payload [] = false
on_payload (kind ∷ kinds) = is_payload kind || on_payload kinds

unfoldable pub is_fingerprint_mismatch : WebhookReplayMatch → Bool
is_fingerprint_mismatch m =
    if on_payload m.matched_on then false else elim (m.existing_payload_sha256) [
      | none ↦ false
      | some digest ↦ not (str_eq digest m.candidate_payload_sha256)
    ]

abbrev when : Bool → WebhookReplayKeyKind → List WebhookReplayKeyKind
when true kind = kind ∷ []
when false kind = []

abbrev or_kinds : List WebhookReplayKeyKind → List WebhookReplayKeyKind → List WebhookReplayKeyKind
or_kinds [] kinds = kinds
or_kinds (kind ∷ rest) kinds = kind ∷ rest

unfoldable pub has_identifier : Option String → Option String → Bool
has_identifier none none = false
has_identifier _ _ = true

unfoldable pub refuse : WebhookReplayMatch → ReplayCheck
refuse m = if is_fingerprint_mismatch m then fingerprint_mismatch m else replay_detected m

module _ {B J : Type 0} (codec : Codec B) where
  abbrev digest : WebhookReplayProtectionRequest B J → String
  digest payload = codec.sha256 payload.webhook_request.raw_body

  -- `received_at >= checked_at - window` is written with a sum.
  unfoldable pub in_scope : WebhookReplayProtectionRequest B J → WebhookEvent J → Bool
  in_scope payload row =
      str_eq row.source payload.source
      && str_eq row.endpoint_key payload.endpoint_key
      && leb payload.checked_at (row.received_at + payload.replay_window_seconds)

  unfoldable pub is_replay_of : WebhookReplayProtectionRequest B J → WebhookEvent J → Bool
  is_replay_of payload row =
      let event = payload.validated_event in
      if has_identifier event.delivery_id event.event_id
      then is_same event.delivery_id row.delivery_id || is_same event.event_id row.event_id
      else str_eq row.event_type event.event_type
        && is_same (some (digest payload)) row.payload_sha256

  -- The order of the query: the later row first, and the one with the larger id among such.
  abbrev is_later : WebhookEvent J → WebhookEvent J → Bool
  is_later row other =
      ltb row.received_at other.received_at
      || (row.received_at == other.received_at && ltb row.id other.id)

  abbrev later_of : WebhookEvent J → Option (WebhookEvent J) → Option (WebhookEvent J)
  later_of row none = some row
  later_of row (some other) = if is_later row other then some other else some row

  unfoldable pub find_existing_event :
      WebhookReplayProtectionRequest B J → List (WebhookEvent J) → Option (WebhookEvent J)
  find_existing_event payload [] = none
  find_existing_event payload (row ∷ rows) =
      let rest = find_existing_event payload rows in
      if in_scope payload row && is_replay_of payload row then later_of row rest else rest

  unfoldable pub matched_on :
      WebhookReplayProtectionRequest B J → WebhookEvent J → List WebhookReplayKeyKind
  matched_on payload row =
      let event = payload.validated_event in
      let identifiers =
        when (is_same event.delivery_id row.delivery_id) by_delivery_id
        ++ when (is_same event.event_id row.event_id) by_event_id in
      or_kinds
        (or_kinds identifiers
          (when (is_same (some (digest payload)) row.payload_sha256) by_payload_sha256))
        (primary_key_kind event.delivery_id event.event_id ∷ [])

  unfoldable pub build_match :
      WebhookReplayProtectionRequest B J → WebhookEvent J → WebhookReplayMatch
  build_match payload row = record {
    source = payload.source;
    endpoint_key = payload.endpoint_key;
    matched_on = matched_on payload row;
    existing_event_id = row.id;
    existing_status = row.status;
    existing_received_at = row.received_at;
    existing_payload_sha256 = row.payload_sha256;
    candidate_payload_sha256 = digest payload;
    delivery_id = payload.validated_event.delivery_id;
    event_id = payload.validated_event.event_id;
  }

  unfoldable pub pass : WebhookReplayProtectionRequest B J → WebhookReplayProtectionResult
  pass payload =
      let event = payload.validated_event in
      record {
        source = payload.source;
        endpoint_key = payload.endpoint_key;
        event_type = event.event_type;
        key_kind = primary_key_kind event.delivery_id event.event_id;
        key_value = primary_key_value event.delivery_id event.event_id (digest payload);
        payload_sha256 = digest payload;
        replay_window_seconds = payload.replay_window_seconds;
        checked_at = payload.checked_at;
        delivery_id = event.delivery_id;
        event_id = event.event_id;
      }

  unfoldable pub protect_found :
      WebhookReplayProtectionRequest B J → Option (WebhookEvent J) → ReplayCheck
  protect_found payload none = passed (pass payload)
  protect_found payload (some row) = refuse (build_match payload row)

  unfoldable pub protect : WebhookReplayProtectionRequest B J → List (WebhookEvent J) → ReplayCheck
  protect payload rows = protect_found payload (find_existing_event payload rows)
