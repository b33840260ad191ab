-- ===== src/Webhooks/Ingestion/Redelivery.antt =====
-- A webhook that is delivered again.
use text.Mathlib.TextPositions.{eq_refl}
use fast_api_boilerplate.Base.{
  ℕ, ◌+◌, ◌≤◌, ◌≡◌, refl, ◌∙◌, ◌⊎◌, inl, inr, Bool, true, Option, none, some, String, List, ◌∷◌,
  ◌++◌, ◌&&◌, ◌||◌, arith, Bool-cases, if◌then◌else◌, str_eq, eq_iff,
}
use fast_api_boilerplate.Webhooks.Events.{
  JsonValues, Codec, WebhookIngestionRequest, WebhookSignatureVerificationResult, WebhookEvent,
}
use fast_api_boilerplate.Webhooks.Replay.{
  WebhookValidatedEvent, WebhookReplayProtectionRequest, WebhookReplayMatch, refuse,
  replay_protection_request, in_scope, is_replay_of, has_identifier, is_same,
  is_fingerprint_mismatch,
}
use fast_api_boilerplate.Webhooks.Replay.Refusal.{protect-refuse}
use fast_api_boilerplate.Webhooks.Ingestion.{Ingestion, IngestionOutcome}
use fast_api_boilerplate.Webhooks.Ingestion.Steps.{
  IngestionState, replay_request, after_replay, check_replay, after_validation, after_verification,
  verify_first, ingest_webhook_event,
}
use fast_api_boilerplate.Webhooks.Ingestion.Recorded.{
  IsRowOf, Refused, unverified, no_verifier, invalid, bad_request, seen,
}

-- Identifiers, or in their absence another test, answer to themselves.
identified :
    (delivery_id event_id : Option String) (fallback : Bool)
    → fallback ≡ true
    → (if has_identifier delivery_id event_id
        then is_same delivery_id delivery_id || is_same event_id event_id
        else fallback)
      ≡ true
unfolding has_identifier
identified (some d) e fallback h = simp eq_refl
identified none (some e) fallback h = simp eq_refl
identified none none fallback h = h

module _ {B J W : Type 0} (json : JsonValues J) (codec : Codec B) (i : Ingestion B J W)
    (webhook_request : WebhookIngestionRequest B) (correlation_id : Option String)
    (id now : ℕ) where
  in_scope-row :
      (row : WebhookEvent J) (event : WebhookValidatedEvent J) (first first_id : ℕ)
      → IsRowOf json codec i webhook_request correlation_id first_id first row event
      → now ≤ first + i.replay_window_seconds
      → in_scope codec (replay_request json codec i webhook_request correlation_id id now event) row
        ≡ true
  unfolding in_scope replay_request
  in_scope-row row event first first_id h soon = ground (
    arith,
    h.has_source,
    h.has_endpoint,
    h.is_received,
    eq_iff row.source i.source,
    eq_iff row.endpoint_key i.endpoint_key,
  )

  is_replay_of-row :
      (row : WebhookEvent J) (event : WebhookValidatedEvent J) (first first_id : ℕ)
      → IsRowOf json codec i webhook_request correlation_id first_id first row event
      → is_replay_of codec
          (replay_request json codec i webhook_request correlation_id id now event)
          row
        ≡ true
  unfolding is_replay_of replay_request has_identifier
  is_replay_of-row row event first first_id h =
      let digest = codec.sha256 webhook_request.raw_body in
      let fallback : (str_eq row.event_type event.event_type
            && is_same (some digest) row.payload_sha256)
          ≡ true =
        rw h.has_digest (
          ground
            (arith, h.has_type, eq_iff row.event_type event.event_type, eq_iff digest digest)) in
      rw (h.has_delivery, h.has_event) (identified event.delivery_id event.event_id _ fallback)

  Refused-after_replay :
      (verification : Option WebhookSignatureVerificationResult) (event : WebhookValidatedEvent J)
      (state : IngestionState J W) (m : WebhookReplayMatch)
      → let r =
          after_replay json codec i webhook_request correlation_id id now verification event state
            (refuse m) in
        Refused r.0 × (r.1.rows ≡ state.rows)
  unfolding after_replay refuse
  Refused-after_replay verification event state m = elim (Bool-cases (is_fingerprint_mismatch m)) [
    | inl differs ↦ simp differs (seen _, refl)
    | inr agrees ↦ simp agrees (seen _, refl)
  ]

  accepted_request :
      (payload : WebhookReplayProtectionRequest B J)
      → (replay_protection_request payload ≡ none)
        ⊎ (replay_protection_request payload ≡ some payload)
  unfolding replay_protection_request
  accepted_request payload = ground arith

  module _ (row : WebhookEvent J) (event : WebhookValidatedEvent J) (first first_id : ℕ)
      (newer older : List (WebhookEvent J))
      (is_row : IsRowOf json codec i webhook_request correlation_id first_id first row event)
      (soon : now ≤ first + i.replay_window_seconds) (on : i.replay_protection_enabled ≡ true) where
    -- An outcome that stores nothing.
    abbrev Turned : IngestionOutcome J × IngestionState J W → Type 0
    Turned r = Refused r.0 × (r.1.rows ≡ newer ++ row ∷ older)

    Turned-check_replay :
        (verification : Option WebhookSignatureVerificationResult) (state : IngestionState J W)
        → state.rows ≡ newer ++ row ∷ older
        → Turned (
            check_replay json codec i webhook_request correlation_id id now verification event state
              (replay_protection_request
                (replay_request json codec i webhook_request correlation_id id now event)))
    unfolding check_replay
    Turned-check_replay verification state same =
        let payload = replay_request json codec i webhook_request correlation_id id now event in
        elim (accepted_request payload) [
          | inl raises ↦ simp raises (bad_request, same)
          | inr accepted ↦
              let (m, refuses) =
                protect-refuse codec payload newer row older
                  (in_scope-row row event first first_id is_row soon)
                  (is_replay_of-row row event first first_id is_row) in
              let (stops, kept) = Refused-after_replay verification event state m in
              simp (accepted, same, refuses) (stops, kept ∙ same)
        ]

    Turned-after_validation :
        (verification : Option WebhookSignatureVerificationResult)
        (validated : Option (WebhookValidatedEvent J) × W)
        → ((other : WebhookValidatedEvent J) → validated.0 ≡ some other → other ≡ event)
        → Turned (
            after_validation json codec i webhook_request correlation_id id now verification
              (newer ++ row ∷ older)
              validated)
    unfolding after_validation
    Turned-after_validation verification (none, w) steady = (invalid, refl)
    Turned-after_validation verification (some other, w) steady =
        let same = steady other refl in
        simp (on, same)
          (Turned-check_replay verification (record { rows = newer ++ row ∷ older; world = w })
            refl)

    Turned-verify_first :
        (verifier : Option
          (WebhookIngestionRequest B → W → Option WebhookSignatureVerificationResult × W))
        (w : W)
        → ((verification : Option WebhookSignatureVerificationResult) (v : W)
              (other : WebhookValidatedEvent J)
            → (i.event_validator webhook_request verification v).0 ≡ some other
            → other ≡ event)
        → Turned (
            verify_first json codec i webhook_request correlation_id id now verifier
              (record { rows = newer ++ row ∷ older; world = w }))
    unfolding verify_first after_verification
    Turned-verify_first none w steady = elim (Bool-cases i.signature_verification_enabled) [
      | inl wanted ↦ simp wanted (no_verifier, refl)
      | inr unwanted ↦
          simp unwanted (
            Turned-after_validation none (i.event_validator webhook_request none w) (steady none w))
    ]
    Turned-verify_first (some verify) w steady = go (verify webhook_request w)
      where
        go :
            (verified : Option WebhookSignatureVerificationResult × W)
            → Turned (
                after_verification json codec i webhook_request correlation_id id now
                  (newer ++ row ∷ older)
                  verified)
        go (none, v) = (unverified, refl)
        go (some verification, v) =
            Turned-after_validation (some verification)
              (i.event_validator webhook_request (some verification) v)
              (steady (some verification) v)

-- With replay protection on, a webhook whose row an ingestion has left in the table, wherever it stands
-- there by now and be it `enqueued` or `failed`, is refused when it is delivered again within the
-- window, if the validator reads the same event from the request whenever it reads one: the second
-- ingestion raises one of the errors that precede the storing, and the table stays as it is.
pub ingest_webhook_event-redelivered :
    {B J W : Type 0} (json : JsonValues J) (codec : Codec B) (i : Ingestion B J W)
    (webhook_request : WebhookIngestionRequest B) (correlation_id : Option String)
    (id id' now now' : ℕ) (row : WebhookEvent J) (event : WebhookValidatedEvent J)
    (newer older : List (WebhookEvent J)) (w : W)
    → IsRowOf json codec i webhook_request correlation_id id now row event
    → ((verification : Option WebhookSignatureVerificationResult) (v : W)
          (other : WebhookValidatedEvent J)
        → (i.event_validator webhook_request verification v).0 ≡ some other
        → other ≡ event)
    → i.replay_protection_enabled ≡ true
    → now' ≤ now + i.replay_window_seconds
    → let (outcome, state) =
        ingest_webhook_event json codec i webhook_request correlation_id id' now'
          (record { rows = newer ++ row ∷ older; world = w }) in
      Refused outcome × (state.rows ≡ newer ++ row ∷ older)
unfolding ingest_webhook_event
ingest_webhook_event-redelivered json codec i webhook_request correlation_id id id' now now' row
      event newer older w is_row steady on soon =
    Turned-verify_first json codec i webhook_request correlation_id id' now' row event now id newer
      older is_row soon on i.verifier w steady
