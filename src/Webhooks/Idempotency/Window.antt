-- ===== src/Webhooks/Idempotency/Window.antt =====
-- What a recorded key does to later requests, within its window and after it.
use text.Mathlib.TextPositions.{eq_refl}
use fast_api_boilerplate.Base.{
  ℕ, ◌+◌, ◌≤◌, ◌<◌, ◌≡◌, refl, Bool, true, false, none, some, String, List, [], ◌∷◌, ◌++◌, arith,
  str_eq, subst, sym, ap, ◌∙◌, if◌then◌else◌, not,
}
use fast_api_boilerplate.Webhooks.Idempotency.{
  IdempotencyKey, WebhookIdempotencyRequest, WebhookIdempotencyMatch, admitted, violation,
  fingerprint_mismatch, scope, idempotency_key, request_fingerprint, protect, protect_found,
  record_idempotency_key, taken, same_key, in_window, find_existing_record, new_record, refuse,
  or_one, build_match, is_fingerprint_mismatch, admit,
}

negated : {A : Type 0} (x y : A) (b : Bool) → (if not b then y else x) ≡ (if b then x else y)
negated x y true = refl
negated x y false = refl

module _ {B : Type 0} (sha256 : B → String) where
  -- Two requests for one key.
  pub record SameKey (a b : WebhookIdempotencyRequest B) : Type 0 where
    pub same_scope : scope sha256 a ≡ scope sha256 b
    pub same_idempotency_key : idempotency_key sha256 a ≡ idempotency_key sha256 b

  same_key-same :
      (a b : WebhookIdempotencyRequest B) (row : IdempotencyKey)
      → SameKey a b
      → same_key sha256 b row ≡ same_key sha256 a row
  unfolding same_key
  same_key-same a b row h = rw (h.same_scope, h.same_idempotency_key) refl

  taken-same :
      (a b : WebhookIdempotencyRequest B) (rows : List IdempotencyKey)
      → SameKey a b
      → taken sha256 b rows ≡ taken sha256 a rows
  unfolding taken
  taken-same a b [] h = refl
  taken-same a b (row ∷ rows) h = rw (same_key-same a b row h, taken-same a b rows h) refl

  new_record-same_key :
      (a : WebhookIdempotencyRequest B) (id : ℕ) → same_key sha256 a (new_record sha256 a id) ≡ true
  unfolding same_key new_record
  new_record-same_key a id = rw (eq_refl, eq_refl) refl

  find_last :
      (b : WebhookIdempotencyRequest B) (rows : List IdempotencyKey) (row : IdempotencyKey)
      → taken sha256 b rows ≡ false
      → find_existing_record sha256 b (rows ++ (row ∷ []))
        ≡ find_existing_record sha256 b (row ∷ [])
  unfolding find_existing_record taken
  find_last b [] row h = refl
  find_last b (r ∷ rows) row h =
      let other : same_key sha256 b r ≡ false = ground arith in
      let untaken : taken sha256 b rows ≡ false = ground arith in
      rw (other, find_last b rows row untaken) refl

  find_one :
      (b : WebhookIdempotencyRequest B) (row : IdempotencyKey)
      → same_key sha256 b row ≡ true
      → find_existing_record sha256 b (row ∷ [])
        ≡ (if in_window sha256 b row then some row else none)
  unfolding find_existing_record
  find_one b row h = rw h refl

  taken_last :
      (b : WebhookIdempotencyRequest B) (rows : List IdempotencyKey) (row : IdempotencyKey)
      → same_key sha256 b row ≡ true
      → taken sha256 b (rows ++ (row ∷ [])) ≡ true
  unfolding taken
  taken_last b [] row h = ground arith
  taken_last b (r ∷ rows) row h = ground (arith, taken_last b rows row h)

  recorded :
      (a : WebhookIdempotencyRequest B) (id : ℕ) (rows rows' : List IdempotencyKey)
      → record_idempotency_key sha256 a id rows ≡ some rows'
      → (taken sha256 a rows ≡ false) × (rows ++ (new_record sha256 a id ∷ []) ≡ rows')
  unfolding record_idempotency_key
  recorded a id rows rows' h = ground arith

  -- After a key was recorded, the row that a request for it finds, as far as its window reaches.
  find_recorded :
      (a b : WebhookIdempotencyRequest B) (id : ℕ) (rows rows' : List IdempotencyKey)
      → record_idempotency_key sha256 a id rows ≡ some rows'
      → SameKey a b
      → find_existing_record sha256 b rows' ≡ (
          if in_window sha256 b (new_record sha256 a id)
          then some (new_record sha256 a id)
          else none)
  find_recorded a b id rows rows' h k =
      let (untaken, same) = recorded a id rows rows' h in
      sym (ap (find_existing_record sha256 b) same)
      ∙ (find_last b rows (new_record sha256 a id) (taken-same a b rows k ∙ untaken)
          ∙ find_one b (new_record sha256 a id)
              (same_key-same a b (new_record sha256 a id) k ∙ new_record-same_key a id))

  in_window-true :
      (a b : WebhookIdempotencyRequest B) (id : ℕ)
      → b.checked_at ≤ a.checked_at + b.idempotency_window_seconds
      → in_window sha256 b (new_record sha256 a id) ≡ true
  unfolding in_window new_record
  in_window-true a b id h = ground arith

  in_window-false :
      (a b : WebhookIdempotencyRequest B) (id : ℕ)
      → a.checked_at + b.idempotency_window_seconds < b.checked_at
      → in_window sha256 b (new_record sha256 a id) ≡ false
  unfolding in_window new_record
  in_window-false a b id h = ground arith

  still_taken :
      (a b : WebhookIdempotencyRequest B) (id : ℕ) (rows rows' : List IdempotencyKey)
      → record_idempotency_key sha256 a id rows ≡ some rows'
      → SameKey a b
      → taken sha256 b rows' ≡ true
  still_taken a b id rows rows' h k =
      let (untaken, same) = recorded a id rows rows' h in
      subst (λ rs. taken sha256 b rs ≡ true) same
        (taken_last b rows (new_record sha256 a id)
          (same_key-same a b (new_record sha256 a id) k ∙ new_record-same_key a id))

  refused :
      (a b : WebhookIdempotencyRequest B) (id : ℕ) (rows : List IdempotencyKey)
      → (m : WebhookIdempotencyMatch) × ((protect_found sha256 b
            (some (new_record sha256 a id))
            rows).0
          ≡ (if str_eq (request_fingerprint sha256 a) (request_fingerprint sha256 b)
              then violation m
              else fingerprint_mismatch m))
        × (m.existing_record_id ≡ id)
        × (m.existing_hit_count ≡ 2)
  unfolding protect_found refuse or_one is_fingerprint_mismatch build_match new_record
  refused a b id rows = (
    build_match sha256 b
        (record (new_record sha256 a id) { hit_count = 2; last_seen_at = b.checked_at }),
    negated _ _ (str_eq (request_fingerprint sha256 a) (request_fingerprint sha256 b)),
    refl,
    refl,
  )

  -- Once a key was recorded, a request for the same scope and key within its own window of that
  -- time is refused: as a violation where the fingerprints agree, and as a mismatch where they do
  -- not. The match names the recorded row and counts this hit.
  pub protect-refuses_recorded :
      (a b : WebhookIdempotencyRequest B) (id : ℕ) (rows rows' : List IdempotencyKey)
      → record_idempotency_key sha256 a id rows ≡ some rows'
      → SameKey a b
      → b.checked_at ≤ a.checked_at + b.idempotency_window_seconds
      → (m : WebhookIdempotencyMatch) × ((protect sha256 b rows').0 ≡ (
          if str_eq (request_fingerprint sha256 a) (request_fingerprint sha256 b)
          then violation m
          else fingerprint_mismatch m))
        × (m.existing_record_id ≡ id)
        × (m.existing_hit_count ≡ 2)
  unfolding protect
  protect-refuses_recorded a b id rows rows' h k within =
      rw (find_recorded a b id rows rows' h k, in_window-true a b id within) (refused a b id rows')

  -- Once a key was recorded, a request for the same scope and key after its own window of that time
  -- is admitted and changes no row, but its key cannot be recorded: the unique constraint refuses it.
  pub protect-admits_unrecordable :
      (a b : WebhookIdempotencyRequest B) (id id' : ℕ) (rows rows' : List IdempotencyKey)
      → record_idempotency_key sha256 a id rows ≡ some rows'
      → SameKey a b
      → a.checked_at + b.idempotency_window_seconds < b.checked_at
      → (protect sha256 b rows' ≡ (admitted (admit sha256 b), rows'))
        × (record_idempotency_key sha256 b id' rows' ≡ none)
  unfolding protect protect_found record_idempotency_key
  protect-admits_unrecordable a b id id' rows rows' h k after = (
    rw (find_recorded a b id rows rows' h k, in_window-false a b id after) refl,
    rw (still_taken a b id rows rows' h k) refl,
  )
