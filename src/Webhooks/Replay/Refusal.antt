-- ===== src/Webhooks/Replay/Refusal.antt =====
-- A request that a stored row answers to is refused.
use fast_api_boilerplate.Base.{
  ◌≡◌, refl, inl, inr, true, Option, none, some, List, [], ◌∷◌, ◌++◌, ◌&&◌, Bool-cases,
}
use fast_api_boilerplate.Webhooks.Events.{Codec, WebhookEvent}
use fast_api_boilerplate.Webhooks.Replay.{
  WebhookReplayProtectionRequest, WebhookReplayMatch, refuse, protect, protect_found,
  find_existing_event, in_scope, is_replay_of, build_match, later_of, is_later,
}

module _ {B J : Type 0} (codec : Codec B) where
  later_of-some :
      (row : WebhookEvent J) (rest : Option (WebhookEvent J))
      → (found : WebhookEvent J) × (later_of codec row rest ≡ some found)
  later_of-some row none = (row, refl)
  later_of-some row (some other) = elim (Bool-cases (is_later codec row other)) [
    | inl later ↦ (other, simp later)
    | inr earlier ↦ (row, simp earlier)
  ]

  -- A row that answers to the request is found wherever it stands, or one that is later.
  find_existing_event-some :
      (payload : WebhookReplayProtectionRequest B J) (newer : List (WebhookEvent J))
      (row : WebhookEvent J) (older : List (WebhookEvent J))
      → in_scope codec payload row ≡ true
      → is_replay_of codec payload row ≡ true
      → (found : WebhookEvent J) × (find_existing_event codec payload (newer ++ row ∷ older)
          ≡ some found)
  unfolding find_existing_event
  find_existing_event-some payload [] row older scoped replays =
      let (found, e) = later_of-some row (find_existing_event codec payload older) in
      (found, rw (scoped, replays, e) refl)
  find_existing_event-some payload (other ∷ newer) row older scoped replays =
      let (found, e) = find_existing_event-some payload newer row older scoped replays in
      let (later, f) = later_of-some other (some found) in
      elim (Bool-cases (in_scope codec payload other && is_replay_of codec payload other)) [
        | inl answers ↦ (later, rw (answers, e) f)
        | inr passes ↦ (found, rw (passes, e) refl)
      ]

  pub protect-refuse :
      (payload : WebhookReplayProtectionRequest B J) (newer : List (WebhookEvent J))
      (row : WebhookEvent J) (older : List (WebhookEvent J))
      → in_scope codec payload row ≡ true
      → is_replay_of codec payload row ≡ true
      → (m : WebhookReplayMatch) × (protect codec payload (newer ++ row ∷ older) ≡ refuse m)
  unfolding protect protect_found
  protect-refuse payload newer row older scoped replays =
      let (found, e) = find_existing_event-some payload newer row older scoped replays in
      (build_match codec payload found, rw e refl)
