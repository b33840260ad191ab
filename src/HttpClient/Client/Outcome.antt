-- ===== src/HttpClient/Client/Outcome.antt =====
-- What a request returns or raises, and what its response hooks are told.
use fast_api_boilerplate.Base.{
  ℕ, ◌≡◌, refl, ◌↔◌, ◌⊎◌, inl, inr, Bool, true, false, Option, none, some, String, List, [], ◌∷◌,
  ap, ◌∙◌, subst,
}
use fast_api_boilerplate.Base.Dict.{Dict}
use fast_api_boilerplate.HttpClient.Errors.{HttpError, Response, raise_for_status}
use fast_api_boilerplate.HttpClient.Errors.Status.{
  raise_for_status-none_iff, raised as raised_for_status,
}
use fast_api_boilerplate.HttpClient.Client.{
  Transport, Sent, answered, received, raised, settle, error_seen, status_seen, run_request_hooks,
  run_response_hooks, exchange, request, checked, merge_headers, TemplateHttpClient,
}

answered-same : {r r' : Response} → answered r ≡ answered r' → r ≡ r'
answered-same h = cc

is_success_of :
    {r r' : Response} → (true ≡ false) ⊎ (r'.is_success ≡ true) → r ≡ r' → r.is_success ≡ true
is_success_of {r} {r'} (inl h) same = cc
is_success_of {r} {r'} (inr h) same = ap (λ x. x.is_success) same ∙ h

module _ {F : Type 0} where
  received-same : {r r' : Response} → ◌≡◌ {A = Sent F} (received r) (received r') → r ≡ r'
  received-same h = cc

  checked-received :
      (response r : Response) (error : Option (HttpError F))
      → (checked response error ≡ received r) ↔ ((error ≡ none) × (response ≡ r))
  unfolding checked
  checked-received response r none = (λ h. (refl, received-same h), λ h. cc)
  checked-received response r (some e) = (λ h. cc, λ h. cc)

  settle-received :
      (parse_float : String → Option F) (raise_codes : Bool) (transport : Transport)
      (response : Response)
      → (settle parse_float raise_codes transport ≡ received response)
        ↔ ((transport ≡ answered response) × ((raise_codes ≡ false) ⊎ (response.is_success ≡ true)))
  unfolding settle
  settle-received parse_float true (answered r) response =
      let c = checked-received r response (raise_for_status parse_float r) in
      let success = raise_for_status-none_iff parse_float r in
      (
        λ h.
            let (quiet, same) = c.0 h in
            (ap answered same, inr (subst (λ x. x.is_success ≡ true) same (success.0 quiet))),
        λ (same, reason).
            c.1 (success.1 (is_success_of reason (answered-same same)), answered-same same),
      )
  settle-received parse_float false (answered r) response =
      (λ h. (ap answered (received-same h), inl refl), λ h. cc)
  settle-received parse_float raise_codes Transport.timed_out response = (λ h. cc, λ h. cc)
  settle-received parse_float raise_codes Transport.connect_failed response = (λ h. cc, λ h. cc)
  settle-received parse_float raise_codes (Transport.status_error r) response = (λ h. cc, λ h. cc)
  settle-received parse_float raise_codes Transport.http_failed response = (λ h. cc, λ h. cc)
  settle-received parse_float raise_codes Transport.crashed response = (λ h. cc, λ h. cc)

module _ {F W : Type 0} where
  -- The world after every response hook was told of one status and error, in order.
  unfoldable pub observed :
      List (ℕ → Option (HttpError F) → W → Bool × W) → ℕ → Option (HttpError F) → W → W
  observed [] status error w = w
  observed (hook ∷ hooks) status error w = observed hooks status error (hook status error w).1

  run_response_hooks-observed :
      (hooks : List (ℕ → Option (HttpError F) → W → Bool × W)) (status : ℕ)
      (error : Option (HttpError F)) (w : W)
      → run_response_hooks hooks status error w ≡ observed hooks status error w
  unfolding run_response_hooks observed
  run_response_hooks-observed [] status error w = refl
  run_response_hooks-observed (hook ∷ hooks) status error w =
      run_response_hooks-observed hooks status error (hook status error w).1

  -- The headers of a request that the request hooks let pass, and what the transport then does.
  pub record Passes (client : TemplateHttpClient F W) (headers : Option (Dict String))
      (correlation : Dict String) (w : W) (transport : Transport) (w' : W) : Type 0 where
    pub final : Dict String
    pub between : W
    pub passed :
        run_request_hooks client.request_hooks
          (merge_headers client.propagate_correlation client.default_headers headers correlation)
          w
        ≡ (some final, between)
    pub sent : client.send final between ≡ (transport, w')

  -- Where the request hooks let the request pass, its outcome is that of the one exchange with the
  -- server, whatever the response hooks do, and every response hook is told of the same status and
  -- error in order, those after one that raises included.
  pub request-observed :
      (parse_float : String → Option F) (client : TemplateHttpClient F W) (raise_codes : Bool)
      (headers : Option (Dict String)) (correlation : Dict String) (transport : Transport)
      (w w' : W)
      → Passes client headers correlation w transport w'
      → request parse_float client raise_codes headers correlation w ≡ (
        settle parse_float raise_codes transport,
        observed client.response_hooks (status_seen transport) (error_seen transport) w',
      )
  unfolding request exchange
  request-observed parse_float client raise_codes headers correlation transport w w' p =
      rw (p.passed, p.sent, run_response_hooks-observed) refl

  -- A request whose hooks let it pass returns a response exactly where the server answered with it
  -- and the status is not to be raised, or is a success.
  pub request-received_iff :
      (parse_float : String → Option F) (client : TemplateHttpClient F W) (raise_codes : Bool)
      (headers : Option (Dict String)) (correlation : Dict String) (transport : Transport)
      (w w' : W) (response : Response)
      → Passes client headers correlation w transport w'
      → ((request parse_float client raise_codes headers correlation w).0 ≡ received response)
        ↔ ((transport ≡ answered response) × ((raise_codes ≡ false) ⊎ (response.is_success ≡ true)))
  request-received_iff parse_float client raise_codes headers correlation transport w w' response
        p =
      rw (request-observed parse_float client raise_codes headers correlation transport w w' p)
        (settle-received parse_float raise_codes transport response)

  -- A response that is not a success, and whose status is to be raised, ends in an error for the
  -- caller, while every response hook is told of its status and of no error.
  pub request-unseen_error :
      (parse_float : String → Option F) (client : TemplateHttpClient F W)
      (headers : Option (Dict String)) (correlation : Dict String) (response : Response) (w w' : W)
      → Passes client headers correlation w (answered response) w'
      → response.is_success ≡ false
      → (e : HttpError F) × (raise_for_status parse_float response ≡ some e)
        × (request parse_float client true headers correlation w
            ≡ (raised e, observed client.response_hooks response.status_code none w'))
  request-unseen_error parse_float client headers correlation response w w' p fails =
      let (e, raises, _, _, _) = raised_for_status parse_float response fails in
      (
        e,
        raises,
        request-observed parse_float client true headers correlation (answered response) w w' p
            ∙ unfold settle error_seen status_seen checked in rw raises refl,
      )
