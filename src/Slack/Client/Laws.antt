-- ===== src/Slack/Client/Laws.antt =====
-- internal/clients/slack/client.go: what Do returns.
use crossplane_provider_slac.Base.{
  ◌≡◌, refl, sym, ap, subst, ◌∙◌, String, ◌<>◌, true, false, Option, some, nat_eq, Bool-cases, inl,
  inr, ◌⊎◌, eq_refl, ◌==◌, ◌||◌,
}
use crossplane_provider_slac.Errors.{
  Error, Result, ok, err, Result-cases, has_code, as_slack, is_network_error, has_network,
  is_retriable_error, has_retriable, is_retriable, slack_is_retriable,
}
use crossplane_provider_slac.Act.{>>=-eq-ok, or_wrap}
use crossplane_provider_slac.Slack.Retry.{
  Response, closed, do_with_retry, attempts, sent, network_failure, too_many_requests,
}
use crossplane_provider_slac.Slack.Json
use crossplane_provider_slac.Slack.Json.{Json}
use crossplane_provider_slac.Slack.Form.{Form}
use crossplane_provider_slac.Slack.Client.{
  Library, Client, Envelope, decode_envelope, accepted, refused, check_answer, encoded, prepared,
  answered, send_request, send_built, checked, execution_failure, call_method,
}

-- The answer is an envelope.
abbrev pub IsEnvelope : {W Request : Type 0} → Library W Request → String → Envelope → Type 0
IsEnvelope lib text envelope = Json.bind (lib.parse_json text) decode_envelope ≡ ok envelope

module _ {W Request : Type 0} (lib : Library W Request) (c : Client W Request) where
  -- Slack answers the first request of a call with a text, in the given state; the second is the
  -- state after it.
  pub record Answers (method : String) (params : Option Form) (w : W) (text : String) (after : W)
      : Type 0 where
    pub req : Request
    pub resp : Response
    pub builds : lib.new_request (c.base_url <> ("/" <> method)) (encoded lib params) ≡ ok req
    pub sends : (c.http_client.send (prepared lib c params req) w).0 ≡ ok resp
    pub status : nat_eq resp.status too_many_requests ≡ false
    pub reads : (lib.read_all resp (c.http_client.send (prepared lib c params req) w).1).0 ≡ ok text
    pub closes :
        c.http_client.close resp
          (lib.read_all resp (c.http_client.send (prepared lib c params req) w).1).1
        ≡ after

  pub call_method_answered :
      (method : String) (params : Option Form) (w after : W) (text : String)
      → Answers method params w text after
      → call_method lib c method params w ≡ (check_answer lib method text, after)
  unfolding call_method send_built send_request checked answered do_with_retry attempts sent closed
  call_method_answered method params w after text a =
      rw (a.builds, a.sends, a.status, a.reads, a.closes) refl

  -- If Slack answers the request of Do with an envelope, Do returns the answer's text exactly if the
  -- envelope is ok, and otherwise an error that carries the envelope's code and that is retriable
  -- exactly if the code is internal_error, fatal_error or request_timeout.
  pub call_method_envelope :
      (method : String) (params : Option Form) (w after : W) (text : String) (envelope : Envelope)
      → Answers method params w text after
      → IsEnvelope lib text envelope
      → ((envelope.is_ok ≡ true) × ((call_method lib c method params w).0 ≡ ok text))
        ⊎ ((envelope.is_ok ≡ false)
            × ((e : Error) × ((call_method lib c method params w).0 ≡ err e)
                × (has_code envelope.error e ≡ true)
                × (is_retriable_error (some e) ≡ (
                    envelope.error == "internal_error"
                    || (envelope.error == "fatal_error" || envelope.error == "request_timeout")))))
  unfolding check_answer accepted has_code as_slack is_retriable_error has_retriable
      slack_is_retriable is_retriable
  call_method_envelope method params w after text envelope a h =
      rw (call_method_answered method params w after text a, h)
        (elim (Bool-cases envelope.is_ok) [
          | inl e ↦ inl (e, rw e refl)
          | inr e ↦
              inr (e, (refused method envelope.error, rw e refl, eq_refl envelope.error, refl))
        ])

  -- If the first request of Do fails with a network error, Do returns an error that is retriable
  -- and that still tells of the network.
  pub call_method_unreachable :
      (method : String) (params : Option Form) (w : W) (req : Request) (e : Error)
      → lib.new_request (c.base_url <> ("/" <> method)) (encoded lib params) ≡ ok req
      → (c.http_client.send (prepared lib c params req) w).0 ≡ err e
      → is_network_error (some e) ≡ true
      → (f : Error) × ((call_method lib c method params w).0 ≡ err f)
        × (is_retriable_error (some f) ≡ true)
        × (is_network_error (some f) ≡ true)
  unfolding call_method send_built send_request do_with_retry attempts sent network_failure
      execution_failure is_network_error has_network is_retriable_error has_retriable
  call_method_unreachable method params w req e b s n = rw (b, s, n, n) (_, refl, refl, n)

  accepted-eq-ok :
      (method text got : String) (r : Result Envelope)
      → accepted method text r ≡ ok got
      → (envelope : Envelope) × (r ≡ ok envelope) × (envelope.is_ok ≡ true) × (text ≡ got)
  unfolding accepted
  accepted-eq-ok method text got (err e) = λ done. cc
  accepted-eq-ok method text got (ok envelope) = elim (Bool-cases envelope.is_ok) [
    | inl e ↦ λ done. let same = rw e at done in (envelope, refl, e, cc same)
    | inr e ↦ λ done. let differ = rw e at done in cc differ
  ]

  answered-eq-ok :
      (method : String) (resp : Response) (w : W) (got : String)
      → (answered lib c method resp w).0 ≡ ok got
      → (envelope : Envelope) × IsEnvelope lib got envelope × (envelope.is_ok ≡ true)
  unfolding answered checked check_answer closed
  answered-eq-ok method resp w got = elim (Result-cases (lib.read_all resp w).0) [
    | inl (text, e) ↦ rw e (λ done.
        let (envelope, p, h, q) = accepted-eq-ok method text got _ done in
        subst (λ t. (envelope : Envelope) × IsEnvelope lib t envelope × (envelope.is_ok ≡ true)) q
          (envelope, p, h))
    | inr (x, e) ↦ rw e (λ done. cc)
  ]

  -- What Do returns is the text of an answer whose envelope is ok.
  call_method-eq-ok :
      (method : String) (params : Option Form) (w : W) (text : String)
      → (call_method lib c method params w).0 ≡ ok text
      → (envelope : Envelope) × IsEnvelope lib text envelope × (envelope.is_ok ≡ true)
  unfolding call_method send_built send_request answered checked check_answer
  call_method-eq-ok method params w text =
      elim (Result-cases (lib.new_request (c.base_url <> ("/" <> method)) (encoded lib params))) [
        | inl (req, e) ↦ rw e (λ done.
            let (resp, _, q) =
              >>=-eq-ok
                (or_wrap (do_with_retry c.http_client (prepared lib c params req))
                  (execution_failure method))
                (answered lib c method) w done in
            answered-eq-ok method resp _ text (ap (λ r. r.0) (sym q) ∙ done))
        | inr (x, e) ↦ rw e (λ done. cc)
      ]
