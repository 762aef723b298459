-- ===== src/Slack/Retry/Outcome.antt =====
-- What the retries return.
use crossplane_provider_slac.Base.{
  ℕ, zero, suc, nat_eq, ◌≡◌, refl, sym, ap, ◌∙◌, true, false, some, if◌then◌else◌, Bool-cases, inl,
  inr,
}
use crossplane_provider_slac.Errors.{ok, err}
use crossplane_provider_slac.Act.{Act, ◌>>◌, >>=-eq-ok}
use crossplane_provider_slac.Act.{fail, pure}
use crossplane_provider_slac.Errors.{is_retriable_error, has_retriable}
use crossplane_provider_slac.Base.Int.{ℤ}
use crossplane_provider_slac.Slack.Retry.{
  Response, Http, max_retries, too_many_requests, rate_limited, pause, sent, closed, attempts,
  do_with_retry,
}

module _ {W Request : Type 0} (http : Http W Request) where
  unlimited :
      {a resp : Response}
      → ok a ≡ ok resp
      → nat_eq a.status too_many_requests ≡ false
      → nat_eq resp.status too_many_requests ≡ false
  unlimited same h = rw (← ok-eq same) h
    where
      ok-eq : {a b : Response} → ok a ≡ ok b → a ≡ b
      ok-eq p = cc

  last-status :
      (a : Response) (w : W) (resp : Response)
      → ((if nat_eq a.status too_many_requests then closed http a >> fail rate_limited else pure a)
          w).0
        ≡ ok resp
      → nat_eq resp.status too_many_requests ≡ false
  unfolding closed
  last-status a w resp = elim (Bool-cases (nat_eq a.status too_many_requests)) [
    | inl e ↦ rw e (λ done. cc)
    | inr e ↦ rw e (λ done. unlimited done e)
  ]

  next-status :
      (again : Act W Response) (attempt : ℕ) (a : Response) (w : W) (resp : Response)
      → ((u : W) → (again u).0 ≡ ok resp → nat_eq resp.status too_many_requests ≡ false)
      → ((if nat_eq a.status too_many_requests
            then closed http a >> (pause http attempt a >> again)
            else pure a)
          w).0
        ≡ ok resp
      → nat_eq resp.status too_many_requests ≡ false
  unfolding closed
  next-status again attempt a w resp ih = elim (Bool-cases (nat_eq a.status too_many_requests)) [
    | inl e ↦ rw e (λ done.
        let (_, _, q) = >>=-eq-ok (pause http attempt a) (λ _. again) (http.close a w) done in
        ih _ (ap (λ r. r.0) (sym q) ∙ done))
    | inr e ↦ rw e (λ done. unlimited done e)
  ]

  attempts-status :
      (left attempt : ℕ) (req : Request) (w : W) (resp : Response)
      → (attempts http left attempt req w).0 ≡ ok resp
      → nat_eq resp.status too_many_requests ≡ false
  unfolding attempts
  attempts-status zero attempt req w resp done =
      let (a, _, q) = >>=-eq-ok (sent http attempt req) _ w done in
      last-status a _ resp (ap (λ r. r.0) (sym q) ∙ done)
  attempts-status (suc left) attempt req w resp done =
      let (a, _, q) = >>=-eq-ok (sent http attempt req) _ w done in
      next-status (attempts http left (suc attempt) (http.clone req)) attempt a _ resp
        (λ u. attempts-status left (suc attempt) (http.clone req) u resp)
        (ap (λ r. r.0) (sym q) ∙ done)

  -- A response that is returned does not have the status of a rate limit.
  do_with_retry-status :
      (req : Request) (w : W) (resp : Response)
      → (do_with_retry http req w).0 ≡ ok resp
      → nat_eq resp.status too_many_requests ≡ false
  unfolding do_with_retry
  do_with_retry-status req w resp done = attempts-status max_retries 0 req w resp done

  -- Every request is answered by a rate limit.
  abbrev pub IsLimited : Type 0
  IsLimited =
      (req : Request) (w : W)
      → (resp : Response) × ((http.send req w).0 ≡ ok resp)
        × (nat_eq resp.status too_many_requests ≡ true)

  attempts_limited :
      IsLimited
      → ((d : ℤ) (w : W) → (http.sleep d w).0 ≡ ok tt)
      → (left attempt : ℕ) (req : Request) (w : W)
      → (attempts http left attempt req w).0 ≡ err rate_limited
  unfolding attempts sent closed pause
  attempts_limited limits sleeps zero attempt req w =
      let (resp, p, e) = limits req w in rw (p, e) refl
  attempts_limited limits sleeps (suc left) attempt req w =
      let (resp, p, e) = limits req w in
      rw (p, e, sleeps) (attempts_limited limits sleeps left (suc attempt) (http.clone req) _)

  -- If Slack answers every request with a rate limit, and no wait is cut short, the retries end with
  -- an error that is retriable.
  pub do_with_retry_limited :
      IsLimited
      → ((d : ℤ) (w : W) → (http.sleep d w).0 ≡ ok tt)
      → (req : Request) (w : W)
      → ((do_with_retry http req w).0 ≡ err rate_limited)
        × (is_retriable_error (some rate_limited) ≡ true)
  unfolding do_with_retry is_retriable_error has_retriable
  do_with_retry_limited limits sleeps req w =
      (attempts_limited limits sleeps max_retries 0 req w, refl)
