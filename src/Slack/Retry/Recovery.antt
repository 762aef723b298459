-- ===== src/Slack/Retry/Recovery.antt =====
-- Rate limits that pass.
use crossplane_provider_slac.Base.{ℕ, zero, suc, ◌≤◌, nat_eq, ◌≡◌, refl, true, false, arith}
use crossplane_provider_slac.Errors.{ok}
use crossplane_provider_slac.Slack.Retry.{
  Response, Http, max_retries, too_many_requests, pause, sent, closed, attempts, do_with_retry,
}

module _ {W Request : Type 0} (http : Http W Request) where
  -- The state after the request that is answered by a rate limit is closed.
  abbrev pub after_limit : Request → W → Response → W
  after_limit req w limit = http.close limit (http.send req w).1

  -- Slack answers as many attempts by a rate limit as the first number says, from the attempt that
  -- the second number gives on, no wait is cut short, and the attempt after them is answered by the
  -- response.
  pub data Recovers : ℕ → ℕ → Request → W → Response → Type 0 where
    answers_now :
        (attempt : ℕ) (req : Request) (w : W) (resp : Response)
        → (http.send req w).0 ≡ ok resp
        → nat_eq resp.status too_many_requests ≡ false
        → Recovers zero attempt req w resp
    limits_first :
        (n attempt : ℕ) (req : Request) (w : W) (limit resp : Response)
        → (http.send req w).0 ≡ ok limit
        → nat_eq limit.status too_many_requests ≡ true
        → (pause http attempt limit (after_limit req w limit)).0 ≡ ok tt
        → Recovers n
            (suc attempt)
            (http.clone req)
            (pause http attempt limit (after_limit req w limit)).1
            resp
        → Recovers (suc n) attempt req w resp

  attempts_recover :
      (n left attempt : ℕ) (req : Request) (w : W) (resp : Response)
      → Recovers n attempt req w resp
      → n ≤ left
      → (attempts http left attempt req w).0 ≡ ok resp
  unfolding attempts sent closed
  attempts_recover _ zero attempt req w resp (answers_now _ _ _ _ e h) le = rw (e, h) refl
  attempts_recover _ (suc left) attempt req w resp (answers_now _ _ _ _ e h) le = rw (e, h) refl
  attempts_recover _ zero attempt req w resp (limits_first n _ _ _ limit _ e h p r) le =
      absurd (omega (arith, le))
  attempts_recover _ (suc left) attempt req w resp (limits_first n _ _ _ limit _ e h p r) le =
      rw (e, h, p)
        (attempts_recover n left (suc attempt) (http.clone req) _ resp r (omega (arith, le)))

  -- If Slack answers at most three attempts by a rate limit, no wait is cut short, and the attempt
  -- after them has another answer, the retries return that answer.
  pub do_with_retry-Recovers :
      (n : ℕ) (req : Request) (w : W) (resp : Response)
      → Recovers n 0 req w resp
      → n ≤ max_retries
      → (do_with_retry http req w).0 ≡ ok resp
  unfolding do_with_retry
  do_with_retry-Recovers n req w resp r le = attempts_recover n max_retries 0 req w resp r le
