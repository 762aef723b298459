-- ===== src/Slack/Retry/Sends.antt =====
-- How often a request is sent.
use crossplane_provider_slac.Base.{
  ℕ, zero, suc, ◌+◌, ◌≤◌, nat_eq, ◌≡◌, ◌∙◌, arith, if◌then◌else◌, Bool-cases, Option-cases, inl,
  inr,
}
use crossplane_provider_slac.Errors.{Result-cases}
use crossplane_provider_slac.Act.{Act, ◌>>=◌, ◌>>◌}
use crossplane_provider_slac.Act.{fail, pure}
use crossplane_provider_slac.Base.Int.{ℤ}
use crossplane_provider_slac.Slack.Retry.{
  Response, Http, max_retries, too_many_requests, rate_limited, calculate_backoff, backoff_wait,
  wait_duration, header_seconds, pause, sent, closed, attempts, do_with_retry,
}

-- `count` is the number of requests that were sent, which only sending changes.
pub record Counts {W Request : Type 0} (http : Http W Request) (count : W → ℕ) : Type 0 where
  pub sends : (req : Request) (w : W) → count (http.send req w).1 ≡ suc (count w)
  pub close_keeps : (resp : Response) (w : W) → count (http.close resp w) ≡ count w
  pub sleep_keeps : (d : ℤ) (w : W) → count (http.sleep d w).1 ≡ count w
  pub random_keeps : (n : ℕ) (w : W) → count (http.random_below n w).1 ≡ count w

sum_le : {a b c : ℕ} (k : ℕ) → a ≤ b + k → b ≡ c → a ≤ c + k
sum_le k h e = omega arith

module _ {W Request : Type 0} (http : Http W Request) (count : W → ℕ) (S : Counts http count) where
  pause_keeps :
      (attempt : ℕ) (resp : Response) (w : W) → count (pause http attempt resp w).1 ≡ count w
  unfolding pause wait_duration backoff_wait calculate_backoff
  pause_keeps attempt resp w = elim (Option-cases (header_seconds http resp.retry_after)) [
    | inl e ↦ rw e (S.sleep_keeps _ _ ∙ S.random_keeps _ w)
    | inr (n, e) ↦ rw e (S.sleep_keeps _ w)
  ]

  sent-count :
      (attempt : ℕ) (req : Request) (w : W) → count (sent http attempt req w).1 ≡ suc (count w)
  unfolding sent
  sent-count attempt req w = S.sends req w

  closed-count : (resp : Response) (w : W) → count (closed http resp w).1 ≡ count w
  unfolding closed
  closed-count resp w = S.close_keeps resp w

  -- A call and what follows it send at most what each of them sends.
  >>=-count :
      {A B : Type 0} (m : Act W A) (f : A → Act W B) (w : W) (k : ℕ)
      → ((a : A) (w' : W) → count (f a w').1 ≤ count w' + k)
      → count ((m >>= f) w).1 ≤ count (m w).1 + k
  >>=-count m f w k h = elim (Result-cases (m w).0) [
    | inl (a, e) ↦ rw e (h a (m w).1)
    | inr (_, e) ↦ rw e (omega arith)
  ]

  answer : ℕ → ℕ → Request → Response → Act W Response
  answer left attempt req resp =
      if nat_eq resp.status too_many_requests
      then closed http resp
        >> (pause http attempt resp >> attempts http left (suc attempt) (http.clone req))
      else pure resp

  last_answer : Response → Act W Response
  last_answer resp =
      if nat_eq resp.status too_many_requests
      then closed http resp >> fail rate_limited
      else pure resp

  last_answer-count : (resp : Response) (w : W) → count (last_answer resp w).1 ≤ count w + 0
  unfolding last_answer
  last_answer-count resp w = elim (Bool-cases (nat_eq resp.status too_many_requests)) [
    | inl e ↦ rw e (
        omega (
          arith,
          >>=-count (closed http resp) (λ _. fail {S = W} {A = Response} rate_limited) w 0
              (λ a w'. omega arith),
          closed-count resp w,
        ))
    | inr e ↦ rw e (omega arith)
  ]

  answer-count :
      (left attempt : ℕ) (req : Request)
      → ((w : W)
          → count (attempts http left (suc attempt) (http.clone req) w).1 ≤ count w + suc left)
      → (resp : Response) (w : W) → count (answer left attempt req resp w).1 ≤ count w + suc left
  unfolding answer
  answer-count left attempt req ih resp w =
      elim (Bool-cases (nat_eq resp.status too_many_requests)) [
        | inl e ↦
            let again : Act W Response = attempts http left (suc attempt) (http.clone req) in
            let waited : Act W Response = pause http attempt resp >> again in
            let waited_count = λ (a : Unit {0}) (v : W).
              sum_le (suc left)
                (>>=-count (pause http attempt resp) (λ _. again) v (suc left) (λ b u. ih u))
                (pause_keeps attempt resp v) in
            rw e (
              sum_le (suc left)
                (>>=-count (closed http resp) (λ _. waited) w (suc left) waited_count)
                (closed-count resp w))
        | inr e ↦ rw e (omega arith)
      ]

  attempts-count :
      (left attempt : ℕ) (req : Request) (w : W)
      → count (attempts http left attempt req w).1 ≤ count w + suc left
  unfolding attempts last_answer answer
  attempts-count zero attempt req w = omega (
    arith,
    >>=-count (sent http attempt req) last_answer w 0 last_answer-count,
    sent-count attempt req w,
  )
  attempts-count (suc left) attempt req w = omega (
    arith,
    >>=-count (sent http attempt req) (answer left attempt req) w (suc left)
        (answer-count left attempt req (λ u. attempts-count left (suc attempt) (http.clone req) u)),
    sent-count attempt req w,
  )

  -- A request is sent at most four times, where only sending changes the number of requests sent.
  pub do_with_retry-count :
      (req : Request) (w : W) → count (do_with_retry http req w).1 ≤ count w + 4
  unfolding do_with_retry
  do_with_retry-count req w = attempts-count max_retries 0 req w
