-- ===== src/Slack/Retry/Invariant.antt =====
-- What the retries keep: invariants of the world that sending requests of some sort keeps.
use crossplane_provider_slac.Base.{ℕ, zero, suc, nat_eq, Bool-cases, Option-cases, inl, inr}
use crossplane_provider_slac.Base.Int.{ℤ}
use crossplane_provider_slac.Errors.{Result-cases}
use crossplane_provider_slac.Act.{Act, fail, ◌>>=◌, ◌>>◌}
use crossplane_provider_slac.Slack.Retry.{
  Response, Http, max_retries, too_many_requests, rate_limited, calculate_backoff, backoff_wait,
  wait_duration, header_seconds, pause, sent, closed, attempts, do_with_retry,
}

-- `Own` requests stay so when they are cloned; sending them, and whatever else the retries do, keeps
-- `Inv`.
pub record Keeps {W Request : Type 0} (http : Http W Request) (Own : Request → Type 0)
    (Inv : W → Type 0) : Type 0 where
  pub sends : (req : Request) (w : W) → Own req → Inv w → Inv (http.send req w).1
  pub clones : (req : Request) → Own req → Own (http.clone req)
  pub closes : (resp : Response) (w : W) → Inv w → Inv (http.close resp w)
  pub sleeps : (d : ℤ) (w : W) → Inv w → Inv (http.sleep d w).1
  pub randoms : (n : ℕ) (w : W) → Inv w → Inv (http.random_below n w).1

-- Calls that keep an invariant, one after the other.
pub >>=-keeps :
    {W A B : Type 0} (Inv : W → Type 0) (m : Act W A) (f : A → Act W B) (w : W)
    → Inv (m w).1
    → ((a : A) (v : W) → Inv v → Inv (f a v).1)
    → Inv ((m >>= f) w).1
>>=-keeps Inv m f w first next = elim (Result-cases (m w).0) [
  | inl (a, e) ↦ rw e (next a (m w).1 first)
  | inr (x, e) ↦ rw e first
]

module _ {W Request : Type 0} (http : Http W Request) (Own : Request → Type 0) (Inv : W → Type 0)
    (K : Keeps http Own Inv) where
  pause-keeps : (attempt : ℕ) (resp : Response) (w : W) → Inv w → Inv (pause http attempt resp w).1
  unfolding pause wait_duration backoff_wait calculate_backoff
  pause-keeps attempt resp w i = elim (Option-cases (header_seconds http resp.retry_after)) [
    | inl e ↦ rw e (K.sleeps _ _ (K.randoms _ w i))
    | inr (n, e) ↦ rw e (K.sleeps _ w i)
  ]

  sent-keeps :
      (attempt : ℕ) (req : Request) (w : W) → Own req → Inv w → Inv (sent http attempt req w).1
  unfolding sent
  sent-keeps attempt req w own i = K.sends req w own i

  pub closed-keeps : (resp : Response) (w : W) → Inv w → Inv (closed http resp w).1
  unfolding closed
  closed-keeps resp w i = K.closes resp w i

  attempts-keeps :
      (left attempt : ℕ) (req : Request) (w : W)
      → Own req
      → Inv w
      → Inv (attempts http left attempt req w).1
  unfolding attempts
  attempts-keeps zero attempt req w own i =
      >>=-keeps Inv (sent http attempt req) _ w (sent-keeps attempt req w own i) (λ resp v j.
        elim (Bool-cases (nat_eq resp.status too_many_requests)) [
          | inl e ↦ rw e (
              >>=-keeps Inv (closed http resp) (λ _. fail {S = W} {A = Response} rate_limited) v
                (closed-keeps resp v j) (λ _ u k. k))
          | inr e ↦ rw e j
        ])
  attempts-keeps (suc left) attempt req w own i =
      let again : Act W Response = attempts http left (suc attempt) (http.clone req) in
      >>=-keeps Inv (sent http attempt req) _ w (sent-keeps attempt req w own i) (λ resp v j.
        elim (Bool-cases (nat_eq resp.status too_many_requests)) [
          | inl e ↦ rw e (
              >>=-keeps Inv (closed http resp) (λ _. pause http attempt resp >> again) v
                (closed-keeps resp v j)
                (λ _ u k.
                  >>=-keeps Inv (pause http attempt resp) (λ _. again) u
                    (pause-keeps attempt resp u k)
                    (λ _ t l.
                      attempts-keeps left (suc attempt) (http.clone req) t (K.clones req own) l)))
          | inr e ↦ rw e j
        ])

  pub do_with_retry-keeps :
      (req : Request) (w : W) → Own req → Inv w → Inv (do_with_retry http req w).1
  unfolding do_with_retry
  do_with_retry-keeps req w own i = attempts-keeps max_retries 0 req w own i
