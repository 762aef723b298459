-- ===== src/Tests/Retry.antt =====
-- Two services that limit the rate: one at every request, one at the first.
use crossplane_provider_slac.Base.{
  ℕ, suc, ◌+◌, ◌*◌, ◌^◌, ◌-◌, ◌≤◌, ◌<◌, ◌≡◌, refl, true, none, nat_eq, if◌then◌else◌, arith,
}
use crossplane_provider_slac.Errors.{ok, err, is_retriable_error}
use mathlib.Core.Option.{some}
use crossplane_provider_slac.Slack.Retry.{
  Response, Http, base_delay, max_delay, rate_limited, do_with_retry, calculate_backoff, pause,
}
use crossplane_provider_slac.Slack.Retry.Sends.{Counts, do_with_retry-count}
use crossplane_provider_slac.Slack.Retry.Outcome.{do_with_retry_limited}
use crossplane_provider_slac.Slack.Retry.Recovery.{
  Recovers, answers_now, limits_first, do_with_retry-Recovers,
}
use crossplane_provider_slac.Slack.Retry.Backoff.{calculate_backoff_lt}

abbrev response : ℕ → Response
response status = record { status = status; retry_after = ""; body = "" }

-- The world is the number of requests sent.
abbrev service : (ℕ → ℕ) → Http ℕ (Unit {0})
service status = record {
  send = λ req n. (ok (response (status n)), suc n);
  clone = λ req. req;
  close = λ resp n. n;
  sleep = λ d n. (ok tt, n);
  random_below = λ limit n. (limit - 1, n);
  parse_int = λ text. none;
}

abbrev always : Http ℕ (Unit {0})
always = service (λ n. 429)

abbrev once : Http ℕ (Unit {0})
once = service (λ n. if nat_eq n 0 then 429 else 200)

always-Counts : Counts always (λ n. n)
always-Counts = record {
  sends = λ req n. refl;
  close_keeps = λ resp n. refl;
  sleep_keeps = λ d n. refl;
  random_keeps = λ limit n. refl;
}

do_with_retry-count_example : (do_with_retry always tt 5).1 ≤ 5 + 4
do_with_retry-count_example = do_with_retry-count always (λ n. n) always-Counts tt 5

once-Recovers : Recovers once 1 0 tt 0 (response 200)
unfolding pause
once-Recovers =
    limits_first 0 0 tt 0 (response 429) (response 200) refl refl refl
      (answers_now 1 tt 1 (response 200) refl refl)

do_with_retry-Recovers_example : (do_with_retry once tt 0).0 ≡ ok (response 200)
do_with_retry-Recovers_example =
    do_with_retry-Recovers once 1 tt 0 (response 200) once-Recovers (omega arith)

do_with_retry_limited_example :
    ((do_with_retry always tt 0).0 ≡ err rate_limited)
    × (is_retriable_error (some rate_limited) ≡ true)
do_with_retry_limited_example =
    do_with_retry_limited always (λ req n. (response 429, refl, refl)) (λ d n. refl) tt 0

below : (limit n : ℕ) → 0 < limit → limit - 1 < limit
below limit n h = omega arith

calculate_backoff_lt_example :
    ((calculate_backoff always 2 0).0 < max_delay)
    × ((calculate_backoff always 2 0).0 < base_delay * 2 ^ 2)
calculate_backoff_lt_example = calculate_backoff_lt always below 2 0
