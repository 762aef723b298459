-- ===== src/Slack/Retry.antt =====
-- internal/clients/slack/ratelimit.go: requests that are sent again while Slack limits their rate.
-- Durations are in nanoseconds.
pub mod Sends
pub mod Outcome
pub mod Recovery
pub mod Invariant
pub mod Backoff
use crossplane_provider_slac.Base.{
  ℕ, zero, suc, ◌+◌, ◌*◌, ◌^◌, String, ◌<>◌, Option, none, some, ◌==◌, ltb, nat_eq, if◌then◌else◌,
}
use crossplane_provider_slac.Base.Int.{ℤ, pos, negsuc, to_int64}
use crossplane_provider_slac.Errors.{
  Error, Result, ok, err, wrap, plain, retriable, is_network_error,
}
use crossplane_provider_slac.Act.{Act, pure, fail, ◌>>=◌, ◌>>◌, or_wrap}

-- What is read of an http.Response.
pub record Response : Type 0 where
  pub status : ℕ
  pub retry_after : String
  pub body : String

-- net/http, the clock and context behind sleepFunc, math/rand and strconv: `random_below` is
-- rand.Int63n, `parse_int` is strconv.Atoi.
pub record Http (W Request : Type 0) : Type 0 where
  pub send : Request → Act W Response
  pub clone : Request → Request
  pub close : Response → W → W
  pub sleep : ℤ → Act W (Unit {0})
  pub random_below : ℕ → W → ℕ × W
  pub parse_int : String → Option ℤ

abbrev pub max_retries : ℕ
max_retries = 3

abbrev pub base_delay : ℕ
base_delay = 1000000000

abbrev pub max_delay : ℕ
max_delay = 60000000000

abbrev pub too_many_requests : ℕ
too_many_requests = 429

abbrev pub rate_limited : Error
rate_limited = retriable (plain "rate limited after 3 retries")

-- The backoff before the jitter. The float64 of the source is exact here.
unfoldable pub backoff_limit : ℕ → ℕ
backoff_limit attempt =
    if ltb max_delay (base_delay * 2 ^ attempt) then max_delay else base_delay * 2 ^ attempt

-- A number of seconds that is positive.
pub positive : Option ℤ → Option ℕ
positive (some (pos (suc n))) = some (suc n)
positive (some (pos zero)) = none
positive (some (negsuc n)) = none
positive none = none

-- attempt + 1 in decimal, where attempt is at most 3.
attempt_number : ℕ → String
attempt_number zero = "1"
attempt_number (suc zero) = "2"
attempt_number (suc (suc zero)) = "3"
attempt_number (suc (suc (suc n))) = "4"

unfoldable pub network_failure : ℕ → Error → Error
unfolding attempt_number is_network_error
network_failure attempt e =
    if is_network_error (some e)
    then retriable (wrap ("network error on attempt " <> attempt_number attempt) e)
    else e

module _ {W Request : Type 0} (http : Http W Request) where
  unfoldable pub calculate_backoff : ℕ → W → ℕ × W
  unfolding backoff_limit
  calculate_backoff attempt w = http.random_below (backoff_limit attempt) w

  pub backoff_wait : ℕ → W → ℤ × W
  unfolding calculate_backoff
  backoff_wait attempt w = let (d, w') = calculate_backoff attempt w in (pos d, w')

  -- The seconds of the header, if it has a positive number; the backoff otherwise.
  pub wait_duration : ℕ → Option ℕ → W → ℤ × W
  unfolding backoff_wait
  wait_duration attempt none w = backoff_wait attempt w
  wait_duration attempt (some seconds) w = (to_int64 (seconds * base_delay), w)

  pub header_seconds : String → Option ℕ
  unfolding positive
  header_seconds header = if header == "" then none else positive (http.parse_int header)

  -- The wait before the next attempt.
  unfoldable pub pause : ℕ → Response → Act W (Unit {0})
  unfolding wait_duration header_seconds
  pause attempt resp w =
      let (d, w') = wait_duration attempt (header_seconds resp.retry_after) w in
      or_wrap (http.sleep d) (wrap "context cancelled during rate-limit wait") w'

  unfoldable pub sent : ℕ → Request → Act W Response
  unfolding network_failure
  sent attempt req = or_wrap (http.send req) (network_failure attempt)

  unfoldable pub closed : Response → Act W (Unit {0})
  closed resp w = (ok tt, http.close resp w)

  -- The loop from an attempt on, with as many attempts left behind it as the first number says.
  unfoldable pub attempts : ℕ → ℕ → Request → Act W Response
  unfolding sent closed pause
  attempts zero attempt req = do
    resp ← sent attempt req
    if nat_eq resp.status too_many_requests then (do closed resp; fail rate_limited) else pure resp
  attempts (suc left) attempt req = do
    resp ← sent attempt req
    if nat_eq resp.status too_many_requests
        then (do closed resp; pause attempt resp; attempts left (suc attempt) (http.clone req))
        else pure resp

  unfoldable pub do_with_retry : Request → Act W Response
  unfolding attempts
  do_with_retry req = attempts max_retries 0 req
