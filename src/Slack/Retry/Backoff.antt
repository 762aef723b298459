-- ===== src/Slack/Retry/Backoff.antt =====
-- How long the waits without a Retry-After are.
use crossplane_provider_slac.Base.{ℕ, zero, suc, ◌*◌, ◌^◌, ◌≤◌, ◌<◌, arith}
use crossplane_provider_slac.Slack.Retry.{
  Http, base_delay, max_delay, backoff_limit, calculate_backoff,
}

module _ {W Request : Type 0} (http : Http W Request) where
  pow_pos : (n : ℕ) → 0 < 2 ^ n
  pow_pos zero = omega arith
  pow_pos (suc n) = omega (arith, pow_pos n)

  backoff_limit_le :
      (attempt : ℕ)
      → (backoff_limit attempt ≤ max_delay)
        × (backoff_limit attempt ≤ base_delay * 2 ^ attempt)
        × (0 < backoff_limit attempt)
  unfolding backoff_limit
  backoff_limit_le attempt = (ground arith, ground arith, ground (arith, pow_pos attempt))

  -- Where random_below answers below a bound that is positive, a backoff is shorter than the cap of
  -- 60 seconds and than 2 ^ attempt seconds.
  pub calculate_backoff_lt :
      ((n : ℕ) (w : W) → 0 < n → (http.random_below n w).0 < n)
      → (attempt : ℕ) (w : W)
      → ((calculate_backoff http attempt w).0 < max_delay)
        × ((calculate_backoff http attempt w).0 < base_delay * 2 ^ attempt)
  unfolding calculate_backoff
  calculate_backoff_lt below attempt w =
      let (le_cap, le_power, some_room) = backoff_limit_le attempt in
      let short = below (backoff_limit attempt) w some_room in
      (omega (arith, short, le_cap), omega (arith, short, le_power))
