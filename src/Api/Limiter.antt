-- ===== src/Api/Limiter.antt =====
-- internal/api/ratelimit.go: a token bucket for each client.
--
-- Tokens are counted in billionths, and a rate is a whole number of tokens a second, so that what
-- a bucket gains in some nanoseconds is a whole number: the model has no rounding of float64.
pub mod Quota
use taskflow.Common.{
  ℕ, ◌+◌, ◌-◌, ◌*◌, ℤ, String, str_eq, Bool, true, false, ltb, if◌then◌else◌, List, [], ◌∷◌, Option,
  none, some,
}

-- One token.
abbrev pub token : ℕ
token = 1000000000

-- `last_refill` is in nanoseconds of the monotonic clock, which time.Time carries.
pub record Bucket : Type 0 where
  pub tokens : ℕ
  pub last_refill : ℕ

pub record RateLimiter : Type 0 where
  pub buckets : List (String × Bucket)
  pub rps : ℕ
  pub burst : ℕ

unfoldable pub new_rate_limiter : (rps burst : ℕ) → RateLimiter
new_rate_limiter rps burst = record { buckets = []; rps = rps; burst = burst }

unfoldable pub bucket_of : String → List (String × Bucket) → Option Bucket
bucket_of key [] = none
bucket_of key ((k, b) ∷ bs) = if str_eq k key then some b else bucket_of key bs

unfoldable pub set_bucket : String → Bucket → List (String × Bucket) → List (String × Bucket)
set_bucket key b [] = (key, b) ∷ []
set_bucket key b ((k, c) ∷ bs) = if str_eq k key then (k, b) ∷ bs else (k, c) ∷ set_bucket key b bs

-- A client that is not known has a full bucket.
abbrev pub or_full : ℕ → ℕ → Option Bucket → Bucket
or_full burst now none = record { tokens = burst * token; last_refill = now }
or_full burst now (some b) = b

unfoldable pub refilled : (rps burst now : ℕ) → Bucket → ℕ
refilled rps burst now b =
    let tokens = b.tokens + (now - b.last_refill) * rps in
    if ltb (burst * token) tokens then burst * token else tokens

-- The bucket, once `tokens` has been refilled, and whether the request passes.
unfoldable pub take_token : (now tokens : ℕ) → Bucket × Bool
take_token now tokens =
    if ltb tokens token
    then (record { tokens = tokens; last_refill = now }, false)
    else (record { tokens = tokens - token; last_refill = now }, true)

unfoldable pub allow : String → (now : ℕ) → RateLimiter → Bool × RateLimiter
unfolding refilled take_token bucket_of set_bucket
allow key now rl =
    let (b, passes) =
      take_token now
        (refilled rl.rps rl.burst now (or_full rl.burst now (bucket_of key rl.buckets))) in
    (passes, record rl { buckets = set_bucket key b rl.buckets })
