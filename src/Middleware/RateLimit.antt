-- ===== src/Middleware/RateLimit.antt =====
-- internal/middleware/redis_rate_limiter.go: the token bucket of the Lua script. Tokens are counted
-- in millionths and time in microseconds, where the script calculates with floating point; the rate
-- is a whole number of tokens a second, as in cmd/gateway/main.go. A bucket is a key of Redis; limiters
-- with the same prefix, such as the two of the gateway, share it, each with its own rate and capacity.
-- `none` is a bucket that Redis does not have.
pub mod Bound
use Prim.Native.Nat.{◌/◌, min, max}
use cyptocurrency_exchange_b.Prelude.{
  ℕ, ◌+◌, ◌-◌, ◌*◌, String, Bool, true, false, not, Option, none, some, leb, if◌then◌else◌,
}

abbrev pub one_token : ℕ
one_token = 1000000

pub record Bucket : Type 0 where
  pub tokens : ℕ
  pub refreshed : ℕ

pub record Limiter : Type 0 where
  pub rate : ℕ
  pub capacity : ℕ

-- seconds until Redis drops a bucket that is not used
unfoldable pub ttl : Limiter → ℕ
ttl l = max 10 ((l.capacity * 2) / l.rate)

abbrev pub last_tokens : Limiter → Option Bucket → ℕ
last_tokens l none = l.capacity * one_token
last_tokens l (some b) = b.tokens

abbrev pub last_refreshed : Option Bucket → ℕ
last_refreshed none = 0
last_refreshed (some b) = b.refreshed

unfoldable pub filled_tokens : Limiter → ℕ → Option Bucket → ℕ
filled_tokens l at b =
    min (l.capacity * one_token) (last_tokens l b + (at - last_refreshed b) * l.rate)

-- The script: whether the request is allowed, and the bucket as it is stored.
unfoldable pub take_token : Limiter → ℕ → Option Bucket → Bool × Bucket
unfolding filled_tokens
take_token l at b =
    let filled = filled_tokens l at b in
    if leb one_token filled
    then (true, record { tokens = filled - one_token; refreshed = at })
    else (false, record { tokens = filled; refreshed = at })

-- `Allow`: if Redis does not answer, the request passes.
unfoldable pub allow : Limiter → Bool → ℕ → Option Bucket → Bool × Option Bucket
unfolding take_token
allow l fails at b =
    if fails then (true, b) else (let (allowed, b') = take_token l at b in (allowed, some b'))
