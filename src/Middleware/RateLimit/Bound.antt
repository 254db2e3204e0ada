-- ===== src/Middleware/RateLimit/Bound.antt =====
-- How many requests a bucket allows in a time.
use Prim.Native.Nat.{◌/◌, max}
use native.Mathlib.Nat.{add-mul, mul-le-mul_left, mul-le-mul_right}
use cyptocurrency_exchange_b.Prelude.{
  ℕ, ◌+◌, ◌-◌, ◌*◌, ◌≤◌, ◌≡◌, refl, ap, subst, ◌∙◌, inl, inr, Bool, true, false, Option, none, some,
  Bool-cases, leb, arith, sym, suc,
}
use cyptocurrency_exchange_b.Middleware.RateLimit.{
  one_token, Bucket, Limiter, ttl, filled_tokens, take_token, allow,
}

-- What one request takes from the bucket.
abbrev pub spent : Bool → ℕ
spent true = one_token
spent false = 0

-- A bucket, and what Redis has under its keys later: the bucket, or nothing once the time to live that
-- the last limiter gave it is over.
pub data Found (last : Limiter) (at : ℕ) (b : Bucket) : Option Bucket → Type 0 where
  kept : Found last at b (some b)
  dropped : b.refreshed + ttl last * one_token ≤ at → Found last at b none

take_token-spent :
    (l : Limiter) (at : ℕ) (o : Option Bucket)
    → let (allowed, b) = take_token l at o in
      (spent allowed + b.tokens ≡ filled_tokens l at o) × (b.refreshed ≡ at)
unfolding take_token
take_token-spent l at o = elim (Bool-cases (leb one_token (filled_tokens l at o))) [
  | inl enough ↦ rw enough (ground arith, refl)
  | inr short ↦ rw short (omega arith, refl)
]

filled-kept :
    (l : Limiter) (at : ℕ) (b : Bucket)
    → filled_tokens l at (some b) ≤ b.tokens + (at - b.refreshed) * l.rate
unfolding filled_tokens
filled-kept l at b = omega arith

filled-none : (l : Limiter) (at : ℕ) → filled_tokens l at none ≤ l.capacity * one_token
unfolding filled_tokens
filled-none l at = omega arith

-- A bucket lives for ten seconds at least.
ttl_bound : (l : Limiter) → 10 ≤ ttl l
unfolding ttl
ttl_bound l = let q = (l.capacity * 2) / l.rate in let m = max 10 q in omega arith

-- The limiter's rate and capacity are within the greatest ones.
pub record IsWithin (rate capacity : ℕ) (l : Limiter) : Type 0 where
  pub rate_lem : l.rate ≤ rate
  pub capacity_lem : l.capacity ≤ capacity

abbrev pub one_if : Bool → ℕ
one_if true = 1
one_if false = 0

one_if_bound : (allowed : Bool) → one_if allowed ≤ 1
one_if_bound true = omega arith
one_if_bound false = omega arith

spent-one_if : (allowed : Bool) → spent allowed ≡ one_if allowed * one_token
spent-one_if true = refl
spent-one_if false = refl

some_bucket : Bucket → Option Bucket → Bucket
some_bucket b none = b
some_bucket b (some b') = b'

-- An answer of `allow` is that of the script.
allow-take_token :
    (l : Limiter) (at : ℕ) (o : Option Bucket) (allowed : Bool) (b' : Bucket)
    → allow l false at o ≡ (allowed, some b')
    → (one_if (take_token l at o).0 ≡ one_if allowed)
      × (spent (take_token l at o).0 ≡ spent allowed)
      × ((take_token l at o).1 ≡ b')
unfolding allow some_bucket
allow-take_token l at o allowed b' e = (
  ap (λ (r : Bool × Option Bucket). one_if r.0) e,
  ap (λ (r : Bool × Option Bucket). spent r.0) e,
  ap (λ (r : Bool × Option Bucket). some_bucket b' r.1) e,
)

module _ (rate capacity : ℕ) where
  -- One request takes at most what is there and what the greatest rate adds since.
  take_token-balance :
      (last l : Limiter) (at : ℕ) (b : Bucket) (o : Option Bucket)
      → capacity ≤ 10 * rate
      → IsWithin rate capacity l
      → b.refreshed ≤ at
      → Found last at b o
      → let (allowed, b') = take_token l at o in
        spent allowed + b'.tokens ≤ b.tokens + (at - b.refreshed) * rate
  take_token-balance last l at b (some _) small within later kept =
      let more : (at - b.refreshed) * l.rate ≤ (at - b.refreshed) * rate =
        mul-le-mul_left (at - b.refreshed) within.rate_lem in
      omega (arith, (take_token-spent l at (some b)).0, filled-kept l at b)
  take_token-balance last l at b none small within later (dropped long) =
      let lives = ttl_bound last in
      let since : (10 * one_token) * rate ≤ (at - b.refreshed) * rate =
        mul-le-mul_right rate (omega arith) in
      let within_lem = within.capacity_lem in
      omega (arith, (take_token-spent l at none).0, filled-none l at)

  allowed-balance :
      (last l : Limiter) (at : ℕ) (b b' : Bucket) (o : Option Bucket) (allowed : Bool)
      → capacity ≤ 10 * rate
      → IsWithin rate capacity l
      → b.refreshed ≤ at
      → Found last at b o
      → allow l false at o ≡ (allowed, some b')
      → (spent allowed + b'.tokens ≤ b.tokens + (b'.refreshed - b.refreshed) * rate)
        × (b.refreshed ≤ b'.refreshed)
  allowed-balance last l at b b' o allowed small within later found e =
      let (_, same_spent, same) = allow-take_token l at o allowed b' e in
      let stamped : b'.refreshed ≡ at =
        ap (λ (x : Bucket). x.refreshed) (sym same) ∙ (take_token-spent l at o).1 in
      let tokens : (take_token l at o).1.tokens ≡ b'.tokens = ap (λ (x : Bucket). x.tokens) same in
      let balance = take_token-balance last l at b o small within later found in
      (
        subst (λ t. spent allowed + b'.tokens ≤ b.tokens + (t - b.refreshed) * rate) (sym stamped)
            (omega arith),
        omega arith,
      )

  -- Requests for one address, one after the other, by limiters that share its bucket: how many passed,
  -- and for how many Redis did not answer. Times do not fall.
  pub data Run : Limiter → Bucket → ℕ → ℕ → Bucket → Type 0 where
    over : (last : Limiter) (b : Bucket) → Run last b 0 0 b
    unanswered :
        {n failed : ℕ} {end : Bucket} {last : Limiter} {b : Bucket} (l : Limiter) (at : ℕ)
        (o o' : Option Bucket) (allowed : Bool)
        → allow l true at o ≡ (allowed, o')
        → Run last b n failed end
        → Run last b (one_if allowed + n) (suc failed) end
    request :
        {n failed : ℕ} {end : Bucket} {last : Limiter} {b : Bucket} (l : Limiter) (at : ℕ)
        (o : Option Bucket) (b' : Bucket) (allowed : Bool)
        → IsWithin rate capacity l
        → b.refreshed ≤ at
        → Found last at b o
        → allow l false at o ≡ (allowed, some b')
        → Run l b' n failed end
        → Run last b (one_if allowed + n) failed end

  Run-balance :
      {last : Limiter} {n failed : ℕ} {b end : Bucket}
      → capacity ≤ 10 * rate
      → Run last b n failed end
      → (n * one_token + end.tokens
          ≤ b.tokens + (end.refreshed - b.refreshed) * rate + failed * one_token)
        × (b.refreshed ≤ end.refreshed)
  Run-balance small (over last b) = (omega arith, omega arith)
  Run-balance small
        (unanswered {n = n} {failed = failed} {end = end} {b = b} l at o o' allowed e r) =
      let (rest, ends) = Run-balance small r in
      let one : one_if allowed ≤ 1 = one_if_bound allowed in (omega arith, ends)
  Run-balance small
        (request {n = n} {failed = failed} {end = end} {last = last} {b = b} l at o b' allowed
          within later found e r) =
      let (rest, ends) = Run-balance small r in
      let (taken, stamped) = allowed-balance last l at b b' o allowed small within later found e in
      let units = spent-one_if allowed in
      let split : (end.refreshed - b.refreshed) * rate
          ≡ (end.refreshed - b'.refreshed) * rate + (b'.refreshed - b.refreshed) * rate =
        ap (λ (t : ℕ). t * rate) (omega arith)
        ∙ add-mul (end.refreshed - b'.refreshed) (b'.refreshed - b.refreshed) rate in
      (omega arith, omega arith)

  -- Where limiters share the bucket of an address, with rates and capacities up to greatest ones, of
  -- which the greatest capacity is filled in ten seconds, then in any run of requests from the
  -- address, at times that do not fall, from one that finds no bucket on, they let pass at most the
  -- greatest capacity, and what the greatest rate adds up to the last request that Redis answered,
  -- and those requests for which Redis did not answer. Redis may drop the bucket when its time to
  -- live is over. Rates are whole numbers of tokens a second, and times of microseconds.
  pub allow_bound :
      (l : Limiter) (first : ℕ) (allowed : Bool) {n failed : ℕ} {b end : Bucket}
      → capacity ≤ 10 * rate
      → IsWithin rate capacity l
      → allow l false first none ≡ (allowed, some b)
      → Run l b n failed end
      → (one_if allowed + n) * one_token
        ≤ capacity * one_token + (end.refreshed - first) * rate + failed * one_token
  allow_bound l first allowed {n} {failed} {b} {end} small within e r =
      let (_, same_spent, same) = allow-take_token l first none allowed b e in
      let (balance, stamped) = take_token-spent l first none in
      let (rest, _) = Run-balance small r in
      let units = spent-one_if allowed in
      let begins : b.refreshed ≡ first = ap (λ (x : Bucket). x.refreshed) (sym same) ∙ stamped in
      let tokens : (take_token l first none).1.tokens ≡ b.tokens =
        ap (λ (x : Bucket). x.tokens) same in
      let rest_at =
        subst
          (λ t.
            n * one_token + end.tokens ≤ b.tokens + (end.refreshed - t) * rate + failed * one_token)
          begins rest in
      let cap = within.capacity_lem in omega (arith, filled-none l first)
