-- ===== src/RateLimit/Windows.antt =====
-- How many requests of one window the limiter lets through.
use asgard_hl_basisstrategy.Base.{
  ℕ, zero, suc, ◌+◌, ◌≡◌, Bool, true, false, ◌&&◌, ◌||◌, not, String, ltb, leb, Result, ok, raises,
  if◌then◌else◌, arith,
}
use asgard_hl_basisstrategy.RateLimit.{
  RateLimitMiddleware, HttpRequest, Redis, starts_with, judge, expire_first, check_limit, key_of,
  Response, passes, passes_with, too_many, dispatch,
}

-- Redis counts the requests of a window from 1 and answers each command.
pub record Counts (redis : ℕ → Redis) (n : ℕ) : Type 0 where
  pub connects : (redis n).connect ≡ ok tt
  pub counts : (redis n).incr ≡ ok (n + 1)
  pub expires : (redis n).expire ≡ ok tt

-- Of the requests with the numbers below n, those that the check allows.
unfoldable pub allowed_below : (ℕ → Redis) → ℕ → ℕ → ℕ
allowed_below redis limit zero = 0
allowed_below redis limit (suc n) =
    allowed_below redis limit n + (if (check_limit (redis n) limit).allowed then 1 else 0)

abbrev pub answers_ttl : Result ℕ → Bool
answers_ttl (raises e) = false
answers_ttl (ok t) = true

check_limit-counts :
    (redis : ℕ → Redis) (limit n : ℕ)
    → Counts redis n
    → answers_ttl (redis n).ttl ≡ true
    → (check_limit (redis n) limit).allowed ≡ ltb n limit
unfolding check_limit expire_first judge
check_limit-counts redis limit n c t = ground (arith, c.connects, c.counts, c.expires, t)

-- While Redis counts the requests of a window and answers every command, the check allows exactly
-- the first requests up to the limit.
pub allowed_below_lem :
    (redis : ℕ → Redis) (limit n : ℕ)
    → ((i : ℕ) → Counts redis i)
    → ((i : ℕ) → answers_ttl (redis i).ttl ≡ true)
    → allowed_below redis limit n ≡ (if ltb n limit then n else limit)
unfolding allowed_below
allowed_below_lem redis limit zero c t = ground arith
allowed_below_lem redis limit (suc n) c t =
    ground
      (arith, check_limit-counts redis limit n (c n) (t n), allowed_below_lem redis limit n c t)

-- A response that does not let the request through.
abbrev pub is_refused : Response → Bool
is_refused passes = false
is_refused (passes_with limit remaining) = false
is_refused (too_many limit retry_after) = leb 1 retry_after

abbrev pub exceeds : ℕ → Result ℕ → Bool
exceeds limit (raises e) = false
exceeds limit (ok n) = ltb limit n

abbrev pub is_ok : Result (Unit {0}) → Bool
is_ok (raises e) = false
is_ok (ok t) = true

-- A request is refused, with a Retry-After of at least a second, exactly when its path is of the
-- API, Redis was reached and counted more requests of its session, or else of its address, than the
-- limit of that kind, and it answered the TTL and, for a first request, set the expiry: every
-- failure of Redis lets the request through.
pub dispatch_lem :
    (m : RateLimitMiddleware) (q : HttpRequest) (redis : String → Redis)
    → let (key, limit) = key_of m q in
      let r = redis key in
      is_refused (dispatch m q redis) ≡ (
        starts_with q.path "/api/v1"
        && not (starts_with q.path "/health")
        && is_ok r.connect
        && exceeds limit r.incr
        && answers_ttl r.ttl
        && (exceeds 1 r.incr || is_ok r.expire))
unfolding dispatch check_limit expire_first judge
dispatch_lem m q redis = ground arith
