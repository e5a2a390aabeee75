-- ===== src/RateLimit.antt =====
-- backend/dashboard/middleware/rate_limit.py: class RateLimitMiddleware. What Redis answers is an
-- argument: the counter after INCR, the outcome of EXPIRE, and the TTL, which is 0 here where Redis
-- answers a negative number.
pub mod Windows
use Prim.Native.Char.{Char, code}
use Prim.Native.String.{[] as empty, ◌∷◌ as cons, ◌++◌ as str_append}
use asgard_hl_basisstrategy.Base.{
  ℕ, ◌-◌, ◌==◌, String, Bool, true, false, Option, none, some, or_else, List, [], ◌∷◌, ltb, str_eq,
  not, Result, ok, raises, if◌then◌else◌,
}

-- Python's `s.startswith(p)`
abbrev pub starts_with : String → String → Bool
starts_with s empty = true
starts_with empty (cons b p) = false
starts_with (cons a s) (cons b p) = if code a == code b then starts_with s p else false

pub record RateLimitMiddleware : Type 0 where
  pub authenticated_limit : ℕ
  pub unauthenticated_limit : ℕ
  pub window_seconds : ℕ

abbrev pub default_middleware : RateLimitMiddleware
default_middleware = record {
  authenticated_limit = 60;
  unauthenticated_limit = 20;
  window_seconds = 60;
}

-- What a request brings: an empty cookie is a false value.
pub record HttpRequest : Type 0 where
  pub path : String
  pub session_id : Option String
  pub client_ip : Option String

-- The answers of Redis to one check; `get_redis` may raise too.
pub record Redis : Type 0 where
  pub connect : Result (Unit {0})
  pub incr : Result ℕ
  pub expire : Result (Unit {0})
  pub ttl : Result ℕ

-- `(allowed, remaining, retry_after)`
pub record Verdict : Type 0 where
  pub allowed : Bool
  pub remaining : ℕ
  pub retry_after : ℕ

abbrev pub fail_open : ℕ → Verdict
fail_open limit = record { allowed = true; remaining = limit; retry_after = 0 }

abbrev pub at_least_one : ℕ → ℕ
at_least_one n = if ltb n 1 then 1 else n

-- After the counter, and after its expiry is set.
unfoldable pub judge : Redis → ℕ → ℕ → Verdict
judge r current limit =
    if ltb limit current
    then elim r.ttl [
      | raises e ↦ fail_open limit
      | ok t ↦ record { allowed = false; remaining = 0; retry_after = at_least_one t }
    ]
    else record { allowed = true; remaining = limit - current; retry_after = 0 }

unfoldable pub expire_first : Redis → ℕ → ℕ → Verdict
unfolding judge
expire_first r current limit =
    if current == 1
    then elim r.expire [ raises e ↦ fail_open limit | ok t ↦ judge r current limit ]
    else judge r current limit

unfoldable pub check_limit : Redis → ℕ → Verdict
unfolding expire_first
check_limit r limit = elim r.connect [
  | raises e ↦ fail_open limit
  | ok t ↦ elim r.incr [ raises e ↦ fail_open limit | ok current ↦ expire_first r current limit ]
]

abbrev pub session_of : HttpRequest → Option String
session_of q = elim q.session_id [ none ↦ none | some s ↦ if str_eq s "" then none else some s ]

-- The key that is counted, and its limit.
abbrev pub key_of : RateLimitMiddleware → HttpRequest → String × ℕ
key_of m q = elim (session_of q) [
  | some s ↦ (str_append "ratelimit:user:" s, m.authenticated_limit)
  | none ↦ (str_append "ratelimit:ip:" (or_else q.client_ip "unknown"), m.unauthenticated_limit)
]

-- What becomes of a request: it goes through, with or without the headers of the limit, or it is
-- refused with status 429 and a Retry-After.
pub data Response : Type 0 where
  passes : Response
  passes_with : ℕ → ℕ → Response
  too_many : ℕ → ℕ → Response

unfoldable pub dispatch : RateLimitMiddleware → HttpRequest → (String → Redis) → Response
unfolding check_limit
dispatch m q redis =
    if not (starts_with q.path "/api/v1")
    then passes
    else if starts_with q.path "/health"
    then passes
    else let (key, limit) = key_of m q in
      let v = check_limit (redis key) limit in
      if not v.allowed then too_many limit v.retry_after else passes_with limit v.remaining
