-- ===== src/Tests/RateLimit.antt =====
-- The rate limiter on concrete answers of Redis.
use asgard_hl_basisstrategy.Base.{ℕ, ◌+◌, ◌≡◌, refl, some, ok}
use asgard_hl_basisstrategy.RateLimit.{
  HttpRequest, Redis, default_middleware, judge, expire_first, check_limit, too_many, dispatch,
}
use asgard_hl_basisstrategy.RateLimit.Windows.{Counts, allowed_below, allowed_below_lem}

-- The answers to the request with the number n of a window.
abbrev redis : ℕ → Redis
redis n = record { connect = ok tt; incr = ok (n + 1); expire = ok tt; ttl = ok 30 }

abbrev request : HttpRequest
request = record { path = "/api/v1/positions"; session_id = some ""; client_ip = some "10.0.0.1" }

counted : (i : ℕ) → Counts redis i
counted i = record { connects = refl; counts = refl; expires = refl }

refused_test : dispatch default_middleware request (λ key. redis 20) ≡ too_many 20 30
unfolding dispatch check_limit expire_first judge
refused_test = refl

allowed_below_lem_example : allowed_below redis 20 100 ≡ 20
allowed_below_lem_example = allowed_below_lem redis 20 100 counted (λ i. refl)
