-- ===== src/Pause/Resolve.antt =====
-- What `resolve_circuit_breaker` and `resume` do to the breakers.
use asgard_hl_basisstrategy.Base.{
  ℕ, String, ◌≡◌, ◌≢◌, refl, Bool, true, false, ◌&&◌, List, [], ◌∷◌, map, any, not, str-eq_iff, ok,
  arith,
}
use asgard_hl_basisstrategy.Pause.{
  PauseController, CircuitBreakerType, CircuitBreakerEvent, manual, type_eq, is_active, resume,
  resolve_one, has_active_breakers,
}
use asgard_hl_basisstrategy.Pause.Breakers.{resolve_circuit_breaker}

-- The test of the loops that resolve the breakers of a type.
abbrev pub matches : CircuitBreakerType → CircuitBreakerEvent → Bool
matches t b = type_eq b.breaker_type t && is_active b

pub map-resolve_one_none :
    (t : CircuitBreakerType) (by : String) (now : ℕ) (bs : List CircuitBreakerEvent)
    → any (matches t) bs ≡ false
    → map (resolve_one t by now) bs ≡ bs
unfolding resolve_one
map-resolve_one_none t by now [] h = refl
map-resolve_one_none t by now (b ∷ bs) h = ground (arith, map-resolve_one_none t by now bs)

any-matches-resolve_one_self :
    (t : CircuitBreakerType) (by : String) (now : ℕ) (bs : List CircuitBreakerEvent)
    → any (matches t) (map (resolve_one t by now) bs) ≡ false
unfolding resolve_one
any-matches-resolve_one_self t by now [] = refl
any-matches-resolve_one_self t by now (b ∷ bs) =
    ground (arith, any-matches-resolve_one_self t by now bs)

any-matches-resolve_one_ne :
    (t u : CircuitBreakerType) (by : String) (now : ℕ) (bs : List CircuitBreakerEvent)
    → u ≢ t
    → any (matches u) (map (resolve_one t by now) bs) ≡ any (matches u) bs
unfolding resolve_one
any-matches-resolve_one_ne t u by now [] ne = refl
any-matches-resolve_one_ne t u by now (b ∷ bs) ne =
    ground (arith, any-matches-resolve_one_ne t u by now bs ne)

-- `resolve_circuit_breaker` returns whether the type had an active breaker. Afterwards the type has
-- none, every other type has one exactly when it had, and the controller is paused exactly when it
-- was and not both: the call resolved something and left no breaker of any type active.
pub resolve_circuit_breaker_lem :
    (t u : CircuitBreakerType) (by : String) (now : ℕ) (c : PauseController)
    → let (c', _, resolved) = resolve_circuit_breaker t by now c in
      (resolved ≡ any (matches t) c.circuit_breakers)
      × (any (matches u) c'.circuit_breakers
          ≡ (not (type_eq u t) && any (matches u) c.circuit_breakers))
      × (c'.paused ≡ (c.paused && not (resolved && not (any is_active c'.circuit_breakers))))
unfolding resolve_circuit_breaker has_active_breakers
resolve_circuit_breaker_lem t u by now c = ground (
  arith,
  any-matches-resolve_one_self t by now c.circuit_breakers,
  any-matches-resolve_one_ne t u by now c.circuit_breakers,
)

-- A resume with the admin key succeeds, ends the pause and resolves the manual breakers, and
-- leaves the active breakers of every other type active.
pub resume_lem :
    (key : String) (u : CircuitBreakerType) (now : ℕ) (c : PauseController)
    → key ≡ c.admin_api_key
    → u ≢ manual
    → let (c', _, result) = resume key now c in
      (result ≡ ok true)
      × (c'.paused ≡ false)
      × (any (matches manual) c'.circuit_breakers ≡ false)
      × (any (matches u) c'.circuit_breakers ≡ any (matches u) c.circuit_breakers)
unfolding resume
resume_lem key u now c e ne = ground (
  arith,
  str-eq_iff key c.admin_api_key,
  any-matches-resolve_one_self manual "manual" now c.circuit_breakers,
  any-matches-resolve_one_ne manual u "manual" now c.circuit_breakers ne,
)
