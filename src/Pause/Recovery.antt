-- ===== src/Pause/Recovery.antt =====
-- `check_and_recover`: the loop over the breakers, whose body changes the list that it walks.
use native.Mathlib.Numerals.{add-one}
use asgard_hl_basisstrategy.Base.{
  ℕ, zero, suc, ◌+◌, ◌<◌, String, ◌≡◌, ◌≢◌, refl, Bool, false, ◌&&◌, not, none, some, List, [], ◌∷◌,
  map, any, get_elem?, length, arith, inl, inr, Bool-cases, Option-cases, length-map,
}
use asgard_hl_basisstrategy.Pause.{
  PauseController, CircuitBreakerType, CircuitBreakerEvent, resolve_one, type_eq,
}
use asgard_hl_basisstrategy.Pause.Breakers.{
  is_due, resolve_circuit_breaker, recover_loop, check_and_recover,
}
use asgard_hl_basisstrategy.Pause.Resolve.{matches, resolve_circuit_breaker_lem}

-- No breaker among the first `i` is due.
abbrev NoneDue : ℕ → ℕ → List CircuitBreakerEvent → Type 0
NoneDue now zero bs = Unit {0}
NoneDue now (suc i) [] = Unit {0}
NoneDue now (suc i) (b ∷ bs) = (is_due now b ≡ false) × NoneDue now i bs

NoneDue-resolve_one :
    (t : CircuitBreakerType) (by : String) (now i : ℕ) (bs : List CircuitBreakerEvent)
    → NoneDue now i bs
    → NoneDue now i (map (resolve_one t by now) bs)
unfolding resolve_one
NoneDue-resolve_one t by now zero bs h = tt
NoneDue-resolve_one t by now (suc i) [] h = tt
NoneDue-resolve_one t by now (suc i) (b ∷ bs) h =
    ground (arith, NoneDue-resolve_one t by now i bs h.1)

NoneDue-next :
    (now i : ℕ) (bs : List CircuitBreakerEvent) (b : CircuitBreakerEvent)
    → NoneDue now i bs
    → get_elem? bs i ≡ some b
    → is_due now b ≡ false
    → NoneDue now (suc i) bs
NoneDue-next now i [] b h e w = tt
NoneDue-next now zero (x ∷ bs) b h e w = ground arith
NoneDue-next now (suc i) (x ∷ bs) b h e w = (h.0, NoneDue-next now i bs b h.1 e w)

NoneDue-resolve_next :
    (by : String) (now i : ℕ) (bs : List CircuitBreakerEvent) (b : CircuitBreakerEvent)
    → NoneDue now i bs
    → get_elem? bs i ≡ some b
    → NoneDue now (suc i) (map (resolve_one b.breaker_type by now) bs)
unfolding resolve_one
NoneDue-resolve_next by now i [] b h e = tt
NoneDue-resolve_next by now zero (x ∷ bs) b h e = ground arith
NoneDue-resolve_next by now (suc i) (x ∷ bs) b h e =
    ground (arith, NoneDue-resolve_next by now i bs b h.1 e)

NoneDue-all :
    (now i : ℕ) (bs : List CircuitBreakerEvent)
    → length bs ≡ i
    → NoneDue now i bs
    → any (is_due now) bs ≡ false
NoneDue-all now i [] e h = refl
NoneDue-all now zero (b ∷ bs) e h = absurd (omega arith)
NoneDue-all now (suc i) (b ∷ bs) e h = ground (arith, NoneDue-all now i bs (omega arith) h.1)

breakers-resolve :
    (t : CircuitBreakerType) (by : String) (now : ℕ) (c : PauseController)
    → (resolve_circuit_breaker t by now c).0.circuit_breakers
      ≡ map (resolve_one t by now) c.circuit_breakers
unfolding resolve_circuit_breaker
breakers-resolve t by now c = ground arith

get_elem?_short : (i : ℕ) (bs : List CircuitBreakerEvent) → i < length bs → get_elem? bs i ≢ none
get_elem?_short i [] h e = absurd (omega arith)
get_elem?_short zero (b ∷ bs) h e = cc
get_elem?_short (suc i) (b ∷ bs) h e = get_elem?_short i bs (omega arith) e

recover_loop_lem :
    (now n i : ℕ) (c : PauseController)
    → i + n ≡ length c.circuit_breakers
    → NoneDue now i c.circuit_breakers
    → any (is_due now) (recover_loop now n i c).0.circuit_breakers ≡ false
unfolding recover_loop
recover_loop_lem now zero i c e h = NoneDue-all now i c.circuit_breakers (omega arith) h
recover_loop_lem now (suc n) i c e h = elim (Option-cases (get_elem? c.circuit_breakers i)) [
  | inl missing ↦ absurd (get_elem?_short i c.circuit_breakers (omega arith) missing)
  | inr (b, found) ↦ elim (Bool-cases (is_due now b)) [
    | inl due ↦
        rw (found, recover_loop)
          (rw due (
            recover_loop_lem now n (i + 1) (resolve_circuit_breaker b.breaker_type "auto" now c).0
              (rw (breakers-resolve b.breaker_type "auto" now c) (
                omega
                  (arith, length-map (resolve_one b.breaker_type "auto" now) c.circuit_breakers)))
              (rw (breakers-resolve b.breaker_type "auto" now c, add-one)
                (NoneDue-resolve_next "auto" now i c.circuit_breakers b h found))))
    | inr waiting ↦
        rw (found, recover_loop)
          (rw waiting (
            recover_loop_lem now n (i + 1) c (omega arith)
              (rw add-one (NoneDue-next now i c.circuit_breakers b h found waiting))))
  ]
]

-- `breaker_type in recovered`
abbrev pub contains : CircuitBreakerType → List CircuitBreakerType → Bool
contains u ts = any (type_eq u) ts

matches-resolve :
    (t u : CircuitBreakerType) (by : String) (now : ℕ) (c : PauseController)
    → any (matches u) (resolve_circuit_breaker t by now c).0.circuit_breakers
      ≡ (any (matches u) c.circuit_breakers && not (type_eq u t))
matches-resolve t u by now c = ground (arith, resolve_circuit_breaker_lem t u by now c)

recover_loop_types :
    (u : CircuitBreakerType) (now n i : ℕ) (c : PauseController)
    → let (c', _, recovered) = recover_loop now n i c in
      any (matches u) c'.circuit_breakers
      ≡ (any (matches u) c.circuit_breakers && not (contains u recovered))
unfolding recover_loop
recover_loop_types u now zero i c = ground arith
recover_loop_types u now (suc n) i c = elim (Option-cases (get_elem? c.circuit_breakers i)) [
  | inl missing ↦ rw (missing, recover_loop) (ground arith)
  | inr (b, found) ↦ elim (Bool-cases (is_due now b)) [
    | inl due ↦
        rw (found, recover_loop)
          (rw due (
            ground (
              arith,
              matches-resolve b.breaker_type u "auto" now c,
              recover_loop_types u now n (i + 1)
                  (resolve_circuit_breaker b.breaker_type "auto" now c).0,
            )))
    | inr waiting ↦ rw (found, recover_loop) (rw waiting (recover_loop_types u now n (i + 1) c))
  ]
]

-- After a recovery check no breaker is left that is active, recovers by itself and has reached its
-- recovery time; and a type has an active breaker exactly when it had one and the call did not
-- list the type as recovered.
pub check_and_recover_lem :
    (u : CircuitBreakerType) (now : ℕ) (c : PauseController)
    → let (c', _, recovered) = check_and_recover now c in
      (any (is_due now) c'.circuit_breakers ≡ false)
      × (any (matches u) c'.circuit_breakers
          ≡ (any (matches u) c.circuit_breakers && not (contains u recovered)))
unfolding check_and_recover
check_and_recover_lem u now c = (
  recover_loop_lem now (length c.circuit_breakers) 0 c (omega arith) tt,
  recover_loop_types u now (length c.circuit_breakers) 0 c,
)
