-- ===== src/Positions/Lives.antt =====
-- What the closes of one position request over any calls of `open_position`, `close_position` and
-- `refresh_position`.
use mathlib.Core.List.{append-nil}
use asgard_hl_basisstrategy.Base.{
  str_eq, lookup, lookup-insert, ℕ, String, ◌≡◌, refl, Bool, true, false, Option, none, some, List,
  [], ◌∷◌, ◌++◌, any, str-eq_iff, ap, if◌then◌else◌, Numbers, Result, arith, inl, inr, Bool-cases,
  Option-cases,
}
use asgard_hl_basisstrategy.Positions.Types.{
  ArbitrageOpportunity, ExitReason, CombinedPosition, closed, stuck, Venues, VenueCall,
  PositionInfo, closes_short, closes_long, PositionManager,
}
use asgard_hl_basisstrategy.Positions.Open.{open_position}
use asgard_hl_basisstrategy.Positions.Close.{
  is_opened, close_position, refreshed, refresh_position, refresh_short,
}
use asgard_hl_basisstrategy.Positions.CloseLaws.{close_legs_lem, any_leg_closed}
use asgard_hl_basisstrategy.Positions.Spares.{open_position-Spares}

module _ (N : Numbers) where
  open N use {Number}

  -- What a close of a position requests.
  abbrev pub closing_calls : Option (CombinedPosition N) → List (VenueCall N)
  closing_calls none = []
  closing_calls (some p) =
      if is_opened p.status
      then closes_short p.hyperliquid.coin (N.round 6 (N.abs p.hyperliquid.size_sol))
        ∷ closes_long p.asgard.position_pda
        ∷ []
      else []

  abbrev pub target : String → PositionManager N → List (VenueCall N)
  target j m = closing_calls (lookup j m.positions)

  not_opened : (b : Bool) → is_opened (if b then closed else stuck) ≡ false
  not_opened true = refl
  not_opened false = refl

  close_position-target :
      (id j : String) (reason : ExitReason) (now : ℕ) (v : Venues N) (m : PositionManager N)
      → let (m', calls, r) = close_position N id reason now v m in
        (calls ≡ target id m) × (target j m' ≡ (if str_eq id j then [] else target j m))
  unfolding close_position
  close_position-target id j reason now v m = elim (Option-cases (lookup id m.positions)) [
    | inl absent ↦ rw (absent, close_position) (refl, ground (arith, absent, str-eq_iff id j))
    | inr (p, found) ↦ elim (Bool-cases (is_opened p.status)) [
      | inl good ↦
          let closes = close_legs_lem N id j reason now v m p in
          rw (found, good, close_position)
            (closes.0, ground (arith, closes.2, not_opened (any_leg_closed N v)))
      | inr bad ↦
          rw (found, bad, close_position) (refl, ground (arith, found, bad, str-eq_iff id j))
    ]
  ]

  refresh_position-target :
      (id j : String) (health : Result Number) (info : Result (Option (PositionInfo N)))
      (m : PositionManager N)
      → target j (refresh_position N id health info m).0 ≡ target j m
  unfolding refresh_position refreshed refresh_short
  refresh_position-target id j health info m = elim (Option-cases (lookup id m.positions)) [
    | inl absent ↦ rw (absent, refresh_position) refl
    | inr (p, found) ↦
        rw (found, refresh_position)
          (ground (
            arith,
            lookup-insert id j (refreshed N health info p) m.positions,
            found,
            str-eq_iff id j,
          ))
  ]

  -- A call of the methods that change the tracked positions, with what is answered to it.
  pub data Call : Type 0 where
    open_call : String → ℕ → ArbitrageOpportunity N → Venues N → Call
    close_call : String → ExitReason → ℕ → Venues N → Call
    refresh_call : String → Result Number → Result (Option (PositionInfo N)) → Call

  -- The manager after a call, and the requests of the call if it is a close of the position.
  abbrev pub step : String → Call → PositionManager N → PositionManager N × List (VenueCall N)
  step j (open_call id now o v) m = ((open_position N id now o v m).0, [])
  step j (close_call id reason now v) m =
      let (m', calls, r) = close_position N id reason now v m in
      (m', if str_eq id j then calls else [])
  step j (refresh_call id health info) m = ((refresh_position N id health info m).0, [])

  abbrev pub requests_to_close : String → List Call → PositionManager N → List (VenueCall N)
  requests_to_close j [] m = []
  requests_to_close j (c ∷ cs) m =
      let (m', calls) = step j c m in calls ++ requests_to_close j cs m'

  abbrev pub opens_as : String → Call → Bool
  opens_as j (open_call id now o v) = str_eq id j
  opens_as j _ = false

  abbrev pub is_close_of : String → Call → Bool
  is_close_of j (close_call id reason now v) = str_eq id j
  is_close_of j _ = false

  step-target :
      (j : String) (c : Call) (m : PositionManager N)
      → opens_as j c ≡ false
      → let (m', calls) = step j c m in
        (calls ≡ (if is_close_of j c then target j m else []))
        × (target j m' ≡ (if is_close_of j c then [] else target j m))
  step-target j (open_call id now o v) m fresh =
      (refl, ap closing_calls (open_position-Spares N j id now o v m fresh))
  step-target j (close_call id reason now v) m fresh =
      let (calls, left) = close_position-target id j reason now v m in
      (ground (arith, calls, str-eq_iff id j), left)
  step-target j (refresh_call id health info) m fresh =
      (refl, refresh_position-target id j health info m)

  -- Over any calls of `open_position`, `close_position` and `refresh_position`, in any order, that
  -- open no position under the id, the closes of a position together request what one close does:
  -- both legs once, the short first, if the position is open at the start and some call closes it,
  -- whatever the venues answered to it; and nothing otherwise.
  pub requests_to_close_lem :
      (j : String) (cs : List Call) (m : PositionManager N)
      → any (opens_as j) cs ≡ false
      → requests_to_close j cs m ≡ (if any (is_close_of j) cs then target j m else [])
  requests_to_close_lem j [] m fresh = refl
  requests_to_close_lem j (c ∷ cs) m fresh =
      let now = step-target j c m (ground (arith, fresh)) in
      let later = requests_to_close_lem j cs (step j c m).0 (ground (arith, fresh)) in
      ground (arith, now, later, append-nil (target j m))
