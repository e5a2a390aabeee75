-- ===== src/Positions/OpenGaps.antt =====
-- Two ways in which opening a position leaves a leg open that no stored position knows of.
use Prim.Native.String.{◌++◌ as str_append}
use asgard_hl_basisstrategy.Base.{
  message, ℕ, String, ◌≡◌, refl, Bool, true, false, ◌||◌, ◌∙◌, Option, none, some, ◌∷◌, ap, any,
  or_else, if◌then◌else◌, Numbers, zero_number, IsOrdered, Error, attribute_error, Result, ok,
  raises, arith, not,
}
use asgard_hl_basisstrategy.Fills.{FillInfo, proceed, soft_stop, hard_stop}
use asgard_hl_basisstrategy.Fills.Actions.{deviates, validate_fills-action}
use asgard_hl_basisstrategy.Positions.Types.{
  AsgardPosition, HyperliquidPosition, ConsensusResult, ArbitrageOpportunity, OpenPositionResult,
  OrderResult, PositionInfo, HyperliquidOpenResult, Venues, VenueCall, checks_consensus, opens_long,
  PositionManagerResult, PositionManager, closes_short,
}
use asgard_hl_basisstrategy.Positions.Open.{
  finish_open, open_short_leg, open_legs, open_position, after_long, sizes_of, Sizes,
}
use asgard_hl_basisstrategy.Positions.Legs.{
  act_on, hyperliquid_fill_of, validate_position_entry, failed_at, open_hyperliquid_position,
  after_order, hyperliquid_position, token_price, to_option,
}
use asgard_hl_basisstrategy.Positions.OpenLaws.{Outcome, opens_a_short, closes_a_leg, closes_a_long}

module _ (N : Numbers) where
  abbrev pub trading : Sizes N → ArbitrageOpportunity N → Outcome N → Outcome N
  trading z o (m', calls, result) =
      (m', checks_consensus ∷ opens_long z.collateral_usd o.leverage ∷ calls, result)

  -- The outcome of `open_position` once its long is open.
  abbrev pub after_the_long :
      Sizes N → ArbitrageOpportunity N → AsgardPosition N → Venues N → PositionManager N → Outcome N
  after_the_long z o p v m = trading z o (open_short_leg N z o p v m)

  open_legs-short :
      (z : Sizes N) (o : ArbitrageOpportunity N) (v : Venues N) (m : PositionManager N)
      (a : OpenPositionResult N) (p : AsgardPosition N)
      → a.success ≡ true
      → a.position ≡ some p
      → open_legs N z o v m (ok a) ≡ open_short_leg N z o p v m
  unfolding open_legs after_long
  open_legs-short z o v m a p opened given = rw (opened, open_legs) (rw (given, after_long) refl)

  past_guards :
      {A : Type 0} (x y z : A) (passed unpriced : Bool)
      → passed ≡ true
      → unpriced ≡ false
      → (if not passed then x else if unpriced then y else z) ≡ z
  past_guards x y z false unpriced h k = ground arith
  past_guards x y z true true h k = ground arith
  past_guards x y z true false h k = refl

  abbrev pub closes_a_short : VenueCall N → Bool
  closes_a_short (closes_short coin size) = true
  closes_a_short _ = false

  short_unknown :
      (z : Sizes N) (o : ArbitrageOpportunity N) (p : AsgardPosition N) (v : Venues N)
      (m : PositionManager N) (order : OrderResult N) (e : Error)
      → v.open_short ≡ ok order
      → order.success ≡ true
      → v.get_position ≡ raises e
      → let (m', calls, result) = open_short_leg N z o p v m in
        (m' ≡ m)
        × (any (opens_a_short N) calls ≡ true)
        × (any (closes_a_long N) calls ≡ true)
        × (any closes_a_short calls ≡ false)
        × (result
            ≡ ok (
                failed_at N
                  (str_append "Failed to open Hyperliquid position: " (message e))
                  "hyperliquid_open"))
  unfolding open_short_leg open_hyperliquid_position after_order
  short_unknown z o p v m order e short filled failed = ground arith

  open_position-short :
      (id : String) (now : ℕ) (o : ArbitrageOpportunity N) (v : Venues N) (m : PositionManager N)
      (a : OpenPositionResult N) (p : AsgardPosition N)
      → o.preflight_checks_passed ≡ true
      → N.eq (token_price N (to_option v.consensus)) (zero_number N) ≡ false
      → v.open_long ≡ ok a
      → a.success ≡ true
      → a.position ≡ some p
      → open_position N id now o v m ≡ after_the_long (sizes_of N id now o v) o p v m
  unfolding open_position sizes_of
  open_position-short id now o v m a p passed priced long opened given =
      let z = sizes_of N id now o v in
      past_guards _ _ _ o.preflight_checks_passed (N.eq z.price (zero_number N)) passed priced
      ∙ ap (trading z o) (ap (open_legs N z o v m) long ∙ open_legs-short z o v m a p opened given)

  -- If the short was ordered and the query for the new position then raises, `open_position`
  -- reports that the short failed and closes the long, but never asks to close the short.
  pub open_position_leaves_short :
      (id : String) (now : ℕ) (o : ArbitrageOpportunity N) (v : Venues N) (m : PositionManager N)
      (a : OpenPositionResult N) (p : AsgardPosition N) (order : OrderResult N) (e : Error)
      → o.preflight_checks_passed ≡ true
      → N.eq (token_price N (to_option v.consensus)) (zero_number N) ≡ false
      → v.open_long ≡ ok a
      → a.success ≡ true
      → a.position ≡ some p
      → v.open_short ≡ ok order
      → order.success ≡ true
      → v.get_position ≡ raises e
      → let (m', calls, result) = open_position N id now o v m in
        (m' ≡ m)
        × (any (opens_a_short N) calls ≡ true)
        × (any (closes_a_long N) calls ≡ true)
        × (any closes_a_short calls ≡ false)
        × (result
            ≡ ok (
                failed_at N
                  (str_append "Failed to open Hyperliquid position: " (message e))
                  "hyperliquid_open"))
  open_position_leaves_short id now o v m a p order e passed priced long opened given short filled
        failed =
      rw (open_position-short id now o v m a p passed priced long opened given)
        (short_unknown (sizes_of N id now o v) o p v m order e short filled failed)

module _ (N : Numbers) (order : IsOrdered N) where
  abbrev pub no_reason : Result (PositionManagerResult N)
  no_reason = raises (attribute_error "'ValidationResult' object has no attribute 'reason'")

  or_right : (x : Bool) {y : Bool} → y ≡ true → (x || y) ≡ true
  or_right x h = ground arith

  act_on-stop :
      (stopped losing : Bool)
      → stopped ≡ true
      → act_on N (if stopped then (if losing then hard_stop else soft_stop) else proceed)
        ≡ no_reason
  unfolding act_on
  act_on-stop false losing h = ground arith
  act_on-stop true false h = refl
  act_on-stop true true h = refl

  validate_position_entry-stop :
      (limit : N.Number) (p : AsgardPosition N) (hl : HyperliquidOpenResult N)
      (o : ArbitrageOpportunity N) (consensus : Option (ConsensusResult N))
      (h : HyperliquidPosition N)
      → hl.position_info ≡ some h
      → deviates N order limit
          (hyperliquid_fill_of N (or_else hl.avg_px (zero_number N)) h consensus)
        ≡ true
      → validate_position_entry N limit p hl o consensus ≡ no_reason
  unfolding validate_position_entry
  validate_position_entry-stop limit p hl o consensus h found far =
      rw (found, validate_position_entry)
        (ap (act_on N) (validate_fills-action N order limit o.total_expected_apy _ _).0
          ∙ act_on-stop _ _ (or_right _ far))

  -- The fill of the short as `_validate_position_entry` sees it.
  abbrev pub short_fill :
      Sizes N → ArbitrageOpportunity N → OrderResult N → Option (PositionInfo N) → FillInfo N
  short_fill z o r info =
      hyperliquid_fill_of N (or_else r.avg_px (zero_number N))
        (hyperliquid_position N "SOL" z.sol_size (N.truncate o.leverage) r info) z.consensus

  abbrev pub opened_short :
      Sizes N
      → ArbitrageOpportunity N
      → OrderResult N
      → Option (PositionInfo N)
      → HyperliquidOpenResult N
  opened_short z o r info = record {
    success = true;
    order_id = r.order_id;
    avg_px = r.avg_px;
    position_info = some (hyperliquid_position N "SOL" z.sol_size (N.truncate o.leverage) r info);
    error = none;
  }

  short_stopped :
      (z : Sizes N) (o : ArbitrageOpportunity N) (p : AsgardPosition N) (v : Venues N)
      (m : PositionManager N) (r : OrderResult N) (info : Option (PositionInfo N))
      → v.open_short ≡ ok r
      → r.success ≡ true
      → v.get_position ≡ ok info
      → deviates N order m.fill_limit (short_fill z o r info) ≡ true
      → let (m', calls, result) = open_short_leg N z o p v m in
        (m' ≡ m)
        × (any (opens_a_short N) calls ≡ true)
        × (any (closes_a_leg N) calls ≡ false)
        × (result ≡ no_reason)
  unfolding open_short_leg open_hyperliquid_position after_order finish_open
  short_stopped z o p v m r info short filled known far = ground (
    arith,
    validate_position_entry-stop m.fill_limit p (opened_short z o r info) o z.consensus
        (hyperliquid_position N "SOL" z.sol_size (N.truncate o.leverage) r info) refl far,
  )

  -- If both legs open and the fill of the short deviates from the price that the consensus gave for
  -- it by more than the limit, `open_position` ends in the AttributeError of reading the stop's
  -- reason: no position is stored and neither leg is closed, whether the stop was hard or soft.
  pub open_position_leaves_both :
      (id : String) (now : ℕ) (o : ArbitrageOpportunity N) (v : Venues N) (m : PositionManager N)
      (a : OpenPositionResult N) (p : AsgardPosition N) (r : OrderResult N)
      (info : Option (PositionInfo N))
      → o.preflight_checks_passed ≡ true
      → N.eq (token_price N (to_option v.consensus)) (zero_number N) ≡ false
      → v.open_long ≡ ok a
      → a.success ≡ true
      → a.position ≡ some p
      → v.open_short ≡ ok r
      → r.success ≡ true
      → v.get_position ≡ ok info
      → deviates N order m.fill_limit (short_fill (sizes_of N id now o v) o r info) ≡ true
      → let (m', calls, result) = open_position N id now o v m in
        (m' ≡ m)
        × (any (opens_a_short N) calls ≡ true)
        × (any (closes_a_leg N) calls ≡ false)
        × (result ≡ no_reason)
  open_position_leaves_both id now o v m a p r info passed priced long opened given short filled
        known far =
      rw (open_position-short N id now o v m a p passed priced long opened given)
        (short_stopped (sizes_of N id now o v) o p v m r info short filled known far)
