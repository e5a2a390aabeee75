-- ===== src/Positions/Open.antt =====
-- `open_position` and its helpers. Each gives the requests it made and its result; an exception that
-- leaves it is `raises`. The id that `uuid4` makes and the time are arguments.
use Prim.Native.String.{◌++◌ as str_append}
use asgard_hl_basisstrategy.Positions.Legs.{
  failed_at, open_hyperliquid_position, show, to_option, token_price, validate_position_entry,
}
use asgard_hl_basisstrategy.Base.{
  insert, ℕ, String, true, Option, none, some, List, [], ◌∷◌, ◌++◌, not, or_else, if◌then◌else◌,
  Numbers, zero_number, attribute_error, exception, Result, ok, raises,
}
use asgard_hl_basisstrategy.Positions.Types.{
  opened, AsgardPosition, HyperliquidPosition, CombinedPosition, ConsensusResult,
  ArbitrageOpportunity, OpenPositionResult, HyperliquidOpenResult, Venues, VenueCall,
  checks_consensus, opens_long, closes_short, closes_long, PositionManagerResult, PositionManager,
}

module _ (N : Numbers) where
  open N use {Number, literal, div, truncate, eq}

  -- The sizes that `open_position` computes before it trades.
  pub record Sizes : Type 0 where
    pub position_id : String
    pub now : ℕ
    pub consensus : Option (ConsensusResult N)
    pub price : Number
    pub collateral_usd : Number
    pub sol_size : Number

  -- The end of `open_position`: the position is built and stored.
  unfoldable pub store_position :
      Sizes
      → ArbitrageOpportunity N
      → AsgardPosition N
      → HyperliquidOpenResult N
      → HyperliquidPosition N
      → PositionManager N
      → PositionManager N × CombinedPosition N
  store_position z o p hl h m =
      let position : CombinedPosition N = record {
        position_id = z.position_id;
        asgard = p;
        hyperliquid = h;
        reference = record {
          asgard_entry_price = p.entry_price_token_a;
          hyperliquid_entry_price = or_else hl.avg_px z.price;
          max_acceptable_deviation = literal 5 3;
        };
        opportunity_id = o.id;
        status = opened;
        exit_reason = none;
        exit_time = none;
      } in
      (
        record m {
          positions = insert z.position_id position m.positions;
          contexts =
              insert z.position_id
                (record {
                  opportunity = o;
                  consensus_result =
                      or_else z.consensus
                        (record { asgard_price = z.price; hyperliquid_price = z.price });
                  entry_time = z.now;
                  asgard_collateral_usd = z.collateral_usd;
                  hyperliquid_size_sol = z.sol_size;
                  leverage = o.leverage;
                })
                m.contexts;
        },
        position,
      )

  unfoldable pub store_opened :
      Sizes
      → ArbitrageOpportunity N
      → AsgardPosition N
      → HyperliquidOpenResult N
      → Option (HyperliquidPosition N)
      → PositionManager N
      → PositionManager N × List (VenueCall N) × Result (PositionManagerResult N)
  unfolding store_position
  store_opened z o p hl none m =
      (m, [], raises (exception "hyperliquid: Input should be a valid HyperliquidPosition"))
  store_opened z o p hl (some h) m =
      let (m', position) = store_position z o p hl h m in
      (m', [], ok (record { success = true; position = some position; error = none; stage = none }))

  -- `_emergency_close_position` makes its two requests whatever each answers.
  unfoldable pub emergency_close : Sizes → AsgardPosition N → List (VenueCall N)
  emergency_close z p = closes_short "SOL" (N.round 6 z.sol_size) ∷ closes_long p.position_pda ∷ []

  -- Step 3, from the answer of the post-execution validation.
  unfoldable pub finish_open :
      Sizes
      → ArbitrageOpportunity N
      → AsgardPosition N
      → HyperliquidOpenResult N
      → PositionManager N
      → Result (PositionManagerResult N)
      → PositionManager N × List (VenueCall N) × Result (PositionManagerResult N)
  unfolding store_opened emergency_close
  finish_open z o p hl m (raises e) = (m, [], raises e)
  finish_open z o p hl m (ok validation) =
      if not validation.success
      then (
        m,
        emergency_close z p,
        ok (failed_at N (str_append "Validation failed: " (show validation.error)) "validation"),
      )
      else store_opened z o p hl hl.position_info m

  -- Step 2: the short, or the unwinding of the long. What the unwinding answers is only logged.
  unfoldable pub open_short_leg :
      Sizes
      → ArbitrageOpportunity N
      → AsgardPosition N
      → Venues N
      → PositionManager N
      → PositionManager N × List (VenueCall N) × Result (PositionManagerResult N)
  unfolding finish_open
  open_short_leg z o p v m =
      let (calls, hl) = open_hyperliquid_position N "SOL" z.sol_size (truncate o.leverage) v in
      if not hl.success
      then (
        m,
        calls ++ closes_long p.position_pda ∷ [],
        ok (
            failed_at N (str_append "Failed to open Hyperliquid position: " (show hl.error))
              "hyperliquid_open"),
      )
      else let checked = validate_position_entry N m.fill_limit p hl o z.consensus in
        let (m', calls', result) = finish_open z o p hl m checked in (m', calls ++ calls', result)

  -- A success without a position fails where its address is logged.
  unfoldable pub after_long :
      Sizes
      → ArbitrageOpportunity N
      → Venues N
      → PositionManager N
      → Option (AsgardPosition N)
      → PositionManager N × List (VenueCall N) × Result (PositionManagerResult N)
  unfolding open_short_leg
  after_long z o v m none =
      (m, [], raises (attribute_error "'NoneType' object has no attribute 'position_pda'"))
  after_long z o v m (some p) = open_short_leg z o p v m

  -- Step 1, from what the request to open the long gave.
  unfoldable pub open_legs :
      Sizes
      → ArbitrageOpportunity N
      → Venues N
      → PositionManager N
      → Result (OpenPositionResult N)
      → PositionManager N × List (VenueCall N) × Result (PositionManagerResult N)
  unfolding after_long
  open_legs z o v m (raises e) = (m, [], raises e)
  open_legs z o v m (ok a) =
      if not a.success
      then (
        m,
        [],
        ok (
            failed_at N (str_append "Failed to open Asgard position: " (show a.error))
              "asgard_open"),
      )
      else after_long z o v m a.position

  -- The collateral and the size of each leg are half of the opportunity's.
  unfoldable pub sizes_of : String → ℕ → ArbitrageOpportunity N → Venues N → Sizes
  sizes_of id now o v =
      let consensus = to_option v.consensus in
      let price = token_price N consensus in
      record {
        position_id = id;
        now = now;
        consensus = consensus;
        price = price;
        collateral_usd = div o.deployed_capital_usd (literal 2 0);
        sol_size = div (div o.position_size_usd (literal 2 0)) price;
      }

  unfoldable pub open_position :
      String
      → ℕ
      → ArbitrageOpportunity N
      → Venues N
      → PositionManager N
      → PositionManager N × List (VenueCall N) × Result (PositionManagerResult N)
  unfolding open_legs sizes_of
  open_position id now o v m =
      let z = sizes_of id now o v in
      if not o.preflight_checks_passed
      then (m, [], ok (failed_at N "Preflight checks not passed" "preflight"))
      else if eq z.price (zero_number N)
      then (m, checks_consensus ∷ [], ok (failed_at N "Cannot determine token price" "pricing"))
      else let (m', calls, result) = open_legs z o v m v.open_long in
        (m', checks_consensus ∷ opens_long z.collateral_usd o.leverage ∷ calls, result)
