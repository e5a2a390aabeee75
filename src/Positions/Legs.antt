-- ===== src/Positions/Legs.antt =====
-- The legs that `open_position` opens, and `_validate_position_entry`. Each gives its result, and the
-- requests that it made; an exception that leaves it is `raises`.
use asgard_hl_basisstrategy.Base.{
  message, String, true, false, Option, none, some, List, [], ◌∷◌, not, or_else, if◌then◌else◌,
  Numbers, zero_number, attribute_error, Result, ok, raises,
}
use asgard_hl_basisstrategy.Fills.{
  Action, proceed, soft_stop, hard_stop, FillInfo, fill_info, validate_fills,
}
use asgard_hl_basisstrategy.Positions.Types.{
  AsgardPosition, HyperliquidPosition, ConsensusResult, consensus_price, ArbitrageOpportunity,
  OrderResult, PositionInfo, HyperliquidOpenResult, Venues, VenueCall, updates_leverage,
  opens_short, gets_position, PositionManagerResult,
}

-- A missing text in an f-string.
abbrev pub show : Option String → String
show none = "None"
show (some m) = m

-- What a `try` block that swallows exceptions leaves of a request.
abbrev pub to_option {ℓ} : {A : Type ℓ} → Result A → Option A
to_option (ok a) = some a
to_option (raises e) = none

module _ (N : Numbers) where
  open N use {Number, literal, add, sub, mul, div, neg, abs, truncate, lt, eq}

  abbrev pub failed_at : String → String → PositionManagerResult N
  failed_at error stage = record {
    success = false;
    position = none;
    error = some error;
    stage = some stage;
  }

  -- The price for the sizes: that of the consensus if there is one and it is not 0, else 100.
  unfoldable pub token_price : Option (ConsensusResult N) → Number
  token_price none = literal 100 0
  token_price (some c) =
      if eq (consensus_price N c) (zero_number N) then literal 100 0 else consensus_price N c

  abbrev pub margin_used_of : Option (PositionInfo N) → Number
  margin_used_of none = zero_number N
  margin_used_of (some p) = p.margin_used

  abbrev pub margin_fraction_of : Option (PositionInfo N) → Number
  margin_fraction_of none = zero_number N
  margin_fraction_of (some p) = p.margin_fraction

  abbrev pub mark_px_of : Option (PositionInfo N) → Number
  mark_px_of none = zero_number N
  mark_px_of (some p) = p.entry_px

  -- The `HyperliquidPosition` of an order that went through.
  unfoldable pub hyperliquid_position :
      String → Number → Number → OrderResult N → Option (PositionInfo N) → HyperliquidPosition N
  hyperliquid_position coin size leverage order info =
      let margin_used = margin_used_of info in
      let margin_fraction = margin_fraction_of info in
      record {
        coin = coin;
        size_sol = neg size;
        entry_px = or_else order.avg_px (zero_number N);
        leverage = leverage;
        margin_used = margin_used;
        margin_fraction = margin_fraction;
        account_value =
            if lt (zero_number N) margin_fraction
            then div margin_used margin_fraction
            else mul margin_used (literal 4 0);
        mark_px = mark_px_of info;
      }

  abbrev pub open_failed : Option String → HyperliquidOpenResult N
  open_failed error = record {
    success = false;
    order_id = none;
    avg_px = none;
    position_info = none;
    error = error;
  }

  -- The second `try` block of `_open_hyperliquid_position`, after the order was answered.
  unfoldable pub after_order :
      String
      → Number
      → Number
      → OrderResult N
      → Venues N
      → List (VenueCall N) × HyperliquidOpenResult N
  after_order coin size leverage order v =
      if not order.success then ([], open_failed (some (or_else order.error "Order failed"))) else (
        gets_position coin ∷ [],
        elim v.get_position [
          | raises e ↦ open_failed (some (message e))
          | ok info ↦ record {
            success = true;
            order_id = order.order_id;
            avg_px = order.avg_px;
            position_info = some (hyperliquid_position coin size leverage order info);
            error = none;
          }
        ],
      )

  -- `_open_hyperliquid_position`: a failure to set the leverage is only logged.
  unfoldable pub open_hyperliquid_position :
      String → Number → Number → Venues N → List (VenueCall N) × HyperliquidOpenResult N
  open_hyperliquid_position coin size leverage v = elim v.open_short [
    | raises e ↦ (
      updates_leverage coin leverage ∷ opens_short coin (N.round 6 size) ∷ [],
      open_failed (some (message e)),
    )
    | ok order ↦
        let (calls, result) = after_order coin size leverage order v in
        (updates_leverage coin leverage ∷ opens_short coin (N.round 6 size) ∷ calls, result)
  ]

  -- `ValidationResult` of the fill validator has no attribute `reason`, which the texts of the hard
  -- stop and of the soft stop read.
  unfoldable pub act_on : Action → Result (PositionManagerResult N)
  act_on hard_stop = raises (attribute_error "'ValidationResult' object has no attribute 'reason'")
  act_on soft_stop = raises (attribute_error "'ValidationResult' object has no attribute 'reason'")
  act_on proceed = ok (record { success = true; position = none; error = none; stage = none })

  -- The price that the short fill is held against.
  abbrev pub expected_short_price : Option (ConsensusResult N) → Number → Number
  expected_short_price none px = px
  expected_short_price (some c) px = c.hyperliquid_price

  -- The fills that `_validate_position_entry` holds against each other.
  unfoldable pub asgard_fill_of : AsgardPosition N → FillInfo N
  asgard_fill_of p =
      fill_info N "asgard" "long" p.position_size_usd p.entry_price_token_a p.entry_price_token_a

  unfoldable pub hyperliquid_fill_of :
      Number → HyperliquidPosition N → Option (ConsensusResult N) → FillInfo N
  hyperliquid_fill_of px h consensus =
      fill_info N "hyperliquid" "short" (mul (abs h.size_sol) px) px
        (expected_short_price consensus px)

  -- `_validate_position_entry`; what it does with the delta is logging.
  unfoldable pub validate_position_entry :
      Number
      → AsgardPosition N
      → HyperliquidOpenResult N
      → ArbitrageOpportunity N
      → Option (ConsensusResult N)
      → Result (PositionManagerResult N)
  validate_position_entry limit p hl o consensus = elim hl.position_info [
    | none ↦ ok (record {
      success = false;
      position = none;
      error = some "Missing position data for validation";
      stage = none;
    })
    | some h ↦
        let hl_entry_px = or_else hl.avg_px (zero_number N) in
        act_on
          (validate_fills N limit (asgard_fill_of p) (hyperliquid_fill_of hl_entry_px h consensus)
            o.total_expected_apy).action
  ]
