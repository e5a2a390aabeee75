-- ===== src/Trader.antt =====
-- bot/venues/hyperliquid/trader.py: `open_short` and `close_short` of class HyperliquidTrader, with the
-- stop loss. What an attempt meets is an argument, one for each of the `max_retries`. Sizes and
-- prices are the numbers of their texts; sleeping is left out. An order is sent where
-- `client.exchange` is called, whether or not that raises.
pub mod Closing
pub mod Opening
use asgard_hl_basisstrategy.Base.{
  ℕ, String, Bool, true, false, Option, none, some, or_else, List, [], ◌∷◌, ◌++◌, ◌&&◌, not,
  Numbers, zero_number, le, Result, ok, raises, value_error, if◌then◌else◌,
}

module _ (N : Numbers) where
  open N use {Number, literal, add, sub, mul, div, lt}

  pub record OrderResult : Type 0 where
    pub success : Bool
    pub filled_sz : Option Number
    pub remaining_sz : Option Number
    pub avg_px : Option Number
    pub error : Option String

  -- An order as it is sent.
  pub record Order : Type 0 where
    pub is_buy : Bool
    pub sz : Number
    pub limit_px : Number
    pub reduce_only : Bool

  -- One of the statuses of an accepted order: `filled` has "totalSz" and "avgPx", where they are there.
  pub data FillStatus : Type 0 where
    filled : Option Number → Option Number → FillStatus
    resting : FillStatus
    other : FillStatus

  pub data Response : Type 0 where
    accepted : List FillStatus → Response
    rejected : Response

  -- What one `_submit_order` meets: the asset's index, the price, the signature and the exchange.
  pub record Submission : Type 0 where
    pub index : Result (Unit {0})
    pub price : Option Number
    pub signature : Result (Unit {0})
    pub exchange : Result Response

  -- The limit is 2% above or below the price.
  abbrev pub limit_of : Bool → Number → Number
  limit_of is_buy price = N.round 1 (mul price (if is_buy then literal 102 2 else literal 98 2))

  -- The response, and the order if it was sent.
  unfoldable pub submit_order : Bool → Number → Bool → Submission → Result Response × List Order
  submit_order is_buy sz reduce_only s = elim s.index [
    | raises e ↦ (raises e, [])
    | ok i ↦ elim s.price [
      | none ↦ (raises (value_error "Could not get current price"), [])
      | some price ↦ elim s.signature [
        | raises e ↦ (raises e, [])
        | ok signed ↦ (
          s.exchange,
          record {
            is_buy = is_buy;
            sz = sz;
            limit_px = limit_of is_buy price;
            reduce_only = reduce_only;
          }
              ∷ [],
        )
      ]
    ]
  ]

  -- The first status with a fill.
  abbrev pub first_fill : List FillStatus → Option (Option Number × Option Number)
  first_fill [] = none
  first_fill (filled sz px ∷ statuses) = some (sz, px)
  first_fill (resting ∷ statuses) = first_fill statuses
  first_fill (other ∷ statuses) = first_fill statuses

  abbrev pub fill_of : Result Response → Option (Option Number × Option Number)
  fill_of (raises e) = none
  fill_of (ok rejected) = none
  fill_of (ok (accepted statuses)) = first_fill statuses

  abbrev pub failed : String → OrderResult
  failed e = record {
    success = false;
    filled_sz = none;
    remaining_sz = none;
    avg_px = none;
    error = some e;
  }

  -- The attempts to buy the short back.
  unfoldable pub close_attempts : Number → List Submission → OrderResult × List Order
  close_attempts size [] = (failed "Failed to close short", [])
  close_attempts size (s ∷ attempts) =
      let (rest, orders') = close_attempts size attempts in
      let (response, orders) = submit_order true size true s in
      elim (fill_of response) [
        | none ↦ (rest, orders ++ orders')
        | some (sz, px) ↦ (
          record {
            success = true;
            filled_sz = some (or_else sz size);
            remaining_sz = none;
            avg_px = px;
            error = none;
          },
          orders,
        )
      ]

  unfoldable pub close_short : Bool → Number → List Submission → OrderResult × List Order
  unfolding close_attempts
  close_short has_signer size attempts =
      if not has_signer then (failed "Signer not configured", []) else close_attempts size attempts

  -- What one attempt to open meets: the price for the stop loss, and the order.
  pub record Attempt : Type 0 where
    pub stop_price : Option Number
    pub submission : Submission

  -- `_check_stop_loss` of a short.
  abbrev pub is_stopped_out : Number → Option Number → Bool
  is_stopped_out stop_loss none = false
  is_stopped_out stop_loss (some price) = le N stop_loss price

  -- `_execute_stop_loss`: the retries of its close are `closing`.
  unfoldable pub execute_stop_loss : Number → List Submission → OrderResult × List Order
  unfolding close_short
  execute_stop_loss filled_size closing =
      let (r, orders) = close_short true filled_size closing in
      if lt (zero_number N) filled_size
      then (
        record {
          success = r.success;
          filled_sz = none;
          remaining_sz = none;
          avg_px = none;
          error = some "STOP-LOSS TRIGGERED";
        },
        orders,
      )
      else (failed "STOP-LOSS TRIGGERED: No position to unwind", [])

  -- The size that is filled after the statuses of a response.
  abbrev pub add_fills : List FillStatus → Number → Number
  add_fills [] size = size
  add_fills (filled none px ∷ statuses) size = add_fills statuses size
  add_fills (filled (some sz) px ∷ statuses) size =
      add_fills statuses (if lt (zero_number N) sz then add size sz else size)
  add_fills (resting ∷ statuses) size = add_fills statuses size
  add_fills (other ∷ statuses) size = add_fills statuses size

  abbrev pub filled_after : Result Response → Number → Number
  filled_after (raises e) size = size
  filled_after (ok rejected) size = size
  filled_after (ok (accepted statuses)) size = add_fills statuses size

  abbrev pub is_accepted : Result Response → Bool
  is_accepted (raises e) = false
  is_accepted (ok rejected) = false
  is_accepted (ok (accepted statuses)) = true

  -- The target, and the price before the first attempt.
  pub record Plan : Type 0 where
    pub target : Number
    pub entry : Number
    pub stop_loss : Number

  abbrev pub retries_exceeded : Plan → Number → OrderResult
  retries_exceeded p size =
      if lt (zero_number N) size
      then record {
        success = true;
        filled_sz = some size;
        remaining_sz = some (sub p.target size);
        avg_px = some p.entry;
        error = some "Max retries exceeded - partial fill";
      }
      else failed "Failed to fill"

  abbrev pub fully_filled : Plan → Number → OrderResult
  fully_filled p size = record {
    success = true;
    filled_sz = some size;
    remaining_sz = none;
    avg_px = some p.entry;
    error = none;
  }

  -- The attempts to sell what remains of the target.
  unfoldable pub open_attempts :
      Plan → List Submission → List Attempt → Number → OrderResult × List Order
  unfolding execute_stop_loss
  open_attempts p closing [] size = (retries_exceeded p size, [])
  open_attempts p closing (a ∷ attempts) size =
      let (response, orders) =
        submit_order false (N.round 4 (sub p.target size)) false a.submission in
      let size' = filled_after response size in
      let (rest, orders') = open_attempts p closing attempts size' in
      if is_stopped_out p.stop_loss a.stop_price
      then execute_stop_loss size closing
      else if is_accepted response && le N (mul p.target (literal 999 3)) size'
      then (fully_filled p size', orders)
      else (rest, orders ++ orders')

  -- With the price before the first attempt, the balance deposited, 0 if it could not be read, and
  -- the stop loss in percent of the price.
  unfoldable pub open_short :
      Bool
      → Number
      → Number
      → Option Number
      → Number
      → List Submission
      → List Attempt
      → OrderResult × List Order
  unfolding open_attempts
  open_short has_signer target stop_loss_pct price balance closing attempts =
      if not has_signer then (failed "Signer not configured", []) else elim price [
        | none ↦ (failed "Could not get current price", [])
        | some entry ↦
            if lt balance (mul (div (mul entry target) (literal 3 0)) (literal 95 2))
            then (failed "Insufficient deposited balance", [])
            else open_attempts
                (record {
                  target = target;
                  entry = entry;
                  stop_loss = mul entry (add (literal 1 0) stop_loss_pct);
                })
                closing attempts (zero_number N)
      ]
