-- ===== src/Tests/Trader.antt =====
-- Orders of the Hyperliquid trader with concrete answers.
use asgard_hl_basisstrategy.Base.{true, ◌≡◌, refl, some, List, [], ◌∷◌, ok, raises, value_error}
use asgard_hl_basisstrategy.Trader.{
  Submission, Attempt, filled, accepted, submit_order, close_attempts, close_short,
  execute_stop_loss, open_attempts, open_short,
}
use asgard_hl_basisstrategy.Trader.Closing.{IsClose, close_short-IsClose}
use asgard_hl_basisstrategy.Trader.Opening.{IsExplainedAt, plan_of, open_short-IsExplainedAt}
use asgard_hl_basisstrategy.Tests.Decimals.{ℤ, pos, whole, lt_ℤ, decimals}

-- An order at the price 200 that fills a size.
abbrev filling : ℤ → Submission decimals
filling size = record {
  index = ok tt;
  price = some (whole 200);
  signature = ok tt;
  exchange = ok (accepted (filled (some size) (some (whole 201)) ∷ []));
}

abbrev refused : Submission decimals
refused = record {
  index = ok tt;
  price = some (whole 200);
  signature = ok tt;
  exchange = raises (value_error "timeout");
}

abbrev attempts : List (Attempt decimals)
attempts =
    record { stop_price = some (whole 200); submission = filling (whole 4) }
    ∷ record { stop_price = some (whole 203); submission = filling (whole 6) }
    ∷ []

-- Half of the target is filled in time; at the second attempt the stop loss is reached.
abbrev closing : List (Submission decimals)
closing = refused ∷ filling (whole 4) ∷ filling (whole 4) ∷ []

stopped_test :
    let r =
      open_short decimals true
        (whole 10)
        (pos 10000)
        (some (whole 200))
        (whole 5000)
        closing
        attempts in
    r.0.success ≡ true
unfolding open_short open_attempts execute_stop_loss close_short close_attempts submit_order
stopped_test = refl

close_short-IsClose_example :
    IsClose decimals
      (whole 4)
      (λ x. lt_ℤ x (whole 5))
      closing
      (close_short decimals true (whole 4) closing)
close_short-IsClose_example =
    close_short-IsClose decimals true (whole 4) (λ x. lt_ℤ x (whole 5)) closing refl

open_short-IsExplainedAt_example :
    IsExplainedAt decimals
      (plan_of decimals (whole 10) (pos 10000))
      closing
      attempts
      (some (whole 200))
      (open_short decimals true
        (whole 10)
        (pos 10000)
        (some (whole 200))
        (whole 5000)
        closing
        attempts)
open_short-IsExplainedAt_example =
    open_short-IsExplainedAt decimals true (whole 10) (pos 10000) (some (whole 200)) (whole 5000)
      closing attempts
