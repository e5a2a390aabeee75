-- ===== src/Intents/Criteria.antt =====
-- `_check_funding`, `_check_volatility`, `_check_price` and `_check_criteria` of IntentScanner.
use asgard_hl_basisstrategy.Base.{
  String, true, false, Option, none, some, number_or, List, [], ◌∷◌, all, Numbers, zero_number, le,
  Result, ok, raises, lookup, if◌then◌else◌,
}
use asgard_hl_basisstrategy.Monitor.Types.{FundingRate}
use asgard_hl_basisstrategy.Intents.Types.{
  Reason, no_data, non_negative, above_threshold, too_volatile, too_expensive, no_limit,
  check_error, Check, Criteria, IntentRow, World,
}

module _ (N : Numbers) where
  open N use {Number, literal, lt}

  abbrev pub fails : Reason → Option Number → Option Number → Check N
  fails why current limit = record {
    passed = false;
    reason = some why;
    current = current;
    limit = limit;
  }

  abbrev pub passes : Option Reason → Option Number → Check N
  passes why current = record { passed = true; reason = why; current = current; limit = none }

  -- The user's least rate, against a negative rate.
  unfoldable pub check_min_rate : Number → Option Number → Check N
  check_min_rate rate none = passes none (some rate)
  check_min_rate rate (some least) =
      if lt least rate
      then fails above_threshold (some rate) (some least)
      else passes none (some rate)

  -- The rates are those of the oracle's objects, whose `funding_rate` is read.
  unfoldable pub check_funding : Result (List (String × FundingRate N)) → IntentRow N → Check N
  unfolding check_min_rate
  check_funding (raises e) row = fails (check_error e) none none
  check_funding (ok rates) row = elim (lookup row.asset rates) [
    | none ↦ fails no_data none none
    | some r ↦
        if le N (zero_number N) r.funding_rate
        then fails non_negative (some r.funding_rate) none
        else check_min_rate r.funding_rate row.min_funding_rate
  ]

  abbrev pub max_volatility : IntentRow N → Number
  max_volatility row = number_or N row.max_funding_volatility (literal 5 1)

  unfoldable pub check_volatility : Result Number → IntentRow N → Check N
  check_volatility (raises e) row = fails (check_error e) none none
  check_volatility (ok v) row =
      if lt (max_volatility row) v
      then fails too_volatile (some v) (some (max_volatility row))
      else passes none (some v)

  abbrev pub compare_price : Number → Option Number → Check N
  compare_price max none = fails no_data none none
  compare_price max (some price) =
      if lt max price then fails too_expensive (some price) (some max) else passes none (some price)

  unfoldable pub check_price :
      Option Number → Result (List (String × Number)) → IntentRow N → Check N
  check_price none mids row = passes (some no_limit) none
  check_price (some max) (raises e) row = fails (check_error e) none none
  check_price (some max) (ok mids) row = compare_price max (lookup row.asset mids)

  unfoldable pub check_criteria : World N → IntentRow N → Criteria N
  unfolding check_funding check_volatility check_price
  check_criteria w row = elim w.clients [
    | raises e ↦ record { all_passed = false; checks = []; error = some e }
    | ok t ↦
        let checks =
          ("funding_rate", check_funding w.funding_rates row)
          ∷ ("funding_volatility", check_volatility (w.volatility row.asset) row)
          ∷ ("entry_price", check_price row.max_entry_price w.mids row)
          ∷ [] in
        record { all_passed = all (λ c. c.1.passed) checks; checks = checks; error = none }
  ]
