-- ===== src/Opportunities/Criteria.antt =====
-- The two tests of the entry criteria.
use asgard_hl_basisstrategy.Base.{
  Bool, true, ◌&&◌, ◌||◌, ◌≡◌, not, Numbers, IsOrdered, arith, is_some,
}
use asgard_hl_basisstrategy.Opportunities.{Opportunity, meets_entry_criteria, check_entry_criteria}

module _ (N : Numbers) (order : IsOrdered N) where
  open N use {Number, literal, lt}

  -- Neither below nor above a limit.
  abbrev pub at_limit : Number → Number → Bool
  at_limit a limit = not (lt a limit) && not (lt limit a)

  -- What `check_entry_criteria` accepts meets the entry criteria; what meets them is accepted unless
  -- it has no prediction, or its volatility is exactly 50% or its price deviation exactly 0.5%.
  pub check_entry_criteria-meets_entry_criteria :
      (o : Opportunity N)
      → ((not (check_entry_criteria N o).0 || meets_entry_criteria N o) ≡ true)
        × ((not (meets_entry_criteria N o)
              || (check_entry_criteria N o).0
              || not (is_some o.predicted_funding)
              || at_limit o.funding_volatility (literal 5 1)
              || at_limit o.price_deviation (literal 5 3))
            ≡ true)
  unfolding check_entry_criteria meets_entry_criteria
  check_entry_criteria-meets_entry_criteria o = ground (
    arith,
    order.lt_trans o.funding_volatility (literal 5 1) o.funding_volatility,
    order.lt_irrefl o.funding_volatility,
    order.lt_trans o.price_deviation (literal 5 3) o.price_deviation,
    order.lt_irrefl o.price_deviation,
  )
