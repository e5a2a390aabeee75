-- ===== src/Opportunities/Found.antt =====
-- What a scan finds, and in which order.
use asgard_hl_basisstrategy.Base.{
  String, Bool, true, false, ◌&&◌, ◌≡◌, refl, ◌∙◌, not, Option, none, some, List, [], ◌∷◌, filter,
  length, Numbers, IsOrdered, zero_number, Result, ok, raises, arith,
}
use asgard_hl_basisstrategy.Positions.Rebalance.{Asset}
use asgard_hl_basisstrategy.Monitor.Types.{FundingRate}
use asgard_hl_basisstrategy.Intents.Execute.{validate_leverage}
use asgard_hl_basisstrategy.Opportunities.{Opportunity, OpportunityDetector, total_expected_apy}
use asgard_hl_basisstrategy.Opportunities.Sorting.{
  IsStrict, descending, descending-sort_by, count-sort_by,
}
use asgard_hl_basisstrategy.Opportunities.Scan.{
  Answers, NetCarryResult, create_opportunity, analyze_volatility, analyze_prediction,
  analyze_asset, current_rate, analyze_assets, apy_below, allowed_assets, scan_opportunities,
}

module _ (N : Numbers) where
  open N use {Number, literal, lt}

  abbrev pub is_negative_rate : Option Number → Bool
  is_negative_rate none = false
  is_negative_rate (some r) = lt r (zero_number N)

  abbrev pub has_protocol : Result (Option (NetCarryResult N)) → Bool
  has_protocol (raises e) = false
  has_protocol (ok none) = false
  has_protocol (ok (some p)) = true

  abbrev pub is_negative_answer : Result Number → Bool
  is_negative_answer (raises e) = false
  is_negative_answer (ok r) = lt r (zero_number N)

  abbrev pub is_calm : Result Number → Bool
  is_calm (raises e) = false
  is_calm (ok v) = not (lt (literal 5 1) v)

  -- The filters of the code, on what is answered for an asset, and a leverage that the model
  -- of an opportunity accepts.
  abbrev pub is_chance : Option Number → Answers N → OpportunityDetector N → Bool
  is_chance current answers d =
      is_negative_rate current
      && has_protocol answers.best_protocol
      && is_negative_answer answers.predicted_rate
      && is_calm answers.volatility
      && validate_leverage N d.leverage

  abbrev pub IsFoundFor : Asset → Result (Option (Opportunity N)) → Bool → Type 0
  IsFoundFor a (raises e) chance = chance ≡ false
  IsFoundFor a (ok none) chance = chance ≡ false
  IsFoundFor a (ok (some o)) chance = (chance ≡ true) × (o.asset ≡ a)

  analyze_asset-is_chance :
      (a : Asset) (current : Option Number) (answers : Answers N) (d : OpportunityDetector N)
      → IsFoundFor a (analyze_asset N a current answers d) (is_chance current answers d)
  unfolding analyze_asset analyze_prediction analyze_volatility create_opportunity
  analyze_asset-is_chance a current answers d = ground arith

  -- A scan finds as many opportunities that pass a test of the asset as there are assets that pass it
  -- and whose answers are a chance.
  count-analyze_assets :
      (p : Asset → Bool) (assets : List Asset) (current : Option Number)
      (answers : Asset → Answers N) (d : OpportunityDetector N)
      → length (filter (λ o. p o.asset) (analyze_assets N assets current answers d))
        ≡ length (filter (λ a. p a && is_chance current (answers a) d) assets)
  unfolding analyze_assets
  count-analyze_assets p [] current answers d = refl
  count-analyze_assets p (a ∷ assets) current answers d = grind (
    arith,
    analyze_asset-is_chance a current (answers a) d,
    count-analyze_assets p assets current answers d,
  )

module _ (N : Numbers) (order : IsOrdered N) where
  apy_below-IsStrict : IsStrict (apy_below N)
  apy_below-IsStrict = record {
    asymmetric = λ x y h. ground (
      arith,
      order.lt_trans (total_expected_apy N x) (total_expected_apy N y) (total_expected_apy N x),
      order.lt_irrefl (total_expected_apy N x),
    );
    splits = λ x y z h. ground (
      arith,
      order.lt_split (total_expected_apy N x) (total_expected_apy N y) (total_expected_apy N z),
    );
  }

  -- A scan for which the funding rates were read.
  abbrev pub Finds :
      (Asset → Bool) → List Asset → (Asset → Bool) → Result (List (Opportunity N)) → Type 0
  Finds p assets chance (raises e) = ⊥
  Finds p assets chance (ok found) =
      (descending (apy_below N) found ≡ true)
      × (length (filter (λ o. p o.asset) found) ≡ length (filter (λ a. p a && chance a) assets))

  -- A scan whose funding rates were read gives its opportunities by descending APY, and for any
  -- assets as many as there are among those that it scans whose current and predicted funding is
  -- negative, for which a protocol was selected and whose volatility is at most 50%, provided that
  -- the leverage is one that an opportunity accepts: an exception in an analysis only loses that one.
  pub scan_opportunities-Finds :
      (p : Asset → Bool) (assets : List Asset) (rates : List (String × FundingRate N))
      (answers : Asset → Answers N) (d : OpportunityDetector N)
      → Finds p
          (allowed_assets N assets)
          (λ a. is_chance N (current_rate N rates) (answers a) d)
          (scan_opportunities N assets (ok rates) answers d)
  unfolding scan_opportunities
  scan_opportunities-Finds p assets rates answers d =
      let found = analyze_assets N (allowed_assets N assets) (current_rate N rates) answers d in
      (
        descending-sort_by (apy_below N) apy_below-IsStrict found,
        count-sort_by (apy_below N) (λ o. p o.asset) found
            ∙ count-analyze_assets N p (allowed_assets N assets) (current_rate N rates) answers d,
      )
