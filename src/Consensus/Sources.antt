-- ===== src/Consensus/Sources.antt =====
-- Which prices a consensus compares.
use asgard_hl_basisstrategy.Base.{
  String, Bool, true, false, ◌||◌, ◌≡◌, not, is_some, Option, none, some, List, Numbers, Result, ok,
  raises, arith, le,
}
use asgard_hl_basisstrategy.Positions.Rebalance.{Asset}
use asgard_hl_basisstrategy.Consensus.{
  Context, Markets, ConsensusReport, context_of, first_of, get_hyperliquid_prices, get_asgard_price,
  fetch_prices, deviation_of, deviation_limit, check_consensus,
}

module _ (N : Numbers) where
  open N use {Number}

  -- What is read of a coin's context with some price: its first price, and the one it is held against,
  -- which is the oracle's with a mark, then Asgard's, then the first price itself.
  abbrev pub held_against : Context N → Result Number → Number → Number
  held_against c asgard mark = elim c.mark_px [
    | some m ↦ elim c.oracle_px [ some o ↦ o | none ↦ elim asgard [ ok x ↦ x | raises e ↦ mark ] ]
    | none ↦ elim asgard [ ok x ↦ x | raises e ↦ mark ]
  ]

  abbrev pub was_read : Result Number → Bool
  was_read (raises e) = false
  was_read (ok x) = true

  -- Whether the two prices of a context have no deviation, since they cancel out.
  abbrev pub cancels : Context N → Result Number → Bool
  cancels c asgard = elim (first_of N c.mark_px c.oracle_px) [
    | none ↦ false
    | some x ↦ not (was_read (deviation_of N (held_against c asgard x) x))
  ]

  abbrev pub Compares :
      Option (Context N) → Result Number → Number → Result (ConsensusReport N) → Type 0
  Compares none asgard limit (raises e) = Unit {0}
  Compares none asgard limit (ok r) = ⊥
  Compares (some c) asgard limit (raises e) =
      (not (is_some (first_of N c.mark_px c.oracle_px)) || cancels c asgard) ≡ true
  Compares (some c) asgard limit (ok r) =
      (first_of N c.mark_px c.oracle_px ≡ some r.hyperliquid_price)
      × (r.asgard_price ≡ held_against c asgard r.hyperliquid_price)
      × (deviation_of N r.asgard_price r.hyperliquid_price ≡ ok r.price_deviation_pct)
      × (r.is_within_threshold ≡ le N r.price_deviation_pct limit)

  -- With Hyperliquid's answer, a consensus check raises exactly when the coin has no context with a
  -- price, or the two prices cancel out, whatever else Asgard answers. Otherwise it holds the mark, or
  -- else the oracle's price, against the oracle's if both are there, then against Asgard's, and
  -- against itself if Asgard has none; the asset is only used for Asgard's.
  pub check_consensus-Compares :
      (given : Option Number) (asset : Asset) (coin : String) (universe : List (Option String))
      (contexts : List (Context N)) (markets again : Result (Markets N))
      → Compares
          (context_of N coin universe contexts)
          (get_asgard_price N asset markets again)
          (deviation_limit N given)
          (check_consensus N given asset coin (ok (universe, contexts)) markets again)
  unfolding check_consensus get_hyperliquid_prices fetch_prices
  check_consensus-Compares given asset coin universe contexts markets again = ground arith
