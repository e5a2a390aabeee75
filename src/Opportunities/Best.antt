-- ===== src/Opportunities/Best.antt =====
-- Which opportunity is the best one.
use asgard_hl_basisstrategy.Base.{
  Bool, true, false, ◌&&◌, ◌||◌, ◌≡◌, refl, not, Option, none, some, List, [], ◌∷◌, any, all,
  Numbers, IsOrdered, arith,
}
use asgard_hl_basisstrategy.Opportunities.{
  Opportunity, total_expected_apy, is_sol, key_below, get_best_opportunity,
}
use asgard_hl_basisstrategy.Opportunities.Sorting.{sort_by, IsStrict, First, sort_by-First}

module _ (N : Numbers) (order : IsOrdered N) where
  open N use {Number, lt, neg}

  lexical_asymmetric :
      (a b v w : Number) (s t : Bool)
      → (lt a b || not (lt b a) && (lt v w || not (lt w v) && s && not t)) ≡ true
      → (lt b a || not (lt a b) && (lt w v || not (lt v w) && t && not s)) ≡ false
  lexical_asymmetric a b v w s t h =
      ground
        (arith, order.lt_trans a b a, order.lt_irrefl a, order.lt_trans v w v, order.lt_irrefl v)

  lexical_splits :
      (a b c u v w : Number) (s t r : Bool)
      → (lt a c || not (lt c a) && (lt u w || not (lt w u) && s && not r)) ≡ true
      → (lt a b
          || not (lt b a) && (lt u v || not (lt v u) && s && not t)
          || (lt b c || not (lt c b) && (lt v w || not (lt w v) && t && not r)))
        ≡ true
  lexical_splits a b c u v w s t r h = ground (
    arith,
    order.lt_split a b c,
    order.lt_split c b a,
    order.lt_split b c a,
    order.lt_split b a c,
    order.lt_split c a b,
    order.lt_split a c b,
    order.lt_trans a b a,
    order.lt_irrefl a,
    order.lt_split u v w,
    order.lt_split w v u,
    order.lt_split v w u,
    order.lt_split v u w,
    order.lt_split w u v,
    order.lt_split u w v,
  )

  key_below-IsStrict : IsStrict (key_below N)
  unfolding key_below
  key_below-IsStrict = record {
    asymmetric = λ x y.
        lexical_asymmetric (total_expected_apy N x) (total_expected_apy N y)
          (neg x.funding_volatility) (neg y.funding_volatility) (is_sol x.asset) (is_sol y.asset);
    splits = λ x y z.
        lexical_splits (total_expected_apy N x) (total_expected_apy N y) (total_expected_apy N z)
          (neg x.funding_volatility) (neg y.funding_volatility) (neg z.funding_volatility)
          (is_sol x.asset) (is_sol y.asset) (is_sol z.asset);
  }

  -- An opportunity that no other beats: first by the APY, then by the volatility, and then one that
  -- is not SOL before one that is.
  abbrev pub is_best : Opportunity N → Opportunity N → Bool
  is_best o x =
      not (lt (total_expected_apy N o) (total_expected_apy N x))
      && (lt (total_expected_apy N x) (total_expected_apy N o)
          || not (lt (neg o.funding_volatility) (neg x.funding_volatility)))
      && (lt (total_expected_apy N x) (total_expected_apy N o)
          || lt (neg x.funding_volatility) (neg o.funding_volatility)
          || not (is_sol o.asset)
          || is_sol x.asset)

  -- The choice from a list: what holds of the chosen one holds of one of the list.
  abbrev pub Chooses :
      List (Opportunity N) → (Opportunity N → Bool) → Option (Opportunity N) → Type 0
  Chooses xs p none = xs ≡ []
  Chooses xs p (some o) = (all (is_best o) xs ≡ true) × ((not (p o) || any p xs) ≡ true)

  lexical_best :
      (a b v w : Number) (s t : Bool)
      → (lt a b || not (lt b a) && (lt v w || not (lt w v) && s && not t)) ≡ false
      → (not (lt a b) && (lt b a || not (lt v w)) && (lt b a || lt w v || not s || t)) ≡ true
  lexical_best a b v w s t h = ground arith

  all-is_best :
      (o : Opportunity N) (xs : List (Opportunity N))
      → all (λ x. not (key_below N o x)) xs ≡ true
      → all (is_best o) xs ≡ true
  unfolding key_below
  all-is_best o [] h = refl
  all-is_best o (x ∷ xs) h =
      let first =
        lexical_best (total_expected_apy N o) (total_expected_apy N x) (neg o.funding_volatility)
          (neg x.funding_volatility) (is_sol o.asset) (is_sol x.asset) in
      grind (arith, h, first, all-is_best o xs)

  chosen-First :
      (xs : List (Opportunity N)) (p : Opportunity N → Bool) (ys : List (Opportunity N))
      → First (key_below N) key_below-IsStrict xs ys
      → Chooses xs p (elim ys [ [] ↦ none | o ∷ rest ↦ some o ])
  chosen-First xs p [] h = h
  chosen-First xs p (o ∷ rest) (tops, member) = (all-is_best o xs tops, ground (arith, member p))

  -- A list with an opportunity has a best one, which is of the list: no other has a higher APY, none
  -- with the same APY a lower volatility (a greater one, negated), and of those that agree in both
  -- it is a liquid staking token if there is one.
  pub get_best_opportunity-Chooses :
      (xs : List (Opportunity N)) (p : Opportunity N → Bool)
      → Chooses xs p (get_best_opportunity N xs)
  unfolding get_best_opportunity
  get_best_opportunity-Chooses xs p =
      chosen-First xs p (sort_by (key_below N) xs)
        (sort_by-First (key_below N) key_below-IsStrict xs)
