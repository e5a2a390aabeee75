-- ===== src/Trader/Closing.antt =====
-- What `close_short` sends, and when it succeeds.
use asgard_hl_basisstrategy.Base.{
  Bool, true, false, ◌&&◌, ◌≡◌, refl, is_some, List, [], ◌∷◌, all, any, filter, length, Numbers,
  Result, ok, raises, arith, if◌then◌else◌,
}
use asgard_hl_basisstrategy.Trader.{
  Order, OrderResult, Submission, submit_order, fill_of, close_attempts, close_short,
}

module _ (N : Numbers) where
  open N use {Number}

  abbrev succeeds : {A : Type 0} → Result A → Bool
  succeeds (raises e) = false
  succeeds (ok x) = true

  -- An attempt that sends its order.
  abbrev pub sends : Submission N → Bool
  sends s = succeeds s.index && is_some s.price && succeeds s.signature

  -- An attempt whose order is sent and filled, wholly or in part.
  abbrev pub fills : Submission N → Bool
  fills s = sends s && is_some (fill_of N s.exchange)

  -- The attempts up to the first that is filled, that one included.
  abbrev pub tried : List (Submission N) → List (Submission N)
  tried [] = []
  tried (s ∷ attempts) = if fills s then s ∷ [] else s ∷ tried attempts

  -- Whether an order buys a short back, whose size passes a test.
  abbrev pub buys_back : (Number → Bool) → Order N → Bool
  buys_back p o = o.is_buy && o.reduce_only && p o.sz

  -- The result and the orders of a close. Any test of the size, such as equality with it, is one of
  -- the orders' sizes.
  pub record IsClose (size : Number) (p : Number → Bool) (attempts : List (Submission N))
      (r : OrderResult N × List (Order N)) : Type 0 where
    pub succeeds_filled : r.0.success ≡ any fills attempts
    pub sends_tried : length r.1 ≡ length (filter sends (tried attempts))
    pub only_buys_back : all (buys_back p) r.1 ≡ true

  close_attempts-IsClose :
      (size : Number) (p : Number → Bool) (attempts : List (Submission N))
      → p size ≡ true
      → IsClose size p attempts (close_attempts N size attempts)
  unfolding close_attempts submit_order
  close_attempts-IsClose size p [] h = record {
    succeeds_filled = refl;
    sends_tried = refl;
    only_buys_back = refl;
  }
  close_attempts-IsClose size p (s ∷ attempts) h =
      let rest = close_attempts-IsClose size p attempts h in
      record {
        succeeds_filled = ground (arith, rest.succeeds_filled);
        sends_tried = ground (arith, rest.sends_tried);
        only_buys_back = ground (arith, rest.only_buys_back, h);
      }

  -- A close ends after at most one order for each attempt: it sends one for each attempt that can,
  -- up to the first that is filled, only ever buys the size back, and succeeds exactly if one is
  -- filled. Without a signer it sends nothing and fails.
  pub close_short-IsClose :
      (has_signer : Bool) (size : Number) (p : Number → Bool) (attempts : List (Submission N))
      → p size ≡ true
      → IsClose size p
          (if has_signer then attempts else [])
          (close_short N has_signer size attempts)
  unfolding close_short
  close_short-IsClose true size p attempts h = close_attempts-IsClose size p attempts h
  close_short-IsClose false size p attempts h = record {
    succeeds_filled = refl;
    sends_tried = refl;
    only_buys_back = refl;
  }
